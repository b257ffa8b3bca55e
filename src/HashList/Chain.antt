-- ===== src/HashList/Chain.antt =====
-- src/include/dcd/hash-list-inl.h: chains of elements, from a pointer along `tail` to another.
use opendcd.Prelude.{
  ℕ, ◌≡◌, ◌≢◌, refl, sym, ap, subst, inl, inr, Bool-cases, Option, some, List, [], ◌∷◌, ◌++◌, Has,
  update_same, update_other, ◌==◌, ==_iff,
}
use opendcd.HashList.{Elem, set_tail}

module _ {T : Type 0} where
  -- From `p` the tails lead through `xs` to `q`.
  abbrev pub IsChain : (ℕ → Elem T) → Option ℕ → List ℕ → Option ℕ → Type 0
  IsChain cell p [] q = p ≡ q
  IsChain cell p (x ∷ xs) q = (p ≡ some x) × IsChain cell (cell x).tail xs q

  pub IsChain-frame :
      (cell cell' : ℕ → Elem T) (p : Option ℕ) (xs : List ℕ) (q : Option ℕ)
      → ((x : ℕ) → Has x xs → (cell' x).tail ≡ (cell x).tail)
      → IsChain cell p xs q
      → IsChain cell' p xs q
  IsChain-frame cell cell' p [] q same h = h
  IsChain-frame cell cell' p (x ∷ xs) q same h = (
    h.0,
    subst (λ r. IsChain cell' r xs q) (sym (same x (inl refl)))
        (IsChain-frame cell cell' (cell x).tail xs q (λ y k. same y (inr k)) h.1),
  )

  pub IsChain-append :
      (cell : ℕ → Elem T) (p : Option ℕ) (xs : List ℕ) (q : Option ℕ) (ys : List ℕ) (r : Option ℕ)
      → IsChain cell p xs q
      → IsChain cell q ys r
      → IsChain cell p (xs ++ ys) r
  IsChain-append cell p [] q ys r h k = subst (λ t. IsChain cell t ys r) (sym h) k
  IsChain-append cell p (x ∷ xs) q ys r h k =
      (h.0, IsChain-append cell (cell x).tail xs q ys r h.1 k)

  pub set_tail_same : (cell : ℕ → Elem T) (e : ℕ) (p : Option ℕ) → (set_tail cell e p e).tail ≡ p
  unfolding set_tail
  set_tail_same cell e p = ap (λ (x : Elem T). x.tail) (update_same cell e _)

  pub set_tail_other :
      (cell : ℕ → Elem T) (e x : ℕ) (p : Option ℕ) → x ≢ e → set_tail cell e p x ≡ cell x
  unfolding set_tail
  set_tail_other cell e x p n = update_other cell e x _ n

  pub set_tail_entry :
      (cell : ℕ → Elem T) (e x : ℕ) (p : Option ℕ)
      → ((set_tail cell e p x).key ≡ (cell x).key) × ((set_tail cell e p x).val ≡ (cell x).val)
  unfolding set_tail
  set_tail_entry cell e x p = elim (Bool-cases (e == x)) [
    | inl same ↦ let q = (==_iff e x).0 same in rw same (rw q (refl, refl))
    | inr other ↦ rw other (refl, refl)
  ]
