-- ===== src/HashList/Groups/Insert/Only.antt =====
-- src/include/dcd/hash-list-inl.h, Insert into a hash without elements.
use opendcd.Prelude.{ℕ, ◌<◌, ◌≡◌, refl, sym, subst, ◌∙◌, none, some, List, [], ◌∷◌, ◌++◌}
use opendcd.HashList.{HashList, insert}
use opendcd.HashList.Chain.{IsChain}
use opendcd.HashList.Freed.{IsUsed}
use opendcd.HashList.Groups.{elements, end, IsHash, elements-IsChain}
use opendcd.HashList.Groups.Insert.Exact.{insert-IsInserted}

put_in-nil : (before after : List ℕ) (e : ℕ) → [] ≡ before ++ after → before ++ e ∷ after ≡ e ∷ []
put_in-nil [] [] e h = refl
put_in-nil [] (x ∷ after) e h = cc
put_in-nil (x ∷ before) after e h = cc

module _ {T : Type 0} where
  -- Insert into a hash without elements leaves the one element.
  pub insert-alone :
      (h h' : HashList T) (free : List ℕ) (s : ℕ) (a : T)
      → IsHash h [] free
      → 0 < h.hash_size
      → insert s a h ≡ some h'
      → (e : ℕ) × IsChain h'.memory.cell h'.list_head (e ∷ []) none
        × ((h'.memory.cell e).key ≡ s)
        × ((h'.memory.cell e).val ≡ a)
  insert-alone h h' free s a w pos r =
      let (h1, r1, i) = insert-IsInserted h [] free s a w pos in
      let same : h1 ≡ h' = (let z : some h1 ≡ some h' = sym r1 ∙ r in cc) in
      let only : elements i.groups ≡ i.new ∷ [] =
        i.place.within
        ∙ put_in-nil i.place.before i.place.after i.new (unfold elements in i.place.without) in
      let chain =
        elements-IsChain h1.memory.cell h1.bucket h1.hash_size (IsUsed h1.memory i.left)
          h1.list_head i.groups i.hash.linked in
      subst
        (λ (k : HashList T).
          (e : ℕ) × IsChain k.memory.cell k.list_head (e ∷ []) none
          × ((k.memory.cell e).key ≡ s)
          × ((k.memory.cell e).val ≡ a))
        same
        (
          i.new,
          subst (λ p. IsChain h1.memory.cell h1.list_head (i.new ∷ []) p) i.hash.ends
              (subst
                (λ xs.
                  IsChain h1.memory.cell h1.list_head xs (end h1.memory.cell h1.list_head i.groups))
                only chain),
          i.key,
          i.val,
        )
