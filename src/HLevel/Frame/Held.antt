-- ===== src/HLevel/Frame/Held.antt =====
-- src/include/dcd/hlevel-decoder.h: the tokens that the elements of a list hold, and the invariant of the
-- decoder.
use opendcd.Prelude.{
  ℕ, ◌+◌, ◌<◌, ◌≡◌, ◌≢◌, refl, sym, ap, subst, ◌∙◌, ◌⊎◌, inl, inr, Bool-cases, Option, some, List,
  [], ◌∷◌, ◌++◌, Has, Has-append, NoDup, ◌==◌, ==_iff, arith,
}
use opendcd.HashList.{Elem, HashBucket, HashList}
use opendcd.HashList.Freed.{IsFreed-frame, IsUsed, some_eq}
use opendcd.HashList.Groups.{Group, members, indices, elements, end, IsGroup, IsLinked, IsHash}
use opendcd.HashList.Groups.Frame.{IsGroup-frame, Has-elements}
use opendcd.HashList.Groups.Find.{first_key}
use opendcd.HLevel.{HToken}
use opendcd.HLevel.Refs.{at, IsCounted}
use opendcd.HLevel.Frame.{HLevelDecoder, set_val}

-- The references to `b` that the elements of a list hold
unfoldable pub vals : (ℕ → Elem ℕ) → ℕ → List ℕ → ℕ
vals cell b [] = 0
vals cell b (x ∷ xs) = at (cell x).val b + vals cell b xs

pub vals-frame :
    (cell cell' : ℕ → Elem ℕ) (b : ℕ) (xs : List ℕ)
    → ((x : ℕ) → Has x xs → (cell' x).val ≡ (cell x).val)
    → vals cell' b xs ≡ vals cell b xs
unfolding vals
vals-frame cell cell' b [] e = refl
vals-frame cell cell' b (x ∷ xs) e =
    ap (λ (a : ℕ). at a b + vals cell' b xs) (e x (inl refl))
    ∙ ap (λ (n : ℕ). at (cell x).val b + n) (vals-frame cell cell' b xs (λ y h. e y (inr h)))

pub vals-put :
    (cell : ℕ → Elem ℕ) (b e : ℕ) (xs ys : List ℕ)
    → vals cell b (xs ++ e ∷ ys) ≡ at (cell e).val b + vals cell b (xs ++ ys)
unfolding vals
vals-put cell b e [] ys = refl
vals-put cell b e (x ∷ xs) ys = omega (arith, vals-put cell b e xs ys)

pub vals_pos : (cell : ℕ → Elem ℕ) (xs : List ℕ) (x : ℕ) → Has x xs → 0 < vals cell (cell x).val xs
unfolding vals
vals_pos cell [] x h = elim h [ ]
vals_pos cell (y ∷ ys) x h = elim h [
  | inl e ↦
      subst (λ z. 0 < at (cell z).val (cell x).val + vals cell (cell x).val ys) e
        (ground (arith, ==_iff (cell x).val (cell x).val))
  | inr k ↦ omega (arith, vals_pos cell ys x k)
]

-- One element gets another token.
pub vals-set :
    (cell cell' : ℕ → Elem ℕ) (b e a : ℕ) (xs : List ℕ)
    → NoDup xs
    → Has e xs
    → (cell' e).val ≡ a
    → ((x : ℕ) → x ≢ e → (cell' x).val ≡ (cell x).val)
    → vals cell' b xs + at (cell e).val b ≡ vals cell b xs + at a b
unfolding vals
vals-set cell cell' b e a [] d h q same = elim h [ ]
vals-set cell cell' b e a (x ∷ xs) d h q same = elim (Bool-cases (e == x)) [
  | inl r ↦
      let z : e ≡ x = (==_iff e x).0 r in
      let tail : vals cell' b xs ≡ vals cell b xs =
        vals-frame cell cell' b xs (λ y k. same y (λ s. d.0 (subst (λ w. Has w xs) (s ∙ z) k))) in
      let here : at (cell' x).val b ≡ at a b =
        ap (λ (y : ℕ). at (cell' y).val b) (sym z) ∙ ap (λ (y : ℕ). at y b) q in
      let old : at (cell e).val b ≡ at (cell x).val b = ap (λ (y : ℕ). at (cell y).val b) z in
      omega arith
  | inr r ↦
      let n : x ≢ e = λ z. ground (arith, ==_iff e x) in
      let k : Has e xs = elim h [ inl z ↦ absurd (n (sym z)) | inr k ↦ k ] in
      let here : at (cell' x).val b ≡ at (cell x).val b = ap (λ (y : ℕ). at y b) (same x n) in
      omega (arith, vals-set cell cell' b e a xs d.1 k q same)
]

pub Has-put : (x e : ℕ) (xs ys : List ℕ) → Has x (xs ++ e ∷ ys) → (x ≡ e) ⊎ Has x (xs ++ ys)
Has-put x e [] ys h = h
Has-put x e (y ∷ xs) ys h = elim h [
  | inl q ↦ inr (inl q)
  | inr k ↦ elim (Has-put x e xs ys k) [ inl q ↦ inl q | inr m ↦ inr (inr m) ]
]

NoDup-append :
    (xs ys : List ℕ) → NoDup xs → NoDup ys → ((x : ℕ) → Has x xs → ¬ Has x ys) → NoDup (xs ++ ys)
NoDup-append [] ys d e n = e
NoDup-append (x ∷ xs) ys d e n = (
  λ h. elim ((Has-append x xs ys).0 h) [ inl k ↦ d.0 k | inr k ↦ n x (inl refl) k ],
  NoDup-append xs ys d.1 e (λ y h. n y (inr h)),
)

pub first_key-some :
    (cell : ℕ → Elem ℕ) (k : ℕ) (xs : List ℕ) (e : ℕ)
    → first_key cell k xs ≡ some e
    → Has e xs × ((cell e).key ≡ k)
unfolding first_key
first_key-some cell k [] e q = cc
first_key-some cell k (x ∷ xs) e q = elim (Bool-cases ((cell x).key == k)) [
  | inl r ↦
      let q' : some x ≡ some e = rw r at q in
      let z = some_eq x e q' in
      (inl (sym z), ap (λ (y : ℕ). (cell y).key) (sym z) ∙ (==_iff (cell x).key k).0 r)
  | inr r ↦
      let q' : first_key cell k xs ≡ some e = rw r at q in
      let (m, s) = first_key-some cell k xs e q' in (inr m, s)
]

pub elements-NoDup :
    (cell : ℕ → Elem ℕ) (bucket : ℕ → HashBucket) (size : ℕ) (Used : ℕ → Type 0) (head : Option ℕ)
    (gs : List Group)
    → IsLinked cell bucket size Used head gs
    → NoDup (indices gs)
    → NoDup (elements gs)
unfolding elements indices
elements-NoDup cell bucket size Used head [] v d = tt
elements-NoDup cell bucket size Used head (g ∷ gs) v d =
    NoDup-append (elements gs) (members g) (elements-NoDup cell bucket size Used head gs v.3 d.1)
      v.0.nodup
      (λ x h k. d.0 (
        subst (λ b. Has b (indices gs)) (v.0.keys x k)
          (Has-elements cell bucket size Used head gs x v.3 h).1))

end-vals :
    (cell cell' : ℕ → Elem ℕ) (head : Option ℕ) (gs : List Group)
    → ((x : ℕ) → ((cell' x).tail ≡ (cell x).tail) × ((cell' x).key ≡ (cell x).key))
    → end cell' head gs ≡ end cell head gs
unfolding end
end-vals cell cell' head [] same = refl
end-vals cell cell' head (g ∷ gs) same = (same g.last).0

IsLinked-vals :
    (cell cell' : ℕ → Elem ℕ) (bucket : ℕ → HashBucket) (size : ℕ) (Used : ℕ → Type 0)
    (head : Option ℕ) (gs : List Group)
    → ((x : ℕ) → ((cell' x).tail ≡ (cell x).tail) × ((cell' x).key ≡ (cell x).key))
    → IsLinked cell bucket size Used head gs
    → IsLinked cell' bucket size Used head gs
IsLinked-vals cell cell' bucket size Used head [] same v = tt
IsLinked-vals cell cell' bucket size Used head (g ∷ gs) same v = (
  subst (λ p. IsGroup cell' size Used p g) (sym (end-vals cell cell' head gs same))
      (IsGroup-frame cell cell' size Used Used (end cell head gs) g (λ x _. (same x).0)
        (λ x _. (same x).1) (λ x _ u. u) v.0),
  v.1,
  v.2,
  IsLinked-vals cell cell' bucket size Used head gs same v.3,
)

pub set_val-IsHash :
    (h : HashList ℕ) (gs : List Group) (free : List ℕ) (e a : ℕ)
    → IsHash h gs free
    → IsHash (set_val h e a) gs free
unfolding set_val
set_val-IsHash h gs free e a w =
    let cell = h.memory.cell in
    let cell' = (set_val h e a).memory.cell in
    let same : (x : ℕ) → ((cell' x).tail ≡ (cell x).tail) × ((cell' x).key ≡ (cell x).key) = λ x.
      elim (Bool-cases (e == x)) [
        | inl r ↦ let z = (==_iff e x).0 r in rw r (rw z (refl, refl))
        | inr r ↦ rw r (refl, refl)
      ] in
    record {
      freed = IsFreed-frame h.memory cell' free (λ x _. (same x).0) w.freed;
      linked =
          IsLinked-vals cell cell' h.bucket h.hash_size (IsUsed h.memory free) h.list_head gs same
            w.linked;
      ends = end-vals cell cell' h.list_head gs same ∙ w.ends;
      tail = w.tail;
      distinct = w.distinct;
      below = w.below;
      others = w.others;
      sized = w.sized;
    }

-- The invariant of the decoder: the hash with its elements, the elements `rest` of a list that was taken
-- out of it, and the tokens, each with the count of what refers to it: `outside` counts the references
-- by no element and no token.
pub record IsDecoder {F : Type 0} (d : HLevelDecoder F) (gs : List Group) (free live rest : List ℕ)
    (outside : ℕ → ℕ) : Type 0 where
  pub hash : IsHash d.toks gs free
  pub sized : 0 < d.toks.hash_size
  pub rest_nodup : NoDup rest
  pub rest_used : (x : ℕ) → Has x rest → IsUsed d.toks.memory free x
  pub rest_out : (x : ℕ) → Has x rest → ¬ Has x (elements gs)
  pub counted :
      IsCounted d.tokens live (λ b.
        outside b + (vals d.toks.memory.cell b (elements gs) + vals d.toks.memory.cell b rest))
  pub states :
      (x : ℕ) (t : HToken F)
      → Has x (elements gs) ⊎ Has x rest
      → d.tokens.cell (d.toks.memory.cell x).val ≡ some t
      → t.arc.nextstate ≡ (d.toks.memory.cell x).key
