-- ===== src/Lattice/Mark/Reach.antt =====
-- src/include/dcd/lattice.h, State::GcMark: the backward paths that marking follows.
use opendcd.Prelude.{
  ℕ, zero, suc, ◌+◌, ◌<◌, ◌≡◌, refl, ap, sym, ◌∙◌, ◌⊎◌, inl, inr, true, Option, some, List, [], ◌∷◌,
  Has, arith, Bool-cases, update, ==_iff, ◌==◌,
}
use opendcd.Lattice.{State, preds}
use opendcd.Lattice.Mark.{Cells, gc_marked, set_marked, mark_all, gc_mark, ◌>>=◌}

-- A path from a state along the pointers `g`.
pub data Back (g : ℕ → List ℕ) : ℕ → ℕ → Type 0 where
  here : {a : ℕ} → Back g a a
  step : {a p b : ℕ} → Has p (g a) → Back g p b → Back g a b

pub Back-snoc : {g : ℕ → List ℕ} {a b p : ℕ} → Back g a b → Has p (g b) → Back g a p
Back-snoc here h = step h here
Back-snoc (step k r) h = step k (Back-snoc r h)

-- A path from one of the states of a list.
abbrev pub FromAny : (ℕ → List ℕ) → List ℕ → ℕ → Type 0
FromAny g [] b = ⊥
FromAny g (p ∷ ps) b = Back g p b ⊎ FromAny g ps b

pub FromAny-Has : (g : ℕ → List ℕ) (ps : List ℕ) (p b : ℕ) → Has p ps → Back g p b → FromAny g ps b
FromAny-Has g [] p b h r = elim h [ ]
FromAny-Has g (q ∷ ps) p b (inl e) r = inl (rw e at r)
FromAny-Has g (q ∷ ps) p b (inr h) r = inr (FromAny-Has g ps p b h r)

pub Has-FromAny :
    (g : ℕ → List ℕ) (ps : List ℕ) (b : ℕ) → FromAny g ps b → (p : ℕ) × Has p ps × Back g p b
Has-FromAny g [] b h = elim h [ ]
Has-FromAny g (q ∷ ps) b (inl r) = (q, inl refl, r)
Has-FromAny g (q ∷ ps) b (inr h) = let (p, m, r) = Has-FromAny g ps b h in (p, inr m, r)

pub FromAny-snoc :
    (g : ℕ → List ℕ) (ps : List ℕ) (b p : ℕ) → FromAny g ps b → Has p (g b) → FromAny g ps p
FromAny-snoc g [] b p h k = h
FromAny-snoc g (q ∷ ps) b p (inl r) k = inl (Back-snoc r k)
FromAny-snoc g (q ∷ ps) b p (inr h) k = inr (FromAny-snoc g ps b p h k)

-- A set that the pointers do not leave holds what is reached from it.
pub Back-inside :
    {D : ℕ → Type 0} {g : ℕ → List ℕ} {a b : ℕ}
    → ((x p : ℕ) → D x → Has p (g x) → D p)
    → D a
    → Back g a b
    → D b
Back-inside inside d here = d
Back-inside inside d (step {a = x} {p} h r) = Back-inside inside (inside x p d h) r

Back-front : {g : ℕ → List ℕ} {a b : ℕ} → Back g a b → (a ≡ b) ⊎ FromAny g (g a) b
Back-front here = inl refl
Back-front {g} {b = b} (step {a} {p} h r) = inr (FromAny-Has g (g a) p b h r)

module _ {F : Type 0} where
  abbrev pub IsMarked : Cells F → ℕ → Type 0
  IsMarked c b = gc_marked (c b) ≡ true

  -- The marked states of `D` are closed under the pointers.
  abbrev pub Closed : (ℕ → Type 0) → (ℕ → List ℕ) → Cells F → Type 0
  Closed D g c = (b p : ℕ) → D b → IsMarked c b → Has p (g b) → IsMarked c p

  -- `c'` is `c` with the states of `P` marked too, and differs in nothing but marks.
  pub record Marks (g : ℕ → List ℕ) (c c' : Cells F) (P : ℕ → Type 0) : Type 0 where
    pub same : (b : ℕ) → set_marked 0 (c' b) ≡ set_marked 0 (c b)
    pub sound : (b : ℕ) → IsMarked c' b → IsMarked c b ⊎ P b
    pub keeps : (b : ℕ) → IsMarked c b → IsMarked c' b
    pub full : (b : ℕ) → P b → IsMarked c' b

  preds-set_marked : (s : State F) → preds (set_marked 0 s) ≡ preds s
  unfolding preds
  preds-set_marked s = refl

  pub preds-Marks :
      {g : ℕ → List ℕ} {c c' : Cells F} {P : ℕ → Type 0}
      → Marks g c c' P
      → (b : ℕ) → preds (c' b) ≡ preds (c b)
  preds-Marks m b = sym (preds-set_marked _) ∙ ap preds (m.same b) ∙ preds-set_marked _

  pub Closed-Marks :
      {D : ℕ → Type 0} {g : ℕ → List ℕ} {c c' : Cells F} {P : ℕ → Type 0}
      → ((b p : ℕ) → P b → Has p (g b) → P p)
      → Closed D g c
      → Marks g c c' P
      → Closed D g c'
  Closed-Marks closed cl m b p d h k = elim (m.sound b h) [
    | inl old ↦ m.keeps p (cl b p d old k)
    | inr new ↦ m.full p (closed b p new k)
  ]

  Marks-visit_marked :
      {D : ℕ → Type 0} {g : ℕ → List ℕ} {c : Cells F} (a : ℕ)
      → ((b p : ℕ) → D b → Has p (g b) → D p)
      → D a
      → Closed D g c
      → IsMarked c a
      → Marks g c (update c a (set_marked ((c a).marked + 1) (c a))) (λ b. Back g a b)
  Marks-visit_marked {D} {g} {c} a inside d cl h = record {
    same = λ b. ground (arith, ==_iff a b);
    sound = λ b m. ground (arith, ==_iff a b);
    keeps = λ b m. ground (arith, ==_iff a b);
    full = λ b r. ground (arith, ==_iff a b, walk d h r);
  }
    where
      walk : {x y : ℕ} → D x → IsMarked c x → Back g x y → IsMarked c y
      walk dx k here = k
      walk dx k (step {a = x} {p} e r) = walk (inside x p dx e) (cl x p dx k e) r

  Marks-visit_new :
      {g : ℕ → List ℕ} {c c' : Cells F} (a : ℕ)
      → Marks g c c' (λ b. FromAny g (g a) b)
      → Marks g c (update c' a (set_marked 1 (c' a))) (λ b. Back g a b)
  Marks-visit_new {g} {c} {c'} a m = record {
    same = λ b. ground (arith, ==_iff a b, m.same b);
    sound = λ b k. elim (Bool-cases (a == b)) [
      | inl e ↦ inr (rw (← (==_iff a b).0 e) here)
      | inr e ↦ elim (m.sound b (rw e at k)) [
        | inl old ↦ inl old
        | inr new ↦ let (p, h, r) = Has-FromAny g (g a) b new in inr (step h r)
      ]
    ];
    keeps = λ b k. ground (arith, m.keeps b k);
    full = λ b r. elim (Back-front r) [
      | inl e ↦ ground (arith, (==_iff a b).1 e)
      | inr h ↦ ground (arith, m.full b h)
    ];
  }

  Marks-refl : {g : ℕ → List ℕ} (c : Cells F) → Marks g c c (λ b. FromAny g [] b)
  Marks-refl c = record {
    same = λ b. refl;
    sound = λ b k. inl k;
    keeps = λ b k. k;
    full = λ b h. elim h [ ];
  }

  Marks-cons :
      {g : ℕ → List ℕ} {c c' c'' : Cells F} (p : ℕ) (ps : List ℕ)
      → Marks g c c' (λ b. Back g p b)
      → Marks g c' c'' (λ b. FromAny g ps b)
      → Marks g c c'' (λ b. FromAny g (p ∷ ps) b)
  Marks-cons p ps m n = record {
    same = λ b. n.same b ∙ m.same b;
    sound = λ b k. elim (n.sound b k) [
      | inr new ↦ inr (inr new)
      | inl old ↦ elim (m.sound b old) [ inl o ↦ inl o | inr r ↦ inr (inl r) ]
    ];
    keeps = λ b k. n.keeps b (m.keeps b k);
    full = λ b h. elim h [ inl r ↦ n.keeps b (m.full b r) | inr r ↦ n.full b r ];
  }

-- Among the states of `D` the pointers fall in `rank`, so that there is no cycle.
abbrev pub Falls : (ℕ → Type 0) → (ℕ → List ℕ) → (ℕ → ℕ) → Type 0
Falls D g rank = (b p : ℕ) → D b → Has p (g b) → rank p < rank b

-- `D` is a set of states that the pointers do not leave.
module _ {F : Type 0} (D : ℕ → Type 0) (g : ℕ → List ℕ)
    (inside : (b p : ℕ) → D b → Has p (g b) → D p) where
  -- A marking step that works at an address.
  abbrev Visits : (Cells F → ℕ → Option (Cells F)) → ℕ → Type 0
  Visits visit p =
      (c : Cells F)
      → ((b : ℕ) → D b → preds (c b) ≡ g b)
      → Closed D g c
      → (c' : Cells F) × (visit c p ≡ some c') × Marks g c c' (λ b. Back g p b)

  pub Marks-mark_all :
      (visit : Cells F → ℕ → Option (Cells F)) (ps : List ℕ)
      → ((p : ℕ) → Has p ps → Visits visit p)
      → (c : Cells F) → ((b : ℕ) → D b → preds (c b) ≡ g b)
      → Closed D g c
      → (c' : Cells F) × (mark_all visit c ps ≡ some c') × Marks g c c' (λ b. FromAny g ps b)
  unfolding mark_all
  Marks-mark_all visit [] v c links cl = (c, refl, Marks-refl c)
  Marks-mark_all visit (p ∷ ps) v c links cl =
      let (c', e, m) = v p (inl refl) c links cl in
      let closed = Closed-Marks (λ b q r h. Back-snoc r h) cl m in
      let (c'', e', m') =
        Marks-mark_all visit ps (λ q h. v q (inr h)) c' (λ b d. preds-Marks m b ∙ links b d)
          closed in
      (c'', rw (e, ◌>>=◌) e', Marks-cons p ps m m')

  pub Marks-gc_mark :
      (rank : ℕ → ℕ) → Falls D g rank → (n a : ℕ) → D a → rank a < n → Visits (gc_mark n) a
  unfolding gc_mark
  Marks-gc_mark rank falls zero a d h c links cl = absurd (omega arith)
  Marks-gc_mark rank falls (suc n) a d h c links cl = elim (Bool-cases (gc_marked (c a))) [
    | inl old ↦ (_, rw old refl, Marks-visit_marked a inside d cl old)
    | inr new ↦
        let below : (p : ℕ) → Has p (g a) → Visits (gc_mark n) p =
          λ p k. Marks-gc_mark rank falls n p (inside a p d k) (omega (arith, falls a p d k)) in
        let (c', e, m) = Marks-mark_all (gc_mark n) (g a) below c links cl in
        (_, rw (new, links a d, e) refl, Marks-visit_new a m)
  ]
