-- ===== src/HashList/Groups/Insert/Alone.antt =====
-- src/include/dcd/hash-list-inl.h, Insert into an empty bucket.
use opendcd.Prelude.{
  ℕ, ◌%◌, ◌<◌, ◌≡◌, ◌≢◌, refl, sym, ap, subst, ◌∙◌, inl, inr, Option, none, some, List, [], ◌∷◌,
  Has, update, update_same, update_other,
}
use opendcd.HashList.{
  Elem, HashBucket, Memory, HashList, set_tail, insert_first, link_last, same_pointer,
}
use opendcd.HashList.Chain.{set_tail_same, set_tail_other, set_tail_entry}
use opendcd.HashList.Freed.{IsUsed, IsFreed-frame}
use opendcd.HashList.Groups.{Group, indices, elements, members, newest, end, IsLinked, IsHash}
use opendcd.HashList.Groups.Frame.{Has-elements, Has-last, Has-newer}
use opendcd.HashList.Groups.Insert.{IsPutIn-end}
use opendcd.HashList.Groups.Insert.First.{alone, first-IsLinked, next-IsLinked}
use opendcd.HashList.Groups.Insert.Prepared.{IsInserted, IsPrepared, bucket_at-some}

module _ {T : Type 0} (h : HashList T) (m : Memory T) (i e : ℕ) where
  -- The hash with `head` and the elements `cell`, and a bucket with `e` alone
  after_first : Option ℕ → (ℕ → Elem T) → HashList T
  after_first head cell = record h {
    list_head = head;
    bucket_list_tail = some i;
    bucket = update h.bucket i (record { prev_bucket = h.bucket_list_tail; last_elem = some e });
    memory = record m { cell = set_tail cell e none };
  }

  insert_first-after :
      (head : Option ℕ) (cell : ℕ → Elem T)
      → link_last (record h { memory = m }) m.cell e ≡ some (head, cell)
      → insert_first (record h { memory = m }) m.cell i e ≡ some (after_first head cell)
  unfolding insert_first after_first
  insert_first-after head cell q = rw q refl

module _ {T : Type 0} (h : HashList T) (gs : List Group) (free : List ℕ) (k : ℕ) (v : T)
    (w : IsHash h gs free) (m : Memory T) (e : ℕ) (p : IsPrepared h gs free k v m e)
    (out : ¬ Has (k % h.hash_size) (indices gs)) where
  -- From what the elements and the buckets have become
  inserted_alone :
      (head : Option ℕ) (cell : ℕ → Elem T)
      → ((x : ℕ) → ((cell x).key ≡ (m.cell x).key) × ((cell x).val ≡ (m.cell x).val))
      → ((x : ℕ) → Has x p.left → (cell x).tail ≡ (m.cell x).tail)
      → ((x : ℕ) → ¬ Has x (elements gs) → x ≢ e → cell x ≡ m.cell x)
      → IsLinked
          (set_tail cell e none)
          (after_first h m (k % h.hash_size) e head cell).bucket
          h.hash_size
          (IsUsed m p.left)
          head
          (alone (k % h.hash_size) e ∷ gs)
      → IsInserted h gs free k v (after_first h m (k % h.hash_size) e head cell)
  unfolding after_first end indices newest elements members
  inserted_alone head cell entry kept others linked =
      let i = k % h.hash_size in
      record {
        new = e;
        groups = alone i e ∷ gs;
        left = p.left;
        hash = record {
          freed =
              IsFreed-frame m (set_tail cell e none) p.left
                (λ x x_free.
                  ap (λ (y : Elem T). y.tail)
                    (set_tail_other cell e x none
                      (λ s. p.used.1 (subst (λ y. Has y p.left) s x_free)))
                  ∙ kept x x_free)
                p.freed;
          linked = linked;
          ends = set_tail_same cell e none;
          tail = refl;
          distinct = (out, w.distinct);
          below = λ b n. elim n [
            | inl s ↦ subst (λ y. y < h.num_buckets) (sym s) p.within
            | inr n' ↦ w.below b n'
          ];
          others = λ b n.
              ap (λ (y : HashBucket). y.last_elem) (update_other h.bucket i b _ (λ s. n (inl s)))
              ∙ w.others b (λ y. n (inr y));
          sized = w.sized;
        };
        place = IsPutIn-end (λ x. (h.memory.cell x).key % h.hash_size ≡ i) e (elements gs);
        unlisted = p.unlisted;
        key = (set_tail_entry cell e e none).0 ∙ (entry e).0 ∙ p.key;
        val = (set_tail_entry cell e e none).1 ∙ (entry e).1 ∙ p.val;
        entries = λ x i'. (
          (set_tail_entry cell e x none).0 ∙ (entry x).0 ∙ ap (λ (y : Elem T). y.key) (p.same x i'),
          (set_tail_entry cell e x none).1 ∙ (entry x).1 ∙ ap (λ (y : Elem T). y.val) (p.same x i'),
        );
        size = refl;
        owned = λ x u n.
            let (u', ne, r) = p.owned x u in
            (u', ne, set_tail_other cell e x none ne ∙ others x n ne ∙ r);
      }

-- Insert into an empty bucket
pub inserted_first :
    {T : Type 0} (h : HashList T) (gs : List Group) (free : List ℕ) (k : ℕ) (v : T)
    → IsHash h gs free
    → (m : Memory T) (e : ℕ) → IsPrepared h gs free k v m e
    → ¬ Has (k % h.hash_size) (indices gs)
    → (h' : HashList T) × (insert_first (record h { memory = m }) m.cell (k % h.hash_size) e
        ≡ some h')
      × IsInserted h gs free k v h'
unfolding link_last same_pointer newest indices
inserted_first {T} h [] free k v w m e p out =
    let i = k % h.hash_size in
    let bucket' = (after_first h m i e (some e) m.cell).bucket in
    (
      after_first h m i e (some e) m.cell,
      insert_first-after h m i e (some e) m.cell (unfold newest end in rw (w.tail, w.ends) refl),
      inserted_alone h [] free k v w m e p out (some e) m.cell (λ x. (refl, refl)) (λ x _. refl)
          (λ x _ _. refl)
          (let at : bucket' i ≡ record { prev_bucket = h.bucket_list_tail; last_elem = some e } =
              unfold after_first in update_same h.bucket i _ in
            first-IsLinked m.cell (set_tail m.cell e none) h.bucket bucket' h.hash_size
              (IsUsed m p.left) i e (ap (λ (b : HashBucket). b.last_elem) at)
              (λ b n. unfold after_first in update_other h.bucket i b _ n) p.used
              (λ x. (set_tail_entry m.cell e x none).0) (ap (λ (y : ℕ). y % h.hash_size) p.key)
              h.list_head (ap (λ (b : HashBucket). b.prev_bucket) at ∙ w.tail)),
    )
inserted_first {T} h (g ∷ gs) free k v w m e p out =
    let i = k % h.hash_size in
    let cell = set_tail m.cell g.last (some e) in
    let bucket' = (after_first h m i e h.list_head cell).bucket in
    let (u_last, _) =
      Has-elements m.cell h.bucket h.hash_size (IsUsed m p.left) h.list_head (g ∷ gs) g.last
        p.linked (Has-newer g gs g.last (Has-last g)) in
    let ne : g.last ≢ e = λ s.
      p.unlisted (subst (λ y. Has y (elements (g ∷ gs))) s (Has-newer g gs g.last (Has-last g))) in
    (
      after_first h m i e h.list_head cell,
      insert_first-after h m i e h.list_head cell (
          rw
            (
              w.tail,
              bucket_at-some (record h { memory = m }) g.index (w.below g.index (inl refl)),
              p.linked.1,
            )
            refl),
      inserted_alone h (g ∷ gs) free k v w m e p out h.list_head cell
          (λ x. set_tail_entry m.cell g.last x (some e))
          (λ x x_free.
            ap (λ (y : Elem T). y.tail)
              (set_tail_other m.cell g.last x (some e)
                (λ s. u_last.1 (subst (λ y. Has y p.left) s x_free))))
          (λ x n _. set_tail_other m.cell g.last x (some e) (λ s.
            n (
              subst (λ y. Has y (elements (g ∷ gs))) (sym s) (Has-newer g gs g.last (Has-last g)))))
          (let at : bucket' i ≡ record { prev_bucket = h.bucket_list_tail; last_elem = some e } =
              unfold after_first in update_same h.bucket i _ in
            next-IsLinked m.cell (set_tail cell e none) h.bucket bucket' h.hash_size
              (IsUsed m p.left) i e (ap (λ (b : HashBucket). b.last_elem) at)
              (λ b n. unfold after_first in update_other h.bucket i b _ n) p.used
              (λ x. (set_tail_entry cell e x none).0 ∙ (set_tail_entry m.cell g.last x (some e)).0)
              (ap (λ (y : ℕ). y % h.hash_size) p.key) h.list_head g gs p.linked w.distinct out
              p.unlisted (ap (λ (b : HashBucket). b.prev_bucket) at ∙ w.tail)
              (λ x nl n.
                set_tail_other cell e x none n ∙ set_tail_other m.cell g.last x (some e) nl)
              (ap (λ (y : Elem T). y.tail) (set_tail_other cell e g.last none ne)
                ∙ set_tail_same m.cell g.last (some e))),
    )
