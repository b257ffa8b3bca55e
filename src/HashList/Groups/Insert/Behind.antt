-- ===== src/HashList/Groups/Insert/Behind.antt =====
-- src/include/dcd/hash-list-inl.h, Insert into a bucket that has elements.
use opendcd.Prelude.{
  ℕ, ◌%◌, ◌≡◌, ◌≢◌, refl, sym, ap, subst, ◌∙◌, some, List, Has, NoDup, update, update_same,
  update_other,
}
use opendcd.HashList.{Elem, HashBucket, Memory, HashList, set_tail, insert_last}
use opendcd.HashList.Chain.{set_tail_same, set_tail_other, set_tail_entry}
use opendcd.HashList.Freed.{IsUsed, IsFreed-frame}
use opendcd.HashList.Groups.{Group, indices, elements, IsHash}
use opendcd.HashList.Groups.Frame.{Has-elements, Has-indices}
use opendcd.HashList.Groups.Insert.{
  append_to_group, indices-append_to_group, newest-append_to_group, append_to_group-IsPutIn,
}
use opendcd.HashList.Groups.Insert.Last.{IsLinkedIn, append_to_group-IsLinked}
use opendcd.HashList.Groups.Insert.Prepared.{IsInserted, IsPrepared}

module _ {T : Type 0} where
  -- `e` linked in behind `l`
  after_last : (ℕ → Elem T) → ℕ → ℕ → ℕ → Elem T
  after_last cell l e = set_tail (set_tail cell e (cell l).tail) l (some e)

  after_last-IsLinkedIn :
      (cell : ℕ → Elem T) (l e : ℕ) → e ≢ l → IsLinkedIn cell (after_last cell l e) l e
  unfolding after_last
  after_last-IsLinkedIn cell l e ne =
      let cell1 = set_tail cell e (cell l).tail in
      record {
        same = λ x nl n.
            set_tail_other cell1 l x (some e) nl ∙ set_tail_other cell e x (cell l).tail n;
        keys =
            λ x. (set_tail_entry cell1 l x (some e)).0 ∙ (set_tail_entry cell e x (cell l).tail).0;
        at_last = set_tail_same cell1 l (some e);
        at_new =
            ap (λ (y : Elem T). y.tail) (set_tail_other cell1 l e (some e) ne)
            ∙ set_tail_same cell e (cell l).tail;
      }

  after_last_val : (cell : ℕ → Elem T) (l e x : ℕ) → (after_last cell l e x).val ≡ (cell x).val
  unfolding after_last
  after_last_val cell l e x =
      (set_tail_entry (set_tail cell e (cell l).tail) l x (some e)).1
      ∙ (set_tail_entry cell e x (cell l).tail).1

  module _ (h : HashList T) (gs : List Group) (free : List ℕ) (k : ℕ) (v : T)
      (w : IsHash h gs free) where
    -- Insert into a bucket with elements
    pub inserted_last :
        (m : Memory T) (e l : ℕ)
        → IsPrepared h gs free k v m e
        → (h.bucket (k % h.hash_size)).last_elem ≡ some l
        → Has (k % h.hash_size) (indices gs)
        → IsInserted h gs free k v
            (insert_last (record h { memory = m }) m.cell (k % h.hash_size) l e)
    unfolding insert_last after_last
    inserted_last m e l p at inside =
        let i = k % h.hash_size in
        let (l', at2, key_last, has) =
          Has-indices h.memory.cell h.bucket h.hash_size (IsUsed h.memory free) h.list_head gs i
            w.linked inside in
        let q : l' ≡ l = (let z : some l' ≡ some l = sym at2 ∙ at in cc z) in
        let has_l : Has l (elements gs) = subst (λ y. Has y (elements gs)) q has in
        let ne : e ≢ l = λ s. p.unlisted (subst (λ y. Has y (elements gs)) (sym s) has_l) in
        let key_l : (m.cell l).key % h.hash_size ≡ i =
          ap (λ (y : Elem T). y.key % h.hash_size) (p.same l has_l)
          ∙ ap (λ (y : ℕ). (h.memory.cell y).key % h.hash_size) (sym q)
          ∙ key_last in
        let linked = after_last-IsLinkedIn m.cell l e ne in
        let bucket' = update h.bucket i (record (h.bucket i) { last_elem = some e }) in
        let at' : bucket' i ≡ record (h.bucket i) { last_elem = some e } =
          update_same h.bucket i _ in
        let (rest, ends) =
          append_to_group-IsLinked m.cell (after_last m.cell l e) h.bucket bucket' h.hash_size
            (IsUsed m p.left) i l e linked at (ap (λ (b : HashBucket). b.last_elem) at')
            (ap (λ (b : HashBucket). b.prev_bucket) at') (λ b n. update_other h.bucket i b _ n)
            p.used key_l (ap (λ (y : ℕ). y % h.hash_size) p.key) h.list_head gs p.linked w.distinct
            inside p.unlisted in
        let same_indices = indices-append_to_group i e gs in
        record {
          new = e;
          groups = append_to_group i e gs;
          left = p.left;
          hash = record {
            freed =
                IsFreed-frame m (after_last m.cell l e) p.left
                  (λ x x_free.
                    ap (λ (y : Elem T). y.tail)
                      (linked.same x
                        (λ s.
                          (Has-elements m.cell h.bucket h.hash_size (IsUsed m p.left) h.list_head gs
                              l p.linked has_l).0.1
                            (subst (λ y. Has y p.left) s x_free))
                        (λ s. p.used.1 (subst (λ y. Has y p.left) s x_free))))
                  p.freed;
            linked = rest;
            ends = ends ∙ p.ends;
            tail = w.tail ∙ sym (newest-append_to_group i e gs);
            distinct = subst NoDup (sym same_indices) w.distinct;
            below = λ b n. w.below b (subst (Has b) same_indices n);
            others = λ b n.
                ap (λ (y : HashBucket). y.last_elem)
                  (update_other h.bucket i b _ (λ s. n (
                    subst (Has b) (sym same_indices)
                      (subst (λ y. Has y (indices gs)) (sym s) inside))))
                ∙ w.others b (λ y. n (subst (Has b) (sym same_indices) y));
            sized = w.sized;
          };
          place =
              append_to_group-IsPutIn h.memory.cell h.bucket h.hash_size (IsUsed h.memory free)
                h.list_head i e gs w.linked inside w.distinct;
          unlisted = p.unlisted;
          key = linked.keys e ∙ p.key;
          val = after_last_val m.cell l e e ∙ p.val;
          entries = λ x i'. (
            linked.keys x ∙ ap (λ (y : Elem T). y.key) (p.same x i'),
            after_last_val m.cell l e x ∙ ap (λ (y : Elem T). y.val) (p.same x i'),
          );
          size = refl;
          owned = λ x u n.
              let (u', ne', r) = p.owned x u in
              (
                u',
                ne',
                linked.same x (λ s. n (subst (λ y. Has y (elements gs)) (sym s) has_l)) ne' ∙ r,
              );
        }
