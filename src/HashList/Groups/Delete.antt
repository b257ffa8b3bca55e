-- ===== src/HashList/Groups/Delete.antt =====
-- src/include/dcd/hash-list-inl.h, Delete of an element that is not in the hash.
use opendcd.Prelude.{ℕ, ◌≡◌, ◌≢◌, refl, subst, ◌∙◌, inl, inr, List, ◌∷◌, Has}
use opendcd.HashList.{HashList, Memory, delete}
use opendcd.HashList.Freed.{IsUsed, delete-IsFreed}
use opendcd.HashList.Groups.{Group, elements, IsHash}
use opendcd.HashList.Groups.Frame.{end-frame, IsLinked-frame}

module _ {T : Type 0} where
  pub delete-IsUsed :
      (m : Memory T) (free : List ℕ) (e x : ℕ)
      → x ≢ e
      → IsUsed m free x
      → IsUsed (delete e m) (e ∷ free) x
  unfolding delete
  delete-IsUsed m free e x n u = (u.0, λ h. elim h [ inl q ↦ n q | inr k ↦ u.1 k ])

  -- Delete of an element in use outside the hash keeps the invariant, and every other element.
  pub delete-IsHash :
      (h : HashList T) (gs : List Group) (free : List ℕ) (e : ℕ)
      → IsHash h gs free
      → IsUsed h.memory free e
      → ¬ Has e (elements gs)
      → IsHash (record h { memory = delete e h.memory }) gs (e ∷ free)
        × ((x : ℕ) → x ≢ e → (delete e h.memory).cell x ≡ h.memory.cell x)
  delete-IsHash h gs free e w u out =
      let (freed, other) = delete-IsFreed h.memory free e w.freed u in
      let m = delete e h.memory in
      let apart : (x : ℕ) → Has x (elements gs) → x ≢ e =
        λ x k q. out (subst (λ y. Has y (elements gs)) q k) in
      let same : (x : ℕ) → Has x (elements gs) → m.cell x ≡ h.memory.cell x =
        λ x k. other x (apart x k) in
      (
        record {
          freed = freed;
          linked =
              IsLinked-frame h.memory.cell m.cell h.hash_size (IsUsed h.memory free)
                (IsUsed m (e ∷ free)) h.bucket h.bucket h.list_head gs same
                (λ x k. delete-IsUsed h.memory free e x (apart x k)) (λ b _. refl) w.linked;
          ends =
              end-frame h.memory.cell m.cell h.hash_size (IsUsed m (e ∷ free)) (IsUsed m (e ∷ free))
                h.list_head gs same
              ∙ w.ends;
          tail = w.tail;
          distinct = w.distinct;
          below = w.below;
          others = w.others;
          sized = w.sized;
        },
        other,
      )
