-- ===== src/Examples/Hashing.antt =====
-- src/include/dcd/hash-list-inl.h at a hash of size 4, in whose memory nothing is allocated, with the keys
-- 5 and 9 in one bucket.
use opendcd.Prelude.{
  zero, suc, ◌∷◌, ℕ, ◌<◌, ◌≡◌, refl, Option, none, some, List, [], Has, ◌==◌, if◌then◌else◌, arith,
}
use opendcd.Prelude.Partial.{◌>>=◌}
use opendcd.HashList.{
  HashList, Memory, empty_hash, set_size, insert, find, clear_hash, bucket_of, bucket_head,
  new_elem, allocate, take_freed, link_block, insert_first, insert_last,
}
use opendcd.HashList.More.{insert_more}
use opendcd.HashList.Chain.{IsChain}
use opendcd.HashList.Freed.{IsUsed}
use opendcd.HashList.Groups.{Group, elements, IsHash}
use opendcd.HashList.Groups.Clear.{empty_hash-IsHash, set_size-IsHash, clear-IsHash}
use opendcd.HashList.Groups.Find.{first_key}
use opendcd.HashList.Groups.Find.Exact.{find-first, find-insert}
use opendcd.HashList.Groups.Insert.Prepared.{IsInserted}
use opendcd.HashList.Groups.Insert.Exact.{insert-IsInserted}

abbrev memory : Memory ℕ
memory = record {
  cell = λ a. record { key = 0; val = 0; tail = none };
  freed_head = none;
  allocated = [];
  fresh = 0;
}

abbrev sized :
    (h : HashList ℕ) × (set_size 4 (empty_hash memory) ≡ some h)
    × IsHash h [] []
    × (h.hash_size ≡ 4)
    × (h.memory ≡ (empty_hash memory).memory)
sized = set_size-IsHash 4 (empty_hash memory) [] (empty_hash-IsHash memory)

positive : 0 < sized.0.hash_size
positive = omega (arith, sized.3)

-- The hash after Insert(5, 7)
abbrev inserted :
    (h' : HashList ℕ) × (insert 5 7 sized.0 ≡ some h') × IsInserted sized.0 [] [] 5 7 h'
inserted = insert-IsInserted sized.0 [] [] 5 7 sized.2 positive

abbrev one : HashList ℕ
one = inserted.0

abbrev groups : List Group
groups = inserted.2.groups

abbrev free : List ℕ
free = inserted.2.left

one-IsHash : IsHash one groups free
one-IsHash = inserted.2.hash

positive_one : 0 < one.hash_size
positive_one = omega (arith, inserted.2.size, sized.3)

insert-IsInserted_example :
    (h' : HashList ℕ) × (insert 9 8 one ≡ some h') × IsInserted one groups free 9 8 h'
insert-IsInserted_example = insert-IsInserted one groups free 9 8 one-IsHash positive_one

find-first_example : find 5 one ≡ some (first_key one.memory.cell 5 (elements groups))
find-first_example = find-first one groups free 5 one-IsHash positive_one

find-insert_example :
    (h' : HashList ℕ) × (e : ℕ) × (insert 9 8 one ≡ some h')
    × ((h'.memory.cell e).key ≡ 9)
    × ((h'.memory.cell e).val ≡ 8)
    × ((k : ℕ)
        → find k h' ≡ (
            find k one >>= λ found.
            some (elim found [ some a ↦ some a | none ↦ if k == 9 then some e else none ])))
find-insert_example = find-insert one groups free 9 8 one-IsHash positive_one

clear-IsHash_example :
    (h' : HashList ℕ) × (clear_hash one ≡ some (one.list_head, h'))
    × IsHash h' [] free
    × (h'.memory ≡ one.memory)
    × (h'.hash_size ≡ one.hash_size)
    × IsChain one.memory.cell one.list_head (elements groups) none
    × ((x : ℕ) → Has x (elements groups) → IsUsed one.memory free x)
clear-IsHash_example = clear-IsHash one groups free one-IsHash

-- The value that Find leads to
abbrev value : HashList ℕ → Option (Option ℕ) → Option ℕ
value h none = none
value h (some none) = none
value h (some (some e)) = some (h.memory.cell e).val

two : Option (HashList ℕ)
unfolding insert set_size empty_hash
two = set_size 4 (empty_hash memory) >>= λ h. insert 5 7 h >>= λ h'. insert 9 8 h'

two-find : (two >>= λ h. find 9 h) ≡ some (some 1)
unfolding two find link_block new_elem allocate take_freed insert_first insert_last
two-find = refl

-- InsertMore of a key whose bucket ends with another: the new element comes right behind the first 5.
three : Option (HashList ℕ)
unfolding two insert_more
three = two >>= λ h. insert_more 5 3 h

-- The values from the element on at which Find arrives, at most `n`
abbrev values : ℕ → HashList ℕ → Option ℕ → List ℕ
values zero h e = []
values (suc n) h none = []
values (suc n) h (some e) = (h.memory.cell e).val ∷ values n h (h.memory.cell e).tail

three-values : (three >>= λ h. some (values 5 h h.list_head)) ≡ some (7 ∷ 3 ∷ 8 ∷ [])
unfolding three link_block new_elem allocate take_freed insert_first insert_last bucket_of
    bucket_head
three-values = refl
