-- ===== src/Tests/Hashmaps.antt =====
-- Runs of src/hashmap/hashmap.c's table.
use mathlib.Core.List.{flatten}
use chloride.Base.{ℕ, List, [], ◌∷◌, ◌≡◌, refl, subst, arith, ◌+◌}
use chloride.Base.Run.{Run, ok, ◌>>=◌, Returns}
use chloride.Nodes.Buckets.{bucket, masked, view}
use chloride.Nodes.Chain.{Node, find, assign, unlink}
use chloride.Hashmap.{
  Hashmap, create, to_int, hash_code, locate, place, rehash, resize, number, insert, remove, lookup,
}
use chloride.Hashmap.Resize.{IsValid, create-IsValid}
use chloride.Hashmap.Insert.{Inserted, insert-Inserted}
use chloride.Hashmap.Remove.{Removed, lookup-held, remove-Removed, lookup-insert, lookup-remove}

program : Unit {0}
unfolding bucket masked find assign unlink create to_int hash_code locate place rehash resize number
    insert remove lookup flatten
program = tt

abbrev node : ℕ → ℕ → Node
node hash val = record { hash = hash; key = 0; val = val; order = 0 }

abbrev fill : ℕ → List ℕ → Run Hashmap → Run Hashmap
fill depth [] t = t
fill depth (h ∷ hs) t = fill depth hs (t >>= λ u. insert depth u (node h (h + 100)))

-- the seventh insertion doubles the table; every value stays
seven_inserted :
    (fill 2 (1 ∷ 9 ∷ 17 ∷ 2 ∷ 3 ∷ 4 ∷ 5 ∷ []) (ok (create 0)) >>= λ t. lookup t 9) ≡ ok 109
unfolding program
seven_inserted = refl

abbrev empty : Hashmap
empty = record { size = 8; count = 0; order = 1; list = [] ∷ [] ∷ [] ∷ [] ∷ [] ∷ [] ∷ [] ∷ [] ∷ [] }

empty-IsValid : IsValid empty
unfolding create
empty-IsValid = (create-IsValid 0 (omega arith)).0

-- a table with the value 5 under the hash 9
abbrev one_value : Hashmap
one_value = record empty {
  count = 1;
  order = 2;
  list =
      []
      ∷ (record { hash = 9; key = 0; val = 5; order = 1 } ∷ [])
      ∷ []
      ∷ []
      ∷ []
      ∷ []
      ∷ []
      ∷ []
      ∷ [];
}

one_value_inserted : insert 2 empty (node 9 5) ≡ ok one_value
unfolding program
one_value_inserted = refl

one_value-IsValid : IsValid one_value
one_value-IsValid =
    let (r, run, i) =
      insert-Inserted 0 empty (node 9 5) empty-IsValid (omega arith) (omega arith) in
    subst IsValid (cc one_value_inserted) i.valid

insert-Inserted_example : Returns (insert 2 one_value (node 17 6)) (Inserted one_value (node 17 6))
insert-Inserted_example =
    insert-Inserted 0 one_value (node 17 6) one_value-IsValid (omega arith) (omega arith)

lookup-held_example : lookup one_value 9 ≡ ok 5
unfolding program view
lookup-held_example = lookup-held one_value 9 one_value-IsValid.shaped

remove-Removed_example : Returns (remove one_value 9) (Removed one_value 9)
remove-Removed_example = remove-Removed one_value 9 one_value-IsValid

lookup-insert_example : (insert 2 one_value (node 17 6) >>= λ r. lookup r 17) ≡ ok 6
lookup-insert_example =
    lookup-insert 0 one_value (node 17 6) 17 one_value-IsValid (omega arith) (omega arith)

lookup-remove_example : (remove one_value 9 >>= λ r. lookup r.0 9) ≡ ok 0
lookup-remove_example = lookup-remove one_value 9 9 one_value-IsValid
