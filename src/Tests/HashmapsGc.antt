-- ===== src/Tests/HashmapsGc.antt =====
-- Runs of the runtime's hash table, src/runtime/internals/hashmap/hashmap.c.
use mathlib.Core.Option.{or_else}
use chloride.Base.{ℕ, none, some, List, [], ◌∷◌, ◌≡◌, refl, subst, arith, ◌+◌}
use chloride.Base.Run.{Run, ok, ◌>>=◌, Returns}
use chloride.Hashmap.{to_int}
use chloride.HashmapGc.{
  HashmapGc, create, hash_code, split, split_all, resize, place, number, insert_numbered, insert,
  find_listed, lookup_node, lookup, remove, clear,
}
use chloride.HashmapGc.Clear.{clear-IsValid}
use chloride.HashmapGc.Grown.{IsValid, held}
use chloride.HashmapGc.Insert.{insert_gc-Inserted}
use chloride.HashmapGc.Lookup.{lookup_gc-held}
use chloride.HashmapGc.Remove.{Removed, remove_gc-Removed, lookup_gc-insert, lookup_gc-remove}
use chloride.Nodes.Buckets.{bucket, masked, view}
use chloride.Nodes.Chain.{Node, find, assign, unlink, count}

program : Unit {0}
unfolding bucket masked find assign unlink create to_int hash_code split split_all resize place
    number insert_numbered insert find_listed lookup_node lookup remove clear view or_else
program = tt

abbrev node : ℕ → ℕ → Node
node hash val = record { hash = hash; key = 0; val = val; order = 0 }

abbrev fill : List ℕ → Run HashmapGc → Run HashmapGc
fill [] t = t
fill (h ∷ hs) t = fill hs (t >>= λ u. insert u (node h (h + 100)))

-- three nodes inline, seven in chains, the last of which double the block
ten_inserted :
    (fill (1 ∷ 2 ∷ 3 ∷ 4 ∷ 12 ∷ 20 ∷ 5 ∷ 6 ∷ 7 ∷ 8 ∷ []) (ok create) >>= λ t. lookup t 12) ≡ ok 112
unfolding program
ten_inserted = refl

abbrev listed_node : ℕ → ℕ → ℕ → Node
listed_node hash val order = record { hash = hash; key = 0; val = val; order = order }

-- a table whose inline nodes are all in use
abbrev three : HashmapGc
three = record {
  size = 0;
  order = 4;
  list = none;
  hashmap_count = 0;
  count = 3;
  inline_values = listed_node 9 5 1 ∷ listed_node 17 6 2 ∷ listed_node 25 0 3 ∷ [];
}

three-IsValid : IsValid three
unfolding count
three-IsValid = record {
  few = omega arith;
  once = λ q. ground arith;
  shape = (refl, refl);
  apart = λ q h. refl;
}

-- and one with a block
abbrev four : HashmapGc
four = record {
  size = 8;
  order = 5;
  list = some ([] ∷ (listed_node 33 7 4 ∷ []) ∷ [] ∷ [] ∷ [] ∷ [] ∷ [] ∷ [] ∷ []);
  hashmap_count = 1;
  count = 4;
  inline_values = listed_node 9 5 1 ∷ listed_node 17 6 2 ∷ listed_node 25 0 3 ∷ [];
}

four_inserted : insert three (node 33 7) ≡ ok four
unfolding program
four_inserted = refl

four-IsValid : IsValid four
four-IsValid =
    let (r, run, i) = insert_gc-Inserted three (node 33 7) three-IsValid (omega arith) in
    subst IsValid (cc four_inserted) i.valid

lookup_gc-held_example : lookup four 25 ≡ ok 0
unfolding program
lookup_gc-held_example = lookup_gc-held four 25 four-IsValid

remove_gc-Removed_example : Returns (remove four 33) (Removed four 33)
remove_gc-Removed_example = remove_gc-Removed four 33 four-IsValid

lookup_gc-insert_example : (insert three (node 33 7) >>= λ r. lookup r 33) ≡ ok 7
lookup_gc-insert_example = lookup_gc-insert three (node 33 7) 33 three-IsValid (omega arith)

lookup_gc-remove_example : (remove four 33 >>= λ r. lookup r.0 33) ≡ ok 0
lookup_gc-remove_example = lookup_gc-remove four 33 33 four-IsValid

clear-IsValid_example :
    IsValid (clear four)
    × ((q : ℕ) → held (clear four) q ≡ none)
    × ((clear four).order ≡ 1)
    × ((clear four).size ≡ 8)
clear-IsValid_example = clear-IsValid four four-IsValid
