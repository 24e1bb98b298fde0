-- ===== src/Hashmap/Remove.antt =====
-- hashmap_lookup and hashmap_remove of src/hashmap/hashmap.c, on present and absent hashes, and
-- the two after an insertion.
use mathlib.Core.List.{flatten}
use chloride.Base.{
  ℕ, suc, [], ◌-◌, ◌+◌, ◌*◌, ◌%◌, ◌<◌, ◌≡◌, refl, Bool, true, false, Option, none, some, arith,
  length, set, ◌==◌, if◌then◌else◌, inl, inr, Option-cases,
}
use chloride.Base.Run.{ok, ◌>>=◌, Returns}
use chloride.Nodes.Buckets.{view, chain_of, length-flatten-set, set-Holds}
use chloride.Nodes.Chain.{
  Node, to_nat, is_some, find, unlink, length-unlink, count-unlink-le, find-unlink,
}
use chloride.Hashmap.{Hashmap, size_mod, int_mod, number, insert, lookup, remove, val_of}
use chloride.Hashmap.Rehash.{IsShaped, held, locate_home, reshape, stored}
use chloride.Hashmap.Resize.{IsValid}
use chloride.Hashmap.Insert.{insert-Inserted}

-- In a shaped table hashmap_lookup never leaves the block, and returns the value that is held for
-- the hash, NULL if there is none.
pub lookup-held : (t : Hashmap) (q : ℕ) → IsShaped t → lookup t q ≡ ok (val_of (held t q))
unfolding lookup view
lookup-held t q s = rw (locate_home t q s)

-- what a removal leaves; `count` is not lowered
pub record Removed (t : Hashmap) (hash : ℕ) (r : Hashmap × Bool) : Type 0 where
  pub valid : IsValid r.0
  pub answer : r.1 ≡ is_some (held t hash)
  pub same_count : r.0.count ≡ t.count
  pub nodes : length (flatten r.0.list) + to_nat r.1 ≡ length (flatten t.list)
  pub holds : (q : ℕ) → held r.0 q ≡ (if q == hash then none else held t q)

unlinked : (t : Hashmap) (hash : ℕ) → Hashmap
unlinked t hash = record t {
  list = set t.list (hash % length t.list) (unlink hash (chain_of t.list hash));
}

-- From a valid table hashmap_remove ends normally and keeps the table valid; it answers 1 exactly if
-- the hash was there, takes out that node alone, and leaves `count` as it was.
pub remove-Removed : (t : Hashmap) (hash : ℕ) → IsValid t → Returns (remove t hash) (Removed t hash)
unfolding remove unlinked view
remove-Removed t hash v =
    let c = chain_of t.list hash in
    let s = v.shaped in
    let pos : 0 < length t.list = omega (arith, s.width, s.wide) in
    elim (Option-cases (find hash c)) [
      | inl e ↦ (
        (t, false),
        rw (locate_home t hash s, ◌>>=◌, e),
        record {
          valid = v;
          answer = ground arith;
          same_count = refl;
          nodes = omega arith;
          holds = λ q. ground arith;
        },
      )
      | inr (old, e) ↦
          let fewer = length-unlink hash c in
          let within = length-flatten-set t.list (hash % length t.list) [] (omega arith) in
          let one : length (unlink hash c) + 1 ≡ length c = ground (arith, fewer) in
          let w =
            set-Holds t.list pos s.placed hash none (unlink hash c) (length (flatten t.list) - 1)
              (omega arith) (λ q. omega (arith, count-unlink-le hash q c))
              (λ q. find-unlink hash q c (s.placed q _).0) in
          (
            (unlinked t hash, true),
            rw (locate_home t hash s, ◌>>=◌, e),
            record {
              valid = record {
                shaped = reshape t t.count _ s w.width w.placed;
                sparse = omega (arith, w.nodes, v.sparse);
                counted = omega (arith, w.nodes, v.counted);
                countable = v.countable;
                numbered = λ q m h. ground (arith, w.reads q, v.numbered q m);
                next_order = v.next_order;
              };
              answer = ground arith;
              same_count = refl;
              nodes = omega (arith, w.nodes);
              holds = w.reads;
            },
          )
    ]

stored-val : (o : Option Node) (t : Hashmap) (n : Node) → (stored o (number t n).1).val ≡ n.val
unfolding number
stored-val none t n = ground arith
stored-val (some old) t n = ground arith

-- After hashmap_insert of a value under a hash, from a valid table of at most 2 ^ 29 chains whose
-- next order does not wrap, hashmap_lookup of that hash returns the value, and of any other hash
-- what it returned before.
pub lookup-insert :
    (depth : ℕ) (t : Hashmap) (n : Node) (q : ℕ)
    → IsValid t
    → t.size * 2 < int_mod
    → t.order + 1 < size_mod
    → (insert (suc (suc depth)) t n >>= λ r. lookup r q)
      ≡ (if q == n.hash then ok n.val else lookup t q)
lookup-insert depth t n q v room orders =
    let (r, run, i) = insert-Inserted depth t n v room orders in
    rw (run, lookup-held r q i.valid.shaped, lookup-held t q v.shaped, i.holds q)
      (ground (arith, stored-val (held t n.hash) t n))

-- After hashmap_remove of a hash from a valid table, hashmap_lookup of it returns NULL, and of any
-- other hash what it returned before.
pub lookup-remove :
    (t : Hashmap) (hash q : ℕ)
    → IsValid t
    → (remove t hash >>= λ r. lookup r.0 q) ≡ (if q == hash then ok 0 else lookup t q)
lookup-remove t hash q v =
    let (r, run, d) = remove-Removed t hash v in
    rw (run, lookup-held r.0 q d.valid.shaped, lookup-held t q v.shaped, d.holds q) (ground arith)
