-- ===== src/HashmapGc/Remove.antt =====
-- hashmap_remove_GC of src/runtime/internals/hashmap/hashmap.c, on tables with and without a block of
-- chains, and lookups after an insertion and after a removal.
use mathlib.Core.List.{flatten}
use mathlib.Core.Option.{or_else}
use chloride.Base.{
  ℕ, ◌+◌, ◌-◌, ◌*◌, ◌%◌, ◌≤◌, ◌<◌, ◌≡◌, refl, sym, ap, Bool, true, false, inl, inr, Option-cases,
  Option, none, some, List, [], arith, length, set, ◌==◌, if◌then◌else◌,
}
use chloride.Base.Run.{ok, ◌>>=◌, Returns}
use chloride.Hashmap.{int_mod}
use chloride.Hashmap.Rehash.{stored}
use chloride.HashmapGc.{HashmapGc, lookup, remove, insert, number}
use chloride.HashmapGc.Grown.{IsShaped, listed, IsValid, held, locate_home}
use chloride.HashmapGc.Lookup.{lookup_gc-held}
use chloride.HashmapGc.Insert.{insert_gc-Inserted}
use chloride.HashmapGc.Place.{with_chains}
use chloride.Nodes.Buckets.{chain_of, view, set-Holds, length-flatten-set}
use chloride.Nodes.Chain.{
  Node, Chain, is_some, find, count_pos, unlink, length-unlink, count-unlink-le, find-unlink,
}

-- what a removal leaves; neither count is lowered
pub record Removed (t : HashmapGc) (hash : ℕ) (r : HashmapGc × Bool) : Type 0 where
  pub valid : IsValid r.0
  pub answer : r.1 ≡ is_some (held t hash)
  pub same_count : r.0.count ≡ t.count
  pub same_size : r.0.size ≡ t.size
  pub holds : (q : ℕ) → held r.0 q ≡ (if q == hash then none else held t q)

inline_unlinked :
    (t : HashmapGc) (hash : ℕ) (n : Node)
    → IsValid t
    → find hash t.inline_values ≡ some n
    → Removed t hash (record t { inline_values = unlink hash t.inline_values }, true)
unfolding or_else
inline_unlinked t hash n v e =
    let gone = v.apart hash (count_pos hash t.inline_values n e) in
    record {
      valid = record {
        few = omega (arith, v.few, length-unlink hash t.inline_values);
        once = λ q. omega (arith, v.once q, count-unlink-le hash q t.inline_values);
        shape = v.shape;
        apart = λ q h. v.apart q (omega (arith, count-unlink-le hash q t.inline_values));
      };
      answer = ground arith;
      same_count = refl;
      same_size = refl;
      holds = λ q. ground (arith, find-unlink hash q t.inline_values, v.once q, gone);
    }

chain_unlinked :
    (t : HashmapGc) (hash : ℕ) (cs ds : List Chain) (n : Node)
    → IsValid t
    → find hash t.inline_values ≡ none
    → t.list ≡ some cs
    → IsShaped t.size ds
    → t.hashmap_count * 4 ≤ t.size * 3
    → view cs hash ≡ some n
    → ((q : ℕ) → view ds q ≡ (if q == hash then none else view cs q))
    → Removed t hash (record t { list = some ds }, true)
unfolding or_else
chain_unlinked t hash cs ds n v e block s sparse there reads =
    let answers : (q : ℕ) → listed t.list q ≡ view cs q = λ q. ap (λ o. listed o q) block in
    record {
      valid = record {
        few = v.few;
        once = v.once;
        shape = (s, sparse);
        apart = λ q h. ground (arith, reads q, answers q, v.apart q);
      };
      answer = ground (arith, answers hash);
      same_count = refl;
      same_size = refl;
      holds = λ q. ground (arith, answers q, reads q);
    }

absent_kept :
    (t : HashmapGc) (hash : ℕ) → IsValid t → held t hash ≡ none → Removed t hash (t, false)
absent_kept t hash v absent = record {
  valid = v;
  answer = ap is_some (sym absent);
  same_count = refl;
  same_size = refl;
  holds = λ q. ground arith;
}

remove_listed :
    (t : HashmapGc) (hash : ℕ) (cs : List Chain)
    → IsValid t
    → find hash t.inline_values ≡ none
    → t.list ≡ some cs
    → IsShaped t.size cs
    → t.hashmap_count * 4 ≤ t.size * 3
    → Returns (remove t hash) (Removed t hash)
unfolding remove view or_else
remove_listed t hash cs v e block s sparse =
    let c = chain_of cs hash in
    let pos : 0 < length cs = omega (arith, s.width, s.wide) in
    let (home, there) = locate_home t hash cs s in
    elim (Option-cases (find hash c)) [
      | inl absent ↦ ((t, false), ground arith, absent_kept t hash v (rw (e, block) absent))
      | inr (n, found) ↦
          let within = length-flatten-set cs (hash % length cs) [] (omega arith) in
          let one : length (unlink hash c) + 1 ≡ length c = ground (arith, length-unlink hash c) in
          let w =
            set-Holds cs pos s.placed hash none (unlink hash c) (length (flatten cs) - 1)
              (omega arith) (λ q. omega (arith, count-unlink-le hash q c))
              (λ q. find-unlink hash q c (s.placed q _).0) in
          (
            (record t { list = some (set cs (hash % length cs) (unlink hash c)) }, true),
            rw (e, remove, block, home, there, found),
            chain_unlinked t hash cs (set cs (hash % length cs) (unlink hash c)) n v e block
                (with_chains t.size cs _ s w.width w.placed) sparse found w.reads,
          )
    ]

-- From a valid table hashmap_remove_GC ends normally and keeps the table valid; it answers 1 exactly
-- if the hash was there, takes out that node alone, and leaves `count` as it was.
pub remove_gc-Removed :
    (t : HashmapGc) (hash : ℕ) → IsValid t → Returns (remove t hash) (Removed t hash)
unfolding remove or_else
remove_gc-Removed t hash v = elim (Option-cases (find hash t.inline_values)) [
  | inr (n, inline) ↦ (
    (record t { inline_values = unlink hash t.inline_values }, true),
    rw (inline, remove),
    inline_unlinked t hash n v inline,
  )
  | inl e ↦ elim (Option-cases t.list) [
    | inl unlisted ↦ ((t, false), ground arith, absent_kept t hash v (rw (e, unlisted) refl))
    | inr (cs, block) ↦
        let (s, sparse) : IsShaped t.size cs × (t.hashmap_count * 4 ≤ t.size * 3) =
          rw block at v.shape in
        remove_listed t hash cs v e block s sparse
  ]
]

stored-val : (o : Option Node) (t : HashmapGc) (n : Node) → (stored o (number t n).1).val ≡ n.val
unfolding number
stored-val none t n = ground arith
stored-val (some old) t n = ground arith

number-hash : (t : HashmapGc) (n : Node) → (number t n).1.hash ≡ n.hash
unfolding number
number-hash t n = ground arith

-- After hashmap_insert_GC of a value under a hash, from a valid table of at most 2 ^ 29 chains,
-- hashmap_lookup_GC of that hash returns the value, and of any other hash what it returned before.
pub lookup_gc-insert :
    (t : HashmapGc) (n : Node) (q : ℕ)
    → IsValid t
    → t.size * 2 < int_mod
    → (insert t n >>= λ r. lookup r q) ≡ (if q == n.hash then ok n.val else lookup t q)
lookup_gc-insert t n q v room =
    let (r, run, i) = insert_gc-Inserted t n v room in
    rw (run, lookup_gc-held r q i.valid, lookup_gc-held t q v, i.holds q, number-hash t n)
      (ground (arith, stored-val (held t n.hash) t n))

-- After hashmap_remove_GC of a hash from a valid table, hashmap_lookup_GC of it returns NULL, and of
-- any other hash what it returned before.
pub lookup_gc-remove :
    (t : HashmapGc) (hash q : ℕ)
    → IsValid t
    → (remove t hash >>= λ r. lookup r.0 q) ≡ (if q == hash then ok 0 else lookup t q)
lookup_gc-remove t hash q v =
    let (r, run, d) = remove_gc-Removed t hash v in
    rw (run, lookup_gc-held r.0 q d.valid, lookup_gc-held t q v, d.holds q) (ground arith)
