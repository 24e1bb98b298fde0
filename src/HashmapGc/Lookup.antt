-- ===== src/HashmapGc/Lookup.antt =====
-- hashmap_lookup_GC and hashmap_lookup_node_GC of src/runtime/internals/hashmap/hashmap.c, on tables
-- with and without a block of chains.
use mathlib.Core.Option.{or_else}
use chloride.Base.{ℕ, ◌*◌, ◌≤◌, ◌≡◌, inl, inr, Bool-cases, Option-cases, arith, ◌==◌}
use chloride.Base.Run.{ok}
use chloride.Hashmap.{val_of}
use chloride.HashmapGc.{HashmapGc, find_listed, lookup_node, lookup}
use chloride.HashmapGc.Grown.{IsShaped, listed, IsValid, held, locate_home}
use chloride.Nodes.Buckets.{view}
use chloride.Nodes.Chain.{find, count_pos}

find_listed-listed : (t : HashmapGc) (q : ℕ) → IsValid t → find_listed t q ≡ ok (listed t.list q)
unfolding find_listed view
find_listed-listed t q v = elim (Option-cases t.list) [
  | inl unlisted ↦ rw (unlisted, find_listed)
  | inr (cs, block) ↦
      let (s, sparse) : IsShaped t.size cs × (t.hashmap_count * 4 ≤ t.size * 3) =
        rw block at v.shape in
      let (home, there) = locate_home t q cs s in rw (block, find_listed, home, there)
]

-- In a valid table hashmap_lookup_node_GC never leaves the block, and returns the node that is held
-- for the hash, NULL if there is none.
pub lookup_node-held : (t : HashmapGc) (q : ℕ) → IsValid t → lookup_node t q ≡ ok (held t q)
unfolding lookup_node or_else
lookup_node-held t q v = elim (Option-cases (find q t.inline_values)) [
  | inl none_inline ↦ rw (none_inline, lookup_node) (find_listed-listed t q v)
  | inr (n, inline) ↦ rw (inline, lookup_node)
]

-- In a valid table hashmap_lookup_GC never leaves the block, and returns the value that is held for
-- the hash, NULL if there is none; also where an inline node's value is NULL.
pub lookup_gc-held : (t : HashmapGc) (q : ℕ) → IsValid t → lookup t q ≡ ok (val_of (held t q))
unfolding lookup or_else
lookup_gc-held t q v = elim (Option-cases (find q t.inline_values)) [
  | inl none_inline ↦ rw (none_inline, lookup, find_listed-listed t q v)
  | inr (n, inline) ↦
      let gone = v.apart q (count_pos q t.inline_values n inline) in
      let there = find_listed-listed t q v in
      elim (Bool-cases (n.val == 0)) [
        | inl null ↦ rw (inline, lookup, null, there, gone) (ground arith)
        | inr given ↦ rw (inline, lookup, given)
      ]
]
