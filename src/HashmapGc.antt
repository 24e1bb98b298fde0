-- ===== src/HashmapGc.antt =====
-- The runtime's hash table, src/runtime/internals/hashmap/hashmap.c and hashmap.h, which holds the
-- fields of objects and the entries of dictionaries. Its first three nodes lie in the table itself;
-- with the fourth a block of chains is allocated, and it stays.
-- `inline_values` is the list of its first `inline_count` nodes, and `list` is `none` for NULL.
-- Every operation holds the table's lock throughout, so one call is one step. `size_t` sums keep
-- their wrap-around; an `int` that cannot hold its value is a fault. `(t->hashmap_count + 1) >
-- t->size * 0.75` is a comparison of doubles, exact below 2 ^ 53, and written without the fraction.
pub mod Split
pub mod Grown
pub mod Place
pub mod Insert
pub mod Lookup
pub mod Remove
pub mod Clear
use chloride.Base.{
  ℕ, zero, suc, ◌+◌, ◌*◌, ◌%◌, ◌^◌, bit_and, Bool, true, false, ◌&&◌, Option, none, some, List, [],
  ◌∷◌, ◌++◌, ltb, ◌==◌, if◌then◌else◌, length, take, replicate, set,
}
use chloride.Base.Run.{Run, ok, fault, ◌>>=◌}
use chloride.Hashmap.{size_mod, to_int, val_of}
use chloride.Nodes.Buckets.{bucket, masked}
use chloride.Nodes.Chain
use chloride.Nodes.Chain.{Node, Chain}

abbrev pub inline_array_size : ℕ
inline_array_size = 3

-- struct hashmap_GC, without its lock
pub record HashmapGc : Type 0 where
  pub size : ℕ
  pub order : ℕ
  pub list : Option (List Chain)
  pub hashmap_count : ℕ
  pub count : ℕ
  pub inline_values : List Node

-- createHashmap_GC
unfoldable pub create : HashmapGc
create = record {
  size = 0;
  order = 1;
  list = none;
  hashmap_count = 0;
  count = 0;
  inline_values = [];
}

-- hashCode_GC_nolock
unfoldable pub hash_code : HashmapGc → ℕ → Run ℕ
hash_code t hash = if t.size == 0 then ok 0 else to_int (masked t.size hash)

-- the inner loop of resize_hashmap_GC_nolock: one chain split by a bit of the hashes, in its order
unfoldable pub split : ℕ → Chain → Chain × Chain
split old_size [] = ([], [])
split old_size (n ∷ c) =
    let (lo, hi) = split old_size c in
    if bit_and n.hash old_size == 0 then (n ∷ lo, hi) else (lo, n ∷ hi)

-- the outer loop: what goes to `t->list[i]` and to `t->list[i + old_size]`, for each i
unfoldable pub split_all : ℕ → List Chain → List Chain × List Chain
split_all old_size [] = ([], [])
split_all old_size (c ∷ cs) =
    let (lo, hi) = split old_size c in
    let (los, his) = split_all old_size cs in (lo ∷ los, hi ∷ his)

-- resize_hashmap_GC_nolock
unfoldable pub resize : HashmapGc → Run HashmapGc
resize t = do
  old_size ← to_int t.size
  new_size ← (if old_size == 0 then ok 8 else to_int (old_size * 2))
  elim t.list [
    | none ↦ ok (record t { size = new_size; list = some (replicate new_size []) })
    | some old_list ↦
        if ltb (length old_list) old_size
        then fault
        else let (los, his) = split_all old_size (take old_size old_list) in
          ok (record t { size = new_size; list = some (los ++ his) })
  ]

-- hashmap_insert_GC_nolock from `int pos` on
unfoldable pub place : HashmapGc → Node → Run HashmapGc
place t n = do
  pos ← hash_code t n.hash
  elim t.list [
    | none ↦ fault
    | some cs ↦ bucket cs pos >>= λ c. ok (elim (Chain.find n.hash c) [
      | some old ↦ record t { list = some (set cs pos (Chain.assign n.hash n.val c)) }
      | none ↦ record t {
        list = some (set cs pos (n ∷ c));
        hashmap_count = (t.hashmap_count + 1) % size_mod;
        count = (t.count + 1) % size_mod;
      }
    ])
  ]

-- `if (!order) order = t->order++`
unfoldable pub number : HashmapGc → Node → HashmapGc × Node
number t n =
    if n.order == 0
    then (record t { order = (t.order + 1) % size_mod }, record n { order = t.order })
    else (t, n)

abbrev pub is_none : Option (List Chain) → Bool
is_none none = true
is_none (some cs) = false

-- hashmap_insert_GC_nolock behind the numbering
unfoldable pub insert_numbered : HashmapGc → Node → Run HashmapGc
insert_numbered t n = elim (Chain.find n.hash t.inline_values) [
  | some old ↦ ok (record t { inline_values = Chain.assign n.hash n.val t.inline_values })
  | none ↦
      if is_none t.list && ltb (length t.inline_values) inline_array_size
      then ok
          (record t { inline_values = t.inline_values ++ n ∷ []; count = (t.count + 1) % size_mod })
      else (if ltb (t.size * 3) ((t.hashmap_count + 1) % size_mod * 4) then resize t else ok t)
        >>= λ r. place r n
]

-- hashmap_insert_GC, and hashmap_insert_GC_nolock
unfoldable pub insert : HashmapGc → Node → Run HashmapGc
insert t n = let (u, m) = number t n in insert_numbered u m

-- the chains' part of a lookup
unfoldable pub find_listed : HashmapGc → ℕ → Run (Option Node)
find_listed t hash = elim t.list [
  | none ↦ ok none
  | some cs ↦ hash_code t hash >>= λ pos. bucket cs pos >>= λ c. ok (Chain.find hash c)
]

-- hashmap_lookup_node_GC
unfoldable pub lookup_node : HashmapGc → ℕ → Run (Option Node)
lookup_node t hash = elim (Chain.find hash t.inline_values) [
  | some n ↦ ok (some n)
  | none ↦ find_listed t hash
]

-- hashmap_lookup_GC, 0 for NULL; it goes on to the chains if the inline value is NULL
unfoldable pub lookup : HashmapGc → ℕ → Run ℕ
lookup t hash =
    let result = val_of (Chain.find hash t.inline_values) in
    if result == 0 then (find_listed t hash >>= λ found. ok (val_of found)) else ok result

-- hashmap_remove_GC: the C function's 1 and 0 are `true` and `false`
unfoldable pub remove : HashmapGc → ℕ → Run (HashmapGc × Bool)
remove t hash = elim (Chain.find hash t.inline_values) [
  | some n ↦ ok (record t { inline_values = Chain.unlink hash t.inline_values }, true)
  | none ↦ elim t.list [
    | none ↦ ok (t, false)
    | some cs ↦ hash_code t hash >>= λ pos. bucket cs pos >>= λ c. ok (elim (Chain.find hash c) [
      | some n ↦ (record t { list = some (set cs pos (Chain.unlink hash c)) }, true)
      | none ↦ (t, false)
    ])
  ]
]

abbrev pub emptied : ℕ → Option (List Chain) → Option (List Chain)
emptied size none = none
emptied size (some cs) = some (replicate size [])

-- clear_hashmap_GC; `size` stays, and so does the block
unfoldable pub clear : HashmapGc → HashmapGc
clear t = record t {
  order = 1;
  count = 0;
  hashmap_count = 0;
  inline_values = [];
  list = emptied t.size t.list;
}
