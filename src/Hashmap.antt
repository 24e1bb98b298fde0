-- ===== src/Hashmap.antt =====
-- The compiler's hash table, src/hashmap/hashmap.c. `size_t` sums keep their wrap-around; an `int`
-- that cannot hold its value is a fault. `(t->count + 1) > t->size * 0.75` is a comparison of
-- doubles, exact below 2 ^ 53, and written here without the fraction.
-- hashmap_insert and resize_hashmap call each other: `insert` takes the depth of that nesting, and
-- Hashmap/Insert shows that a depth of 2 is never exceeded. Freed nodes do not appear.
pub mod Rehash
pub mod Resize
pub mod Insert
pub mod Remove
use mathlib.Core.List.{flatten}
use chloride.Base.{
  ℕ, zero, suc, ◌+◌, ◌*◌, ◌%◌, ◌^◌, Bool, true, false, Option, none, some, List, [], ◌∷◌, ltb, leb,
  ◌==◌, if◌then◌else◌, length, take, replicate, set,
}
use chloride.Base.Run.{Run, ok, fault, ◌>>=◌}
use chloride.Nodes.Buckets.{bucket, masked}
use chloride.Nodes.Chain
use chloride.Nodes.Chain.{Node, Chain}

abbrev pub size_mod : ℕ
size_mod = 2 ^ 64

abbrev pub int_mod : ℕ
int_mod = 2 ^ 31

-- struct hashmap
pub record Hashmap : Type 0 where
  pub size : ℕ
  pub count : ℕ
  pub order : ℕ
  pub list : List Chain

-- createHashmap; `count` is not set, so it is whatever the fresh block held
unfoldable pub create : ℕ → Hashmap
create raw_count = record { size = 8; count = raw_count; order = 1; list = replicate 8 [] }

-- the conversion of a `size_t` to the `int` that `old_size`, `new_size` and `pos` are
unfoldable pub to_int : ℕ → Run ℕ
to_int n = if ltb n int_mod then ok n else fault

-- hashCode
unfoldable pub hash_code : Hashmap → ℕ → Run ℕ
hash_code t hash = to_int (masked t.size hash)

-- the chain that a hash belongs to, with its position
unfoldable pub locate : Hashmap → ℕ → Run (ℕ × Chain)
locate t hash = do pos ← hash_code t hash; c ← bucket t.list pos; ok (pos, c)

-- hashmap_insert from `int pos` on
unfoldable pub place : Hashmap → Node → Run Hashmap
place t n = do
  (pos, c) ← locate t n.hash
  ok (elim (Chain.find n.hash c) [
    | some old ↦ record t { list = set t.list pos (Chain.assign n.hash n.val c) }
    | none ↦ record t { list = set t.list pos (n ∷ c); count = (t.count + 1) % size_mod }
  ])

-- the inner and outer loop of resize_hashmap: each old node is inserted into the new list
unfoldable pub rehash : (Hashmap → Node → Run Hashmap) → List Node → Hashmap → Run Hashmap
rehash insert_node [] t = ok t
rehash insert_node (n ∷ ns) t = insert_node t n >>= rehash insert_node ns

-- resize_hashmap, over the hashmap_insert that it calls
unfoldable pub resize : (Hashmap → Node → Run Hashmap) → Hashmap → Run Hashmap
resize insert_node t = do
  old_size ← to_int t.size
  new_size ← to_int (old_size * 2)
  if ltb (length t.list) old_size
      then fault
      else rehash insert_node (flatten (take old_size t.list))
          (record t { size = new_size; count = 0; list = replicate new_size [] })

-- `if (!order) order = t->order++`
unfoldable pub number : Hashmap → Node → Hashmap × Node
number t n =
    if n.order == 0
    then (record t { order = (t.order + 1) % size_mod }, record n { order = t.order })
    else (t, n)

-- hashmap_insert, to a nesting depth; a deeper one is a fault
unfoldable pub insert : ℕ → Hashmap → Node → Run Hashmap
insert zero t n = fault
insert (suc depth) t n =
    let (u, m) = number t n in
    (if ltb (u.size * 3) ((u.count + 1) % size_mod * 4) then resize (insert depth) u else ok u)
    >>= λ r. place r m

-- hashmap_remove: the C function's 1 and 0 are `true` and `false`
unfoldable pub remove : Hashmap → ℕ → Run (Hashmap × Bool)
remove t hash = do
  (pos, c) ← locate t hash
  ok (elim (Chain.find hash c) [
    | some old ↦ (record t { list = set t.list pos (Chain.unlink hash c) }, true)
    | none ↦ (t, false)
  ])

abbrev pub val_of : Option Node → ℕ
val_of none = 0
val_of (some n) = n.val

-- hashmap_lookup, 0 for NULL
unfoldable pub lookup : Hashmap → ℕ → Run ℕ
lookup t hash = do (pos, c) ← locate t hash; ok (val_of (Chain.find hash c))
