-- ===== src/HashmapGc/Clear.antt =====
-- clear_hashmap_GC of src/runtime/internals/hashmap/hashmap.c.
use mathlib.Core.Option.{or_else}
use chloride.Base.{ℕ, ◌≡◌, refl, Option, none, some, List, [], arith, length-replicate}
use chloride.HashmapGc.{HashmapGc, emptied, clear}
use chloride.HashmapGc.Grown.{IsListed, listed, IsValid, held}
use chloride.Nodes.Buckets.{view-replicate, replicate-IsPlaced}
use chloride.Nodes.Chain.{Chain, find, count}

listed-emptied : (size q : ℕ) (o : Option (List Chain)) → listed (emptied size o) q ≡ none
listed-emptied size q none = refl
listed-emptied size q (some cs) = view-replicate size q

emptied-IsListed :
    (size hashmap_count : ℕ) (o : Option (List Chain))
    → IsListed size hashmap_count o
    → IsListed size 0 (emptied size o)
emptied-IsListed size hashmap_count none l = (l.0, refl)
emptied-IsListed size hashmap_count (some cs) (s, sparse) = (
  record {
    bits = s.bits;
    power = s.power;
    wide = s.wide;
    narrow = s.narrow;
    width = length-replicate size [];
    placed = replicate-IsPlaced size;
  },
  omega arith,
)

-- clear_hashmap_GC of a valid table leaves a valid table that holds nothing, numbers from 1 again
-- and keeps its block's size.
pub clear-IsValid :
    (t : HashmapGc)
    → IsValid t
    → IsValid (clear t)
      × ((q : ℕ) → held (clear t) q ≡ none)
      × ((clear t).order ≡ 1)
      × ((clear t).size ≡ t.size)
unfolding clear count find or_else
clear-IsValid t v = (
  record {
    few = omega arith;
    once = λ q. omega arith;
    shape = emptied-IsListed t.size t.hashmap_count t.list v.shape;
    apart = λ q h. listed-emptied t.size q t.list;
  },
  λ q. listed-emptied t.size q t.list,
  refl,
  refl,
)
