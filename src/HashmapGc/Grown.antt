-- ===== src/HashmapGc/Grown.antt =====
-- The invariant of the runtime's hash table, where its chains are found, and
-- resize_hashmap_GC_nolock of src/runtime/internals/hashmap/hashmap.c.
use mathlib.Core.Option.{or_else}
use native.Mathlib.Nat.{pow-suc}
use chloride.Base.{
  ℕ, suc, ◌+◌, ◌*◌, ◌%◌, ◌^◌, ◌≤◌, ◌<◌, ◌≡◌, refl, sym, ap, ◌∙◌, true, false, inl, inr,
  Option-cases, Option, none, some, List, [], ◌∷◌, arith, length, replicate, ltb, ◌==◌, take,
}
use chloride.Base.Run.{ok, Returns}
use chloride.Hashmap.{int_mod, to_int}
use chloride.HashmapGc.{HashmapGc, inline_array_size, create, hash_code, split_all, resize}
use chloride.HashmapGc.Split.{doubled, length-doubled, view-doubled, doubled-IsPlaced}
use chloride.Nodes.Buckets.{
  masked, masked-pow, bucket, bucket-get_or, chain_of, IsPlaced, view, view-replicate,
  replicate-IsPlaced,
}
use chloride.Nodes.Chain.{Node, Chain, find, count}

-- a block of chains, a power of two of them, each hash in its chain
pub record IsShaped (size : ℕ) (cs : List Chain) : Type 0 where
  pub bits : ℕ
  pub power : size ≡ 2 ^ bits
  pub wide : 8 ≤ size
  pub narrow : size < int_mod
  pub width : length cs ≡ size
  pub placed : IsPlaced cs

-- before the first resize there is no block, and nothing is counted in it
abbrev pub IsListed : ℕ → ℕ → Option (List Chain) → Type 0
IsListed size hashmap_count none = (size ≡ 0) × (hashmap_count ≡ 0)
IsListed size hashmap_count (some cs) = IsShaped size cs × (hashmap_count * 4 ≤ size * 3)

abbrev pub listed : Option (List Chain) → ℕ → Option Node
listed none q = none
listed (some cs) q = view cs q

pub record IsValid (t : HashmapGc) : Type 0 where
  pub few : length t.inline_values ≤ inline_array_size
  pub once : (q : ℕ) → count q t.inline_values ≤ 1
  pub shape : IsListed t.size t.hashmap_count t.list
  pub apart : (q : ℕ) → 0 < count q t.inline_values → listed t.list q ≡ none

-- the node that the table holds for a hash
abbrev pub held : HashmapGc → ℕ → Option Node
held t q = or_else (find q t.inline_values) (listed t.list q)

-- A table fresh from createHashmap_GC is valid and holds nothing.
pub create_gc-IsValid : IsValid create × ((q : ℕ) → held create q ≡ none)
unfolding create count find or_else
create_gc-IsValid = (
  record { few = omega arith; once = λ q. omega arith; shape = (refl, refl); apart = λ q h. refl },
  λ q. refl,
)

hash_code-home :
    (t : HashmapGc) (q : ℕ) (cs : List Chain)
    → IsShaped t.size cs
    → hash_code t q ≡ ok (q % length cs)
unfolding hash_code to_int
hash_code-home t q cs s =
    let home : masked t.size q ≡ q % t.size =
      ap (λ (n : ℕ). masked n q) s.power
      ∙ masked-pow s.bits q (omega (arith, s.power))
      ∙ ap (λ (n : ℕ). q % n) (sym s.power) in
    let small : q % t.size < int_mod = omega arith in
    let same : q % t.size ≡ q % length cs = ap (λ (n : ℕ). q % n) (sym s.width) in ground arith

-- the position and the chain of a hash
pub locate_home :
    (t : HashmapGc) (q : ℕ) (cs : List Chain)
    → IsShaped t.size cs
    → (hash_code t q ≡ ok (q % length cs)) × (bucket cs (q % length cs) ≡ ok (chain_of cs q))
locate_home t q cs s =
    (hash_code-home t q cs s, bucket-get_or cs (q % length cs) (omega (arith, s.width, s.wide)))

-- what a resize leaves: a block with room for one more node, which answers as before
pub record Resized (t r : HashmapGc) : Type 0 where
  pub cs : List Chain
  pub block : r.list ≡ some cs
  pub shaped : IsShaped r.size cs
  pub room : (t.hashmap_count + 1) * 4 ≤ r.size * 3
  pub same_inline : r.inline_values ≡ t.inline_values
  pub same_hashmap_count : r.hashmap_count ≡ t.hashmap_count
  pub same_order : r.order ≡ t.order
  pub reads : (q : ℕ) → view cs q ≡ listed t.list q

fresh_shape : IsShaped 8 (replicate 8 [])
fresh_shape = record {
  bits = 3;
  power = refl;
  wide = omega arith;
  narrow = omega arith;
  width = refl;
  placed = replicate-IsPlaced 8;
}

resize_first :
    (t : HashmapGc)
    → t.list ≡ none
    → t.size ≡ 0
    → resize t ≡ ok (record t { size = 8; list = some (replicate 8 []) })
unfolding resize to_int
resize_first t unlisted empty = rw (unlisted, empty)

take_all : (cs : List Chain) → take (length cs) cs ≡ cs
take_all [] = refl
take_all (c ∷ cs) = ap (λ t. c ∷ t) (take_all cs)

resize_again :
    (t : HashmapGc) (cs : List Chain)
    → t.list ≡ some cs
    → IsShaped t.size cs
    → t.size * 2 < int_mod
    → resize t ≡ ok (record t { size = t.size * 2; list = some (doubled cs) })
unfolding resize to_int
resize_again t cs block s room =
    let fits : ltb t.size int_mod ≡ true = ground (arith, s.narrow) in
    let filled : (t.size == 0) ≡ false = ground (arith, s.wide) in
    let fits' : ltb (t.size * 2) int_mod ≡ true = ground arith in
    let whole : ltb (length cs) t.size ≡ false = ground (arith, s.width) in
    let all : take t.size cs ≡ cs = ap (λ (n : ℕ). take n cs) (sym s.width) ∙ take_all cs in
    let bit : split_all t.size cs ≡ split_all (length cs) cs =
      ap (λ (n : ℕ). split_all n cs) (sym s.width) in
    rw (fits, filled, fits', block, whole, all, bit)

doubled-IsShaped :
    (size : ℕ) (cs : List Chain)
    → IsShaped size cs
    → size * 2 < int_mod
    → IsShaped (size * 2) (doubled cs)
doubled-IsShaped size cs s room = record {
  bits = suc s.bits;
  power = omega (arith, s.power, pow-suc 2 s.bits);
  wide = omega (arith, s.wide);
  narrow = room;
  width = length-doubled cs ∙ ap (λ (n : ℕ). n * 2) s.width;
  placed = doubled-IsPlaced s.bits cs (s.width ∙ s.power) s.placed;
}

pub resize-Resized :
    (t : HashmapGc)
    → IsListed t.size t.hashmap_count t.list
    → t.size * 2 < int_mod
    → Returns (resize t) (Resized t)
resize-Resized t l room = elim (Option-cases t.list) [
  | inl unlisted ↦
      let (empty, uncounted) = rw unlisted at l in
      (
        record t { size = 8; list = some (replicate 8 []) },
        resize_first t unlisted empty,
        record {
          cs = replicate 8 [];
          block = refl;
          shaped = fresh_shape;
          room = omega arith;
          same_inline = refl;
          same_hashmap_count = refl;
          same_order = refl;
          reads = λ q. view-replicate 8 q ∙ ap (λ o. listed o q) (sym unlisted);
        },
      )
  | inr (cs, block) ↦
      let (s, sparse) = rw block at l in
      (
        record t { size = t.size * 2; list = some (doubled cs) },
        resize_again t cs block s room,
        record {
          cs = doubled cs;
          block = refl;
          shaped = doubled-IsShaped t.size cs s room;
          room = omega (arith, s.wide);
          same_inline = refl;
          same_hashmap_count = refl;
          same_order = refl;
          reads = λ q.
              view-doubled s.bits cs (s.width ∙ s.power) s.placed q
              ∙ ap (λ o. listed o q) (sym block);
        },
      )
]
