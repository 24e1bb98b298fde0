-- ===== src/Hashmap/Resize.antt =====
-- The invariant of src/hashmap/hashmap.c's table, which createHashmap establishes, and
-- resize_hashmap, which doubles the chains and keeps every node.
use mathlib.Core.List.{flatten}
use mathlib.Core.Option.{or_else}
use native.Mathlib.Nat.{pow-suc}
use chloride.Base.{
  ℕ, zero, suc, ◌+◌, ◌*◌, ◌^◌, ◌≤◌, ◌<◌, ◌≡◌, refl, sym, ap, subst, ◌∙◌, none, some, List, [], ◌∷◌,
  arith, length, take, replicate, length-replicate,
}
use chloride.Base.Run.{Run, Returns}
use chloride.Nodes.Buckets.{view-replicate, replicate-IsPlaced, flatten-replicate, flatten-view}
use chloride.Nodes.Chain.{Node, count}
use chloride.Hashmap.{Hashmap, size_mod, int_mod, create, resize, to_int}
use chloride.Hashmap.Rehash.{IsShaped, held, PlacesDirectly, rehash-Rehashed}

-- `count` may exceed the nodes that there are, after a removal or from createHashmap
pub record IsValid (t : Hashmap) : Type 0 where
  pub shaped : IsShaped t
  pub sparse : length (flatten t.list) * 4 ≤ t.size * 3
  pub counted : length (flatten t.list) ≤ t.count
  pub countable : t.count + 1 < size_mod
  pub numbered : (q : ℕ) (n : Node) → held t q ≡ some n → 0 < n.order
  pub next_order : 0 < t.order

empty-IsShaped :
    (bits count order : ℕ)
    → 8 ≤ 2 ^ bits
    → 2 ^ bits < int_mod
    → IsShaped
        (record { size = 2 ^ bits; count = count; order = order; list = replicate (2 ^ bits) [] })
empty-IsShaped bits count order wide narrow = record {
  bits = bits;
  power = refl;
  wide = wide;
  narrow = narrow;
  width = length-replicate (2 ^ bits) [];
  placed = replicate-IsPlaced (2 ^ bits);
}

-- Whatever the block of createHashmap held where `count` stands, short of the greatest value,
-- the new table is valid and holds nothing.
pub create-IsValid :
    (raw_count : ℕ)
    → raw_count + 1 < size_mod
    → IsValid (create raw_count) × ((q : ℕ) → held (create raw_count) q ≡ none)
unfolding create
create-IsValid raw_count h = (
  record {
    shaped = empty-IsShaped 3 raw_count 1 (omega arith) (omega arith);
    sparse = ground (arith, ap length (flatten-replicate 8));
    counted = ground (arith, ap length (flatten-replicate 8));
    countable = h;
    numbered = λ q n e. ground (arith, view-replicate 8 q);
    next_order = omega arith;
  },
  view-replicate 8,
)

take-length {ℓ} : {A : Type ℓ} (n : ℕ) (xs : List A) → length xs ≡ n → take n xs ≡ xs
take-length zero [] h = refl
take-length zero (x ∷ xs) h = absurd (omega arith)
take-length (suc n) [] h = refl
take-length (suc n) (x ∷ xs) h = ap (λ t. x ∷ t) (take-length n xs (omega arith))

-- what a resize leaves: twice the chains, the same nodes under the same hashes, an exact `count`
pub record Resized (t r : Hashmap) : Type 0 where
  pub shaped : IsShaped r
  pub doubled : r.size ≡ t.size * 2
  pub same_order : r.order ≡ t.order
  pub counted : r.count ≡ length (flatten t.list)
  pub nodes : length (flatten r.list) ≡ length (flatten t.list)
  pub holds : (q : ℕ) → held r q ≡ held t q

pub resize-Resized :
    (insert_node : Hashmap → Node → Run Hashmap)
    → PlacesDirectly insert_node
    → (t : Hashmap) → IsValid t
    → t.size * 2 < int_mod
    → Returns (resize insert_node t) (Resized t)
unfolding resize to_int or_else
resize-Resized insert_node direct t v room =
    let s = v.shaped in
    let twice : t.size * 2 ≡ 2 ^ suc s.bits = omega (arith, s.power, pow-suc 2 s.bits) in
    let fresh : Hashmap = record t {
      size = t.size * 2;
      count = 0;
      list = replicate (t.size * 2) [];
    } in
    let blank : IsShaped fresh =
      subst (λ (n : ℕ). IsShaped (record t { size = n; count = 0; list = replicate n [] }))
        (sym twice) (empty-IsShaped (suc s.bits) 0 t.order (omega (arith, s.wide)) (omega arith)) in
    let all : flatten (take t.size t.list) ≡ flatten t.list =
      ap flatten (take-length t.size t.list s.width) in
    let (r, run, e) =
      rehash-Rehashed insert_node direct (flatten t.list) fresh blank
        (λ q. (flatten-view t.list q s.placed).1) (λ q h. view-replicate (t.size * 2) q)
        (λ q n h. v.numbered q n (sym (flatten-view t.list q s.placed).0 ∙ h))
        (omega (arith, v.sparse)) in
    (
      r,
      ground (arith, s.narrow, s.width, all, run),
      record {
        shaped = e.shaped;
        doubled = e.same_size;
        same_order = e.same_order;
        counted = omega (arith, e.counted);
        nodes =
            e.nodes
            ∙ ap (λ (k : ℕ). k + length (flatten t.list))
                (ap length (flatten-replicate (t.size * 2)))
            ∙ omega arith;
        holds = λ q.
            ground
              (arith, e.holds q, view-replicate (t.size * 2) q, (flatten-view t.list q s.placed).0);
      },
    )
