-- ===== src/Hashmap/Rehash.antt =====
-- The invariant of src/hashmap/hashmap.c's table, where a hash is found, and the loops of
-- resize_hashmap.
use mathlib.Core.List.{flatten}
use mathlib.Core.Option.{or_else}
use chloride.Base.{
  ℕ, ◌+◌, ◌*◌, ◌%◌, ◌^◌, ◌≤◌, ◌<◌, ◌≡◌, refl, sym, ap, ◌∙◌, Option, none, some, List, [], ◌∷◌,
  arith, length, set, ◌==◌, if◌then◌else◌, inl, inr, Option-cases,
}
use chloride.Base.Run.{Run, ok, ◌>>=◌, Returns}
use chloride.Nodes.Buckets.{masked, masked-pow, bucket-get_or, chain_of, IsPlaced, view, set-Holds}
use chloride.Nodes.Chain.{
  Node, Chain, find, count, assign, count-eq-zero, count_pos, find-eq-none, length-assign,
  count-assign, find-assign,
}
use chloride.Hashmap.{Hashmap, size_mod, int_mod, to_int, hash_code, locate, place, rehash}

-- the shape that every position rests on: a power of two of chains, and each hash in its chain
pub record IsShaped (t : Hashmap) : Type 0 where
  pub bits : ℕ
  pub power : t.size ≡ 2 ^ bits
  pub wide : 8 ≤ t.size
  pub narrow : t.size < int_mod
  pub width : length t.list ≡ t.size
  pub placed : IsPlaced t.list

-- the node that the table holds for a hash
abbrev pub held : Hashmap → ℕ → Option Node
held t q = view t.list q

pub locate_home :
    (t : Hashmap) (q : ℕ) → IsShaped t → locate t q ≡ ok (q % length t.list, chain_of t.list q)
unfolding locate hash_code to_int
locate_home t q s =
    let home : masked t.size q ≡ q % t.size =
      ap (λ (n : ℕ). masked n q) s.power
      ∙ masked-pow s.bits q (omega (arith, s.power))
      ∙ ap (λ (n : ℕ). q % n) (sym s.power) in
    let small : q % t.size < int_mod = omega arith in
    let same : q % t.size ≡ q % length t.list = ap (λ (n : ℕ). q % n) (sym s.width) in
    let reads = bucket-get_or t.list (q % length t.list) (omega arith) in ground arith

-- the node that stands for a hash once `n` has been put in: an old one keeps its key and its order
abbrev pub stored : Option Node → Node → Node
stored none n = n
stored (some old) n = record old { val = n.val }

abbrev pub added : Option Node → ℕ → ℕ
added none count = (count + 1) % size_mod
added (some old) count = count

abbrev pub found : Option Node → ℕ
found none = 0
found (some n) = 1

-- what a placement of `n` leaves
pub record Placed (t : Hashmap) (n : Node) (r : Hashmap) : Type 0 where
  pub shaped : IsShaped r
  pub same_size : r.size ≡ t.size
  pub same_order : r.order ≡ t.order
  pub counted : r.count ≡ added (held t n.hash) t.count
  pub nodes : length (flatten r.list) + found (held t n.hash) ≡ length (flatten t.list) + 1
  pub holds :
      (q : ℕ) → held r q ≡ (if q == n.hash then some (stored (held t n.hash) n) else held t q)

pub reshape :
    (t : Hashmap) (count : ℕ) (cs : List Chain)
    → IsShaped t
    → length cs ≡ length t.list
    → IsPlaced cs
    → IsShaped (record t { count = count; list = cs })
reshape t count cs s width placed = record {
  bits = s.bits;
  power = s.power;
  wide = s.wide;
  narrow = s.narrow;
  width = width ∙ s.width;
  placed = placed;
}

pub place-Placed : (t : Hashmap) (n : Node) → IsShaped t → Returns (place t n) (Placed t n)
unfolding place view count find
place-Placed t n s =
    let c = chain_of t.list n.hash in
    let pos : 0 < length t.list = omega (arith, s.width, s.wide) in
    elim (Option-cases (find n.hash c)) [
      | inr (old, e) ↦
          let w =
            set-Holds t.list pos s.placed n.hash (some (record old { val = n.val }))
              (assign n.hash n.val c) (length (flatten t.list))
              (omega (arith, length-assign n.hash n.val c))
              (λ q. omega (arith, count-assign n.hash q n.val c))
              (λ q. ground (arith, find-assign n.hash q n.val c)) in
          (
            record t { list = set t.list (n.hash % length t.list) (assign n.hash n.val c) },
            rw (locate_home t n.hash s, ◌>>=◌, e),
            record {
              shaped = reshape t t.count _ s w.width w.placed;
              same_size = refl;
              same_order = refl;
              counted = ground arith;
              nodes = ground (arith, w.nodes);
              holds = λ q. ground (arith, w.reads q);
            },
          )
      | inl e ↦
          let none_there = count-eq-zero n.hash c e in
          let w =
            set-Holds t.list pos s.placed n.hash (some n) (n ∷ c) (length (flatten t.list) + 1)
              (omega arith) (λ q. ground arith) (λ q. ground arith) in
          (
            record t {
              list = set t.list (n.hash % length t.list) (n ∷ c);
              count = (t.count + 1) % size_mod;
            },
            rw (locate_home t n.hash s, ◌>>=◌, e),
            record {
              shaped = reshape t ((t.count + 1) % size_mod) _ s w.width w.placed;
              same_size = refl;
              same_order = refl;
              counted = ground arith;
              nodes = ground (arith, w.nodes);
              holds = λ q. ground (arith, w.reads q);
            },
          )
    ]

-- what the loops leave of a table `t` after the nodes `ns`
pub record Rehashed (t : Hashmap) (ns : List Node) (r : Hashmap) : Type 0 where
  pub shaped : IsShaped r
  pub same_size : r.size ≡ t.size
  pub same_order : r.order ≡ t.order
  pub counted : r.count ≡ t.count + length ns
  pub nodes : length (flatten r.list) ≡ length (flatten t.list) + length ns
  pub holds : (q : ℕ) → held r q ≡ or_else (held t q) (find q ns)

-- an insertion that neither numbers the node nor grows the table is a placement
abbrev pub PlacesDirectly : (Hashmap → Node → Run Hashmap) → Type 0
PlacesDirectly insert_node =
    (t : Hashmap) (n : Node)
    → 0 < n.order
    → (t.count + 1) * 4 ≤ t.size * 3
    → t.size < int_mod
    → insert_node t n ≡ place t n

module _ (insert_node : Hashmap → Node → Run Hashmap) (direct : PlacesDirectly insert_node) where
  pub rehash-Rehashed :
      (ns : List Node) (t : Hashmap)
      → IsShaped t
      → ((q : ℕ) → count q ns ≤ 1)
      → ((q : ℕ) → 0 < count q ns → held t q ≡ none)
      → ((q : ℕ) (m : Node) → find q ns ≡ some m → 0 < m.order)
      → (t.count + length ns) * 4 ≤ t.size * 3
      → Returns (rehash insert_node ns t) (Rehashed t ns)
  unfolding rehash or_else find count
  rehash-Rehashed [] t s once apart numbered room = (
    t,
    refl,
    record {
      shaped = s;
      same_size = refl;
      same_order = refl;
      counted = omega arith;
      nodes = omega arith;
      holds = λ q. ground arith;
    },
  )
  rehash-Rehashed (n ∷ ns) t s once apart numbered room =
      let fresh : held t n.hash ≡ none = apart n.hash (ground arith) in
      let (u, put, p) = place-Placed t n s in
      let first : insert_node t n ≡ ok u =
        direct t n (numbered n.hash n (ground arith)) (omega arith) s.narrow ∙ put in
      let counted : u.count ≡ t.count + 1 = ground (arith, p.counted, s.narrow) in
      let (r, run, e) =
        rehash-Rehashed ns u p.shaped (λ q. omega (arith, once q))
          (λ q some_q. ground (arith, p.holds q, apart q, once q))
          (λ q m e. ground (arith, numbered q m, once q, count_pos q ns m))
          (omega (arith, p.same_size)) in
      (
        r,
        rw first run,
        record {
          shaped = e.shaped;
          same_size = e.same_size ∙ p.same_size;
          same_order = e.same_order ∙ p.same_order;
          counted = omega (arith, e.counted);
          nodes = ground (arith, e.nodes, p.nodes, fresh);
          holds =
              λ q. ground (arith, e.holds q, p.holds q, fresh, apart q, once q, find-eq-none q ns);
        },
      )
