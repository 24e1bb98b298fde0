-- ===== src/Hashmap/Insert.antt =====
-- hashmap_insert of src/hashmap/hashmap.c: the nesting depth that it needs, the invariant that it
-- keeps, and what it does to the table seen as a map from hashes to nodes.
use mathlib.Core.List.{flatten}
use chloride.Base.{
  ℕ, suc, ◌+◌, ◌*◌, ◌%◌, ◌≤◌, ◌<◌, ◌≡◌, refl, sym, ap, ◌∙◌, ◌⊎◌, inl, inr, Bool-cases, Option, none,
  some, arith, length, ◌==◌, ltb, if◌then◌else◌,
}
use chloride.Base.Run.{ok, Returns}
use chloride.Nodes.Buckets.{view}
use chloride.Nodes.Chain.{Node}
use chloride.Hashmap.{Hashmap, size_mod, int_mod, resize, number, insert}
use chloride.Hashmap.Rehash.{
  IsShaped, held, stored, added, found, Placed, place-Placed, PlacesDirectly,
}
use chloride.Hashmap.Resize.{IsValid, resize-Resized}

direct_insert : (depth : ℕ) → PlacesDirectly (insert (suc depth))
unfolding insert number
direct_insert depth t n numbered room narrow = ground arith

-- what an insertion leaves: under the node's hash the value is the new one, with the key and the
-- order that an old node had, or those of the numbered new one; under all others nothing changes
pub record Inserted (t : Hashmap) (n : Node) (r : Hashmap) : Type 0 where
  pub valid : IsValid r
  pub grown : (r.size ≡ t.size) ⊎ (r.size ≡ t.size * 2)
  pub next_order : r.order ≡ (number t n).0.order
  pub holds :
      (q : ℕ)
      → held r q ≡ (if q == n.hash then some (stored (held t n.hash) (number t n).1) else held t q)

-- the table when the new node is put into its chain, grown or not
record Roomy (u r : Hashmap) : Type 0 where
  shaped : IsShaped r
  sized : (r.size ≡ u.size) ⊎ (r.size ≡ u.size * 2)
  same_order : r.order ≡ u.order
  counted : length (flatten r.list) ≤ r.count
  room : (r.count + 1) * 4 ≤ r.size * 3
  holds : (q : ℕ) → held r q ≡ held u q

grow_if_full :
    (depth : ℕ) (u : Hashmap)
    → IsValid u
    → u.size * 2 < int_mod
    → Returns
        (if ltb (u.size * 3) ((u.count + 1) % size_mod * 4)
          then resize (insert (suc depth)) u
          else ok u)
        (Roomy u)
grow_if_full depth u v room = elim (Bool-cases (ltb (u.size * 3) ((u.count + 1) % size_mod * 4))) [
  | inl full ↦
      let (r, run, e) = resize-Resized (insert (suc depth)) (direct_insert depth) u v room in
      (
        r,
        rw full run,
        record {
          shaped = e.shaped;
          sized = inr e.doubled;
          same_order = e.same_order;
          counted = omega (arith, e.counted, e.nodes);
          room = omega (arith, e.counted, e.doubled, v.sparse, v.shaped.wide);
          holds = e.holds;
        },
      )
  | inr spare ↦ (
    u,
    rw spare,
    record {
      shaped = v.shaped;
      sized = inl refl;
      same_order = refl;
      counted = v.counted;
      room = ground (arith, v.countable);
      holds = λ q. refl;
    },
  )
]

added_bounds : (o : Option Node) (c : ℕ) → c + 1 < size_mod → (added o c + found o ≡ c + 1)
added_bounds none c h = omega arith
added_bounds (some old) c h = omega arith

stored-order :
    (o : Option Node) (n : Node)
    → ((m : Node) → o ≡ some m → 0 < m.order)
    → 0 < n.order
    → 0 < (stored o n).order
stored-order none n h p = p
stored-order (some old) n h p = h old refl

place-IsValid :
    (u g r : Hashmap) (m : Node)
    → IsValid u
    → u.size * 2 < int_mod
    → 0 < m.order
    → Roomy u g
    → Placed g m r
    → IsValid r
place-IsValid u g r m w room positive y p =
    let few : g.count + 1 < size_mod = omega (arith, y.room, y.sized) in
    let bound = added_bounds (held g m.hash) g.count few in
    let kept =
      stored-order (held g m.hash) m (λ k e. w.numbered m.hash k (sym (y.holds m.hash) ∙ e))
        positive in
    record {
      shaped = p.shaped;
      sparse = omega (arith, p.nodes, p.same_size, y.counted, y.room);
      counted = omega (arith, p.nodes, p.counted, y.counted, bound);
      countable = omega (arith, p.counted, bound, y.room, y.sized);
      numbered = λ q k e. ground (arith, p.holds q, y.holds q, w.numbered q k, kept);
      next_order = omega (arith, p.same_order, y.same_order, w.next_order);
    }

number-IsValid :
    (t : Hashmap) (n : Node)
    → IsValid t
    → t.order + 1 < size_mod
    → IsValid (number t n).0 × (0 < (number t n).1.order)
unfolding number
number-IsValid t n v h = elim (Bool-cases (n.order == 0)) [
  | inl unset ↦ rw unset (
    record {
      shaped = record {
        bits = v.shaped.bits;
        power = v.shaped.power;
        wide = v.shaped.wide;
        narrow = v.shaped.narrow;
        width = v.shaped.width;
        placed = v.shaped.placed;
      };
      sparse = v.sparse;
      counted = v.counted;
      countable = v.countable;
      numbered = v.numbered;
      next_order = omega (arith, v.next_order);
    },
    v.next_order,
  )
  | inr given ↦ rw given (v, ground arith)
]

number_keeps :
    (t : Hashmap) (n : Node)
    → ((number t n).0.size ≡ t.size)
      × ((number t n).0.list ≡ t.list)
      × ((number t n).1.hash ≡ n.hash)
unfolding number
number_keeps t n = ground arith

inserted_holds :
    (t : Hashmap) (n : Node) (g r : Hashmap)
    → Roomy (number t n).0 g
    → Placed g (number t n).1 r
    → (q : ℕ)
    → held r q ≡ (if q == n.hash then some (stored (held t n.hash) (number t n).1) else held t q)
inserted_holds t n g r y p q =
    let (size, list, hash) = number_keeps t n in
    let same : (k : ℕ) → held g k ≡ held t k = λ k. y.holds k ∙ ap (λ cs. view cs k) list in
    ground (arith, p.holds q, same q, same n.hash, hash)

-- From a valid table of at most 2 ^ 29 chains whose next order does not wrap, hashmap_insert ends
-- normally within two nested calls, keeps the table valid, and changes what is held for the node's
-- hash alone: a new hash gets the node, a known one keeps its key and order and gets the value.
pub insert-Inserted :
    (depth : ℕ) (t : Hashmap) (n : Node)
    → IsValid t
    → t.size * 2 < int_mod
    → t.order + 1 < size_mod
    → Returns (insert (suc (suc depth)) t n) (Inserted t n)
unfolding insert
insert-Inserted depth t n v room orders =
    let (size, list, hash) = number_keeps t n in
    let (w, positive) = number-IsValid t n v orders in
    let (g, grow, y) = grow_if_full depth (number t n).0 w (rw size room) in
    let (r, put, p) = place-Placed g (number t n).1 y.shaped in
    (
      r,
      rw grow put,
      record {
        valid = place-IsValid (number t n).0 g r (number t n).1 w (rw size room) positive y p;
        grown = omega (arith, p.same_size, y.sized, size);
        next_order = p.same_order ∙ y.same_order;
        holds = λ q. inserted_holds t n g r y p q;
      },
    )
