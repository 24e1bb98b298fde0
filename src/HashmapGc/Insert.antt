-- ===== src/HashmapGc/Insert.antt =====
-- hashmap_insert_GC of src/runtime/internals/hashmap/hashmap.c: what an insertion does to the table
-- seen as a map from hashes to nodes.
use chloride.Base.{
  ℕ, ◌+◌, ◌*◌, ◌%◌, ◌≤◌, ◌<◌, ◌≡◌, refl, sym, ap, true, ◌&&◌, inl, inr, Bool-cases, Option-cases,
  Option, none, some, List, arith, length, ltb, ◌==◌, if◌then◌else◌,
}
use chloride.Base.Run.{ok, ◌>>=◌, Returns}
use chloride.Hashmap.{size_mod, int_mod}
use chloride.HashmapGc.{
  HashmapGc, inline_array_size, is_none, resize, place, number, insert_numbered, insert,
}
use chloride.HashmapGc.Grown.{IsShaped, listed, IsValid, resize-Resized}
use chloride.Nodes.Buckets.{view}
use chloride.Nodes.Chain.{Node, Chain, find}
use chloride.HashmapGc.Place.{place-Placed, Inserted, inline_assigned, inline_added, listed_chain}

-- the table when the new node goes to a chain: there is a block, with room for one more
record Roomy (t g : HashmapGc) : Type 0 where
  cs : List Chain
  block : g.list ≡ some cs
  shaped : IsShaped g.size cs
  room : (g.hashmap_count + 1) * 4 ≤ g.size * 3
  same_inline : g.inline_values ≡ t.inline_values
  same_order : g.order ≡ t.order
  reads : (q : ℕ) → view cs q ≡ listed t.list q

grow_if_full :
    (t : HashmapGc)
    → IsValid t
    → t.size * 2 < int_mod
    → Returns
        (if ltb (t.size * 3) ((t.hashmap_count + 1) % size_mod * 4) then resize t else ok t)
        (Roomy t)
grow_if_full t v room =
    elim (Bool-cases (ltb (t.size * 3) ((t.hashmap_count + 1) % size_mod * 4))) [
      | inl full ↦
          let (g, run, e) = resize-Resized t v.shape room in
          (
            g,
            rw full run,
            record {
              cs = e.cs;
              block = e.block;
              shaped = e.shaped;
              room = omega (arith, e.room, e.same_hashmap_count);
              same_inline = e.same_inline;
              same_order = e.same_order;
              reads = e.reads;
            },
          )
      | inr spare ↦ elim (Option-cases t.list) [
        | inl unlisted ↦
            let (empty, uncounted) : (t.size ≡ 0) × (t.hashmap_count ≡ 0) =
              rw unlisted at v.shape in
            absurd (ground arith)
        | inr (cs, block) ↦
            let (s, sparse) : IsShaped t.size cs × (t.hashmap_count * 4 ≤ t.size * 3) =
              rw block at v.shape in
            (
              t,
              rw spare,
              record {
                cs = cs;
                block = block;
                shaped = s;
                room = ground (arith, s.narrow);
                same_inline = refl;
                same_order = refl;
                reads = λ q. ap (λ o. listed o q) (sym block);
              },
            )
      ]
    ]

chained :
    (t : HashmapGc) (n : Node)
    → IsValid t
    → t.size * 2 < int_mod
    → find n.hash t.inline_values ≡ none
    → Returns
        ((if ltb (t.size * 3) ((t.hashmap_count + 1) % size_mod * 4) then resize t else ok t)
          >>= λ r. place r n)
        (Inserted t n t.order)
chained t n v room fresh =
    let (g, grow, y) = grow_if_full t v room in
    let (r, put, p) =
      place-Placed g y.cs n y.block y.shaped (omega (arith, y.room, y.shaped.narrow)) in
    (r, rw grow put, listed_chain t g r y.cs n v fresh y.same_inline y.same_order y.room y.reads p)

is_none→none : (o : Option (List Chain)) → is_none o ≡ true → o ≡ none
is_none→none none h = refl
is_none→none (some cs) h = absurd (ground arith)

insert_numbered-Inserted :
    (t : HashmapGc) (n : Node)
    → IsValid t
    → t.size * 2 < int_mod
    → Returns (insert_numbered t n) (Inserted t n t.order)
unfolding insert_numbered
insert_numbered-Inserted t n v room = elim (Option-cases (find n.hash t.inline_values)) [
  | inr (old, e) ↦ (_, rw (e, insert_numbered) refl, inline_assigned t n old v e)
  | inl fresh ↦
      elim (Bool-cases (is_none t.list && ltb (length t.inline_values) inline_array_size)) [
        | inl inline ↦ (
          _,
          rw (fresh, insert_numbered, inline) refl,
          inline_added t n v fresh (is_none→none t.list (ground arith)) (ground arith),
        )
        | inr to_chain ↦ rw (fresh, insert_numbered, to_chain) (chained t n v room fresh)
      ]
]

pub insert_gc-Inserted :
    (t : HashmapGc) (n : Node)
    → IsValid t
    → t.size * 2 < int_mod
    → Returns (insert t n) (Inserted t (number t n).1 (number t n).0.order)
unfolding insert number
insert_gc-Inserted t n v room = elim (Bool-cases (n.order == 0)) [
  | inr given ↦ rw given (insert_numbered-Inserted t n v room)
  | inl unset ↦
      let w : IsValid (record t { order = (t.order + 1) % size_mod }) = record {
        few = v.few;
        once = v.once;
        shape = v.shape;
        apart = v.apart;
      } in
      let (r, run, i) =
        insert_numbered-Inserted (record t { order = (t.order + 1) % size_mod })
          (record n { order = t.order }) w room in
      rw unset (r, run, record { valid = i.valid; next_order = i.next_order; holds = i.holds })
]
