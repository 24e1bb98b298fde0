-- ===== src/HashmapGc/Place.antt =====
-- The three places where hashmap_insert_GC of src/runtime/internals/hashmap/hashmap.c puts a node:
-- over an inline node, behind the inline nodes, and into a chain.
use mathlib.Core.List.{flatten}
use mathlib.Core.Option.{or_else}
use chloride.Base.{
  ℕ, ◌+◌, ◌*◌, ◌%◌, ◌≤◌, ◌<◌, ◌≡◌, refl, sym, ap, ◌∙◌, false, inl, inr, Bool-cases, Option-cases,
  none, some, List, [], ◌∷◌, ◌++◌, arith, length, length-append, set, ◌==◌, ==_iff, subst,
  if◌then◌else◌,
}
use chloride.Base.Run.{Returns}
use chloride.Hashmap.{size_mod}
use chloride.Hashmap.Rehash.{stored}
use chloride.HashmapGc.{HashmapGc, inline_array_size, place}
use chloride.HashmapGc.Grown.{IsShaped, IsListed, listed, IsValid, held, locate_home}
use chloride.Nodes.Buckets.{chain_of, IsPlaced, view, set-Holds}
use chloride.Nodes.Chain.{
  Node, Chain, find, count, assign, count-eq-zero, length-assign, count-assign, find-assign,
  find-append, count-append,
}

-- what a placement in a chain leaves
pub record Placed (t : HashmapGc) (cs : List Chain) (n : Node) (r : HashmapGc) : Type 0 where
  pub chains : List Chain
  pub block : r.list ≡ some chains
  pub shaped : IsShaped r.size chains
  pub same_size : r.size ≡ t.size
  pub same_inline : r.inline_values ≡ t.inline_values
  pub same_order : r.order ≡ t.order
  pub counted : r.hashmap_count ≤ t.hashmap_count + 1
  pub reads :
      (q : ℕ)
      → view chains q ≡ (if q == n.hash then some (stored (view cs n.hash) n) else view cs q)

pub with_chains :
    (size : ℕ) (cs ds : List Chain)
    → IsShaped size cs
    → length ds ≡ length cs
    → IsPlaced ds
    → IsShaped size ds
with_chains size cs ds s width placed = record {
  bits = s.bits;
  power = s.power;
  wide = s.wide;
  narrow = s.narrow;
  width = width ∙ s.width;
  placed = placed;
}

pub place-Placed :
    (t : HashmapGc) (cs : List Chain) (n : Node)
    → t.list ≡ some cs
    → IsShaped t.size cs
    → t.hashmap_count + 1 < size_mod
    → Returns (place t n) (Placed t cs n)
unfolding place view count find
place-Placed t cs n block s few =
    let c = chain_of cs n.hash in
    let pos : 0 < length cs = omega (arith, s.width, s.wide) in
    let (home, there) = locate_home t n.hash cs s in
    elim (Option-cases (find n.hash c)) [
      | inr (old, e) ↦
          let w =
            set-Holds cs pos s.placed n.hash (some (record old { val = n.val }))
              (assign n.hash n.val c) (length (flatten cs))
              (omega (arith, length-assign n.hash n.val c))
              (λ q. omega (arith, count-assign n.hash q n.val c))
              (λ q. ground (arith, find-assign n.hash q n.val c)) in
          (
            record t { list = some (set cs (n.hash % length cs) (assign n.hash n.val c)) },
            rw (home, place, block, there, e),
            record {
              chains = set cs (n.hash % length cs) (assign n.hash n.val c);
              block = refl;
              shaped = with_chains t.size cs _ s w.width w.placed;
              same_size = refl;
              same_inline = refl;
              same_order = refl;
              counted = omega arith;
              reads = λ q. ground (arith, w.reads q);
            },
          )
      | inl e ↦
          let none_there = count-eq-zero n.hash c e in
          let w =
            set-Holds cs pos s.placed n.hash (some n) (n ∷ c) (length (flatten cs) + 1)
              (omega arith) (λ q. ground arith) (λ q. ground arith) in
          (
            record t {
              list = some (set cs (n.hash % length cs) (n ∷ c));
              hashmap_count = (t.hashmap_count + 1) % size_mod;
              count = (t.count + 1) % size_mod;
            },
            rw (home, place, block, there, e),
            record {
              chains = set cs (n.hash % length cs) (n ∷ c);
              block = refl;
              shaped = with_chains t.size cs _ s w.width w.placed;
              same_size = refl;
              same_inline = refl;
              same_order = refl;
              counted = omega arith;
              reads = λ q. ground (arith, w.reads q);
            },
          )
    ]

-- what an insertion leaves: under the node's hash the value is the new one, with the key and the
-- order that an old node had, or those of the new one; under all others nothing changes
pub record Inserted (t : HashmapGc) (n : Node) (next : ℕ) (r : HashmapGc) : Type 0 where
  pub valid : IsValid r
  pub next_order : r.order ≡ next
  pub holds :
      (q : ℕ) → held r q ≡ (if q == n.hash then some (stored (held t n.hash) n) else held t q)

pub inline_assigned :
    (t : HashmapGc) (n old : Node)
    → IsValid t
    → find n.hash t.inline_values ≡ some old
    → Inserted t n t.order (record t { inline_values = assign n.hash n.val t.inline_values })
unfolding or_else
inline_assigned t n old v e = record {
  valid = record {
    few = omega (arith, v.few, length-assign n.hash n.val t.inline_values);
    once = λ q. omega (arith, v.once q, count-assign n.hash q n.val t.inline_values);
    shape = v.shape;
    apart = λ q h. v.apart q (omega (arith, count-assign n.hash q n.val t.inline_values));
  };
  next_order = refl;
  holds = λ q. ground (arith, find-assign n.hash q n.val t.inline_values);
}

pub inline_added :
    (t : HashmapGc) (n : Node)
    → IsValid t
    → find n.hash t.inline_values ≡ none
    → t.list ≡ none
    → length t.inline_values < inline_array_size
    → Inserted t n t.order
        (record t { inline_values = t.inline_values ++ n ∷ []; count = (t.count + 1) % size_mod })
unfolding or_else find count
inline_added t n v fresh unlisted room =
    let absent = count-eq-zero n.hash t.inline_values fresh in
    let gone : (q : ℕ) → listed t.list q ≡ none = λ q. ap (λ o. listed o q) unlisted in
    record {
      valid = record {
        few = omega (arith, length-append t.inline_values (n ∷ []));
        once = λ q. ground (arith, count-append q t.inline_values (n ∷ []), v.once q);
        shape = v.shape;
        apart = λ q h. gone q;
      };
      next_order = refl;
      holds =
          λ q. ground (arith, find-append q t.inline_values (n ∷ []), gone q, gone n.hash, fresh);
    }

differs : (q k : ℕ) (c : Chain) → 0 < count q c → count k c ≡ 0 → (q == k) ≡ false
differs q k c some_q no_k = elim (Bool-cases (q == k)) [
  | inl same ↦ absurd (omega (arith, ap (λ (n : ℕ). count n c) ((==_iff q k).0 same)))
  | inr other ↦ other
]

pub listed_chain :
    (t g r : HashmapGc) (cs : List Chain) (n : Node)
    → IsValid t
    → find n.hash t.inline_values ≡ none
    → g.inline_values ≡ t.inline_values
    → g.order ≡ t.order
    → (g.hashmap_count + 1) * 4 ≤ g.size * 3
    → ((q : ℕ) → view cs q ≡ listed t.list q)
    → Placed g cs n r
    → Inserted t n t.order r
unfolding or_else
listed_chain t g r cs n v fresh inline order room reads p =
    let absent = count-eq-zero n.hash t.inline_values fresh in
    let inline' : r.inline_values ≡ t.inline_values = p.same_inline ∙ inline in
    let answers : (q : ℕ) → listed r.list q ≡ view p.chains q = λ q. ap (λ o. listed o q) p.block in
    let elsewhere : (q : ℕ) → 0 < count q t.inline_values → (q == n.hash) ≡ false =
      λ q h. differs q n.hash t.inline_values h absent in
    record {
      valid = record {
        few = rw inline' v.few;
        once = λ q. rw inline' (v.once q);
        shape =
            subst (λ o. IsListed r.size r.hashmap_count o) (sym p.block)
              (p.shaped, omega (arith, p.counted, p.same_size));
        apart = λ q h.
            let here : 0 < count q t.inline_values = rw inline' at h in
            answers q ∙ p.reads q ∙ rw (elsewhere q here) (reads q ∙ v.apart q here);
      };
      next_order = p.same_order ∙ order;
      holds = λ q. rw inline' (ground (arith, answers q, p.reads q, reads q, reads n.hash, fresh));
    }
