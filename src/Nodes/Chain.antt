-- ===== src/Nodes/Chain.antt =====
-- One chain of nodes, `next` pointers as a list: the walks of hashmap_insert, hashmap_lookup and
-- hashmap_remove (src/hashmap/hashmap.c) and of their copies in src/runtime/internals/hashmap/hashmap.c.
use mathlib.Core.Option.{or_else}
use chloride.Base.{
  ℕ, ◌+◌, ◌≤◌, ◌≡◌, refl, Bool, true, false, Option, none, some, List, [], ◌∷◌, ◌++◌, arith, ◌==◌,
  if◌then◌else◌, length, ◌<◌,
}

pub record Node : Type 0 where
  pub hash : ℕ
  pub key : ℕ
  pub val : ℕ
  pub order : ℕ

abbrev pub Chain : Type 0
Chain = List Node

-- `while (n) { if (n->hash == hash) … n = n->next; }`: the first node with the hash
unfoldable pub find : ℕ → Chain → Option Node
find q [] = none
find q (n ∷ c) = if n.hash == q then some n else find q c

-- `temp->val = val` at the first node with the hash
unfoldable pub assign : ℕ → ℕ → Chain → Chain
assign q v [] = []
assign q v (n ∷ c) = if n.hash == q then record n { val = v } ∷ c else n ∷ assign q v c

-- the first node with the hash taken out of the list
unfoldable pub unlink : ℕ → Chain → Chain
unlink q [] = []
unlink q (n ∷ c) = if n.hash == q then c else n ∷ unlink q c

abbrev pub to_nat : Bool → ℕ
to_nat true = 1
to_nat false = 0

abbrev pub with_val : ℕ → Option Node → Option Node
with_val v none = none
with_val v (some n) = some (record n { val = v })

abbrev pub is_some : Option Node → Bool
is_some none = false
is_some (some n) = true

-- how many nodes of a chain have the hash
unfoldable pub count : ℕ → Chain → ℕ
count q [] = 0
count q (n ∷ c) = to_nat (n.hash == q) + count q c

pub find-eq-none : (q : ℕ) (c : Chain) → count q c ≡ 0 → find q c ≡ none
unfolding count find
find-eq-none q [] h = refl
find-eq-none q (n ∷ c) h = ground (arith, find-eq-none q c)

pub count-eq-zero : (q : ℕ) (c : Chain) → find q c ≡ none → count q c ≡ 0
unfolding count find
count-eq-zero q [] h = refl
count-eq-zero q (n ∷ c) h = ground (arith, count-eq-zero q c)

pub count_pos : (q : ℕ) (c : Chain) (n : Node) → find q c ≡ some n → 0 < count q c
unfolding count find
count_pos q [] n h = absurd (ground arith)
count_pos q (m ∷ c) n h = ground (arith, count_pos q c n)

pub find-hash : (q : ℕ) (c : Chain) (n : Node) → find q c ≡ some n → n.hash ≡ q
unfolding find
find-hash q [] n h = ground arith
find-hash q (m ∷ c) n h = ground (arith, find-hash q c n)

pub find-append : (q : ℕ) (a b : Chain) → find q (a ++ b) ≡ or_else (find q a) (find q b)
unfolding find or_else
find-append q [] b = refl
find-append q (n ∷ a) b = ground (arith, find-append q a b)

pub count-append : (q : ℕ) (a b : Chain) → count q (a ++ b) ≡ count q a + count q b
unfolding count
count-append q [] b = omega arith
count-append q (n ∷ a) b = omega (arith, count-append q a b)

module _ (k q : ℕ) where
  pub find-assign :
      (v : ℕ) (c : Chain)
      → find q (assign k v c) ≡ (if q == k then with_val v (find q c) else find q c)
  unfolding find assign
  find-assign v [] = ground arith
  find-assign v (n ∷ c) = ground (arith, find-assign v c)

  pub count-assign : (v : ℕ) (c : Chain) → count q (assign k v c) ≡ count q c
  unfolding count assign
  count-assign v [] = refl
  count-assign v (n ∷ c) = ground (arith, count-assign v c)

  pub find-unlink :
      (c : Chain) → count q c ≤ 1 → find q (unlink k c) ≡ (if q == k then none else find q c)
  unfolding find unlink count
  find-unlink [] h = ground arith
  find-unlink (n ∷ c) h = ground (arith, find-unlink c, find-eq-none q c)

  pub count-unlink-le : (c : Chain) → count q (unlink k c) ≤ count q c
  unfolding count unlink
  count-unlink-le [] = omega arith
  count-unlink-le (n ∷ c) = ground (arith, count-unlink-le c)

pub length-assign : (k v : ℕ) (c : Chain) → length (assign k v c) ≡ length c
unfolding assign
length-assign k v [] = refl
length-assign k v (n ∷ c) = ground (arith, length-assign k v c)

pub length-unlink :
    (k : ℕ) (c : Chain) → length (unlink k c) + to_nat (is_some (find k c)) ≡ length c
unfolding unlink find
length-unlink k [] = refl
length-unlink k (n ∷ c) = ground (arith, length-unlink k c)
