-- ===== src/Nodes/Buckets.antt =====
-- An array of chains: `t->list` of both hash tables. A hash's chain stands at `hash & (size - 1)`,
-- its remainder when the size is a power of two.
use mathlib.Core.List.{flatten}
use mathlib.Core.Option.{or_else}
use native.Mathlib.Nat.{one-le-pow}
use chloride.Base.{
  some, ◌∙◌, ap, ℕ, zero, suc, ◌+◌, ◌-◌, ◌%◌, ◌^◌, ◌≤◌, ◌<◌, bit_and, max, ◌≡◌, refl, sym, subst,
  ◌≢◌, Option, none, List, [], ◌∷◌, arith, length, get_or, set, replicate, length-append,
  length-set, get_or-set, get_or-replicate, ◌==◌, if◌then◌else◌,
}
use chloride.Base.Bits.{bit_and_mask}
use chloride.Base.Run.{Run, ok, fault}
use chloride.Nodes.Chain.{Node, Chain, to_nat, find, count, find-eq-none, find-append, count-append}

-- `t->list[pos]`; a position outside the block is a fault
unfoldable pub bucket : List Chain → ℕ → Run Chain
bucket [] i = fault
bucket (c ∷ cs) zero = ok c
bucket (c ∷ cs) (suc i) = bucket cs i

pub bucket-get_or : (bs : List Chain) (i : ℕ) → i < length bs → bucket bs i ≡ ok (get_or bs i [])
unfolding bucket
bucket-get_or [] i h = absurd (omega arith)
bucket-get_or (c ∷ cs) zero h = refl
bucket-get_or (c ∷ cs) (suc i) h = bucket-get_or cs i (omega arith)

-- `hash & (size - 1)`, in `size_t`
unfoldable pub masked : ℕ → ℕ → ℕ
masked size hash = bit_and hash ((size + 2 ^ 64 - 1) % 2 ^ 64)

pub masked-pow : (k hash : ℕ) → 2 ^ k < 2 ^ 64 → masked (2 ^ k) hash ≡ hash % 2 ^ k
unfolding masked
masked-pow k hash h =
    let small : (2 ^ k + 2 ^ 64 - 1) % 2 ^ 64 ≡ 2 ^ k - 1 = omega (arith, one-le-pow k 2) in
    rw small (bit_and_mask k hash)

pub flatten-replicate : (n : ℕ) → flatten {A = Node} (replicate n []) ≡ []
unfolding flatten
flatten-replicate zero = refl
flatten-replicate (suc n) = flatten-replicate n

-- replacing a chain exchanges its nodes for those of the new one
pub length-flatten-set :
    (bs : List Chain) (i : ℕ) (c : Chain)
    → i < length bs
    → length (flatten (set bs i c)) + length (get_or bs i []) ≡ length (flatten bs) + length c
unfolding flatten
length-flatten-set [] i c inside = absurd (omega arith)
length-flatten-set (b ∷ bs) zero c inside =
    omega (arith, length-append b (flatten bs), length-append c (flatten bs))
length-flatten-set (b ∷ bs) (suc i) c inside = omega (
  arith,
  length-flatten-set bs i c (omega arith),
  length-append b (flatten bs),
  length-append b (flatten (set bs i c)),
)

abbrev pub chain_of : List Chain → ℕ → Chain
chain_of bs q = get_or bs (q % length bs) []

-- a hash occurs at most once, and only in the chain at its remainder
abbrev pub IsPlaced : List Chain → Type 0
IsPlaced bs =
    (q i : ℕ) → (count q (get_or bs i []) ≤ 1) × (q % length bs ≢ i → count q (get_or bs i []) ≡ 0)

-- the node that an array of chains holds for a hash
unfoldable pub view : List Chain → ℕ → Option Node
view bs q = find q (chain_of bs q)

pub view-replicate : (n q : ℕ) → view (replicate n []) q ≡ none
unfolding view find
view-replicate n q = rw get_or-replicate

pub replicate-IsPlaced : (n : ℕ) → IsPlaced (replicate n [])
unfolding count
replicate-IsPlaced n q i = rw get_or-replicate (omega arith)

get_or-end : (bs : List Chain) → get_or bs (length bs) [] ≡ []
get_or-end [] = refl
get_or-end (c ∷ cs) = get_or-end cs

or_else-none : (o : Option Node) → or_else o none ≡ o
unfolding or_else
or_else-none none = refl
or_else-none (some n) = refl

-- Where only the chain at `j` may hold the hash, all the nodes in one list answer as that chain does.
-- `j` past the end stands for no chain at all.
flatten_one :
    (q j : ℕ) (bs : List Chain)
    → ((i : ℕ) → i ≢ j → count q (get_or bs i []) ≡ 0)
    → (count q (flatten bs) ≡ count q (get_or bs j []))
      × (find q (flatten bs) ≡ find q (get_or bs j []))
unfolding flatten or_else count
flatten_one q j [] elsewhere = (refl, refl)
flatten_one q zero (c ∷ cs) elsewhere =
    let (counted, found) =
      flatten_one q (length cs) cs (λ i away. elsewhere (suc i) (omega arith)) in
    let past : get_or cs (length cs) [] ≡ [] = get_or-end cs in
    let gone : count q (flatten cs) ≡ 0 = counted ∙ ap (count q) past in
    (
      count-append q c (flatten cs) ∙ omega (arith, gone),
      find-append q c (flatten cs)
          ∙ rw (find-eq-none q (flatten cs) gone) (or_else-none (find q c)),
    )
flatten_one q (suc j) (c ∷ cs) elsewhere =
    let (counted, found) = flatten_one q j cs (λ i away. elsewhere (suc i) (omega arith)) in
    let gone : count q c ≡ 0 = elsewhere 0 (omega arith) in
    (
      count-append q c (flatten cs) ∙ omega (arith, gone, counted),
      find-append q c (flatten cs) ∙ rw (find-eq-none q c gone) found,
    )

-- all the nodes in one list read like the array
pub flatten-view :
    (bs : List Chain) (q : ℕ)
    → IsPlaced bs
    → (find q (flatten bs) ≡ view bs q) × (count q (flatten bs) ≤ 1)
unfolding view
flatten-view bs q placed =
    let home = q % length bs in
    let one = flatten_one q home bs (λ i away. (placed q i).1 (λ same. away (sym same))) in
    (one.1, subst (λ (k : ℕ). k ≤ 1) (sym one.0) (placed q home).0)

-- `bs` has `total` nodes, all in place, and reads as `f`
pub record Holds (n total : ℕ) (f : ℕ → Option Node) (bs : List Chain) : Type 0 where
  pub width : length bs ≡ n
  pub nodes : length (flatten bs) ≡ total
  pub placed : IsPlaced bs
  pub reads : (q : ℕ) → view bs q ≡ f q

module _ (bs : List Chain) (some_bucket : 0 < length bs) (placed : IsPlaced bs) (k : ℕ) where
  -- every write replaces the chain of one hash `k`, and changes what is held for `k` alone
  pub set-Holds :
      (v : Option Node) (c : Chain) (total : ℕ)
      → total + length (chain_of bs k) ≡ length (flatten bs) + length c
      → ((q : ℕ) → count q c ≤ max (to_nat (q == k)) (count q (chain_of bs k)))
      → ((q : ℕ) → find q c ≡ (if q == k then v else find q (chain_of bs k)))
      → Holds (length bs) total (λ q. if q == k then v else view bs q) (set bs (k % length bs) c)
  unfolding view
  set-Holds v c total size few reads =
      let inside : k % length bs < length bs = omega arith in
      record {
        width = length-set bs _ c;
        nodes = omega (arith, length-flatten-set bs _ c inside);
        placed = λ q j. rw (length-set, get_or-set, inside) (ground (arith, placed q j, few q));
        reads = λ q. rw (length-set, get_or-set, inside) (ground (arith, reads q));
      }
