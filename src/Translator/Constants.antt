-- ===== src/Translator/Constants.antt =====
-- The constant arena, ConstantArena of src/arobject.h and arena_push of src/translator/translator.c.
-- `data_bytes` is the bytes that are in use, at the start of a block whose size arena_init and
-- arena_resize keep at `capacity`. The hash table that arena_push asks is seen as the map that
-- Hashmap/Remove shows it to be, 0 for NULL. A `memcmp` of bytes that reach past the block is a fault,
-- and so is one whose answer would depend on bytes behind those in use, which were never written; both
-- are met only where two strings have one hash.
use chloride.Base.{
  sym, ◌∙◌, ℕ, ◌+◌, ◌-◌, ◌*◌, ◌/◌, ◌<◌, ltb, ◌≡◌, ◌≢◌, ◌⊎◌, inl, inr, refl, ap, ap₂, Bool,
  Bool-cases, true, false, List, [], ◌∷◌, ◌++◌, arith, ◌==◌, if◌then◌else◌, length, take, drop,
}
use chloride.Base.Run.{Run, ok, fault, ◌>>=◌, Returns}
use mathlib.Core.List.{append-nil}

pub record ConstantArena : Type 0 where
  pub data_bytes : List ℕ
  pub offsets : ℕ → ℕ

-- arena_resize, for `arena->size` from arena_init on
abbrev pub capacity : ConstantArena → ℕ
capacity arena = (length arena.data_bytes / 16 + 1) * 16

-- arena_init
unfoldable pub arena_init : ConstantArena
arena_init = record { data_bytes = []; offsets = λ hash. 0 }

-- `memcmp(…) == 0`, of the bytes in use from some place on and the bytes that are pushed
unfoldable pub same_bytes : List ℕ → List ℕ → Run Bool
same_bytes xs [] = ok true
same_bytes [] (y ∷ ys) = fault
same_bytes (x ∷ xs) (y ∷ ys) = let rest = same_bytes xs ys in if x == y then rest else ok false

abbrev pub bytes_at : ConstantArena → ℕ → ℕ → List ℕ
bytes_at arena offset n = take n (drop offset arena.data_bytes)

-- arena_push from `arena_resize` on
unfoldable pub arena_append : ConstantArena → ℕ → List ℕ → ConstantArena × ℕ
arena_append arena hash bytes = (
  record {
    data_bytes = arena.data_bytes ++ bytes;
    offsets = λ h. if h == hash then length arena.data_bytes + 1 else arena.offsets h;
  },
  length arena.data_bytes,
)

module _ (siphash : List ℕ → ℕ) where
  -- arena_push
  unfoldable pub arena_push : ConstantArena → List ℕ → Run (ConstantArena × ℕ)
  arena_push arena bytes =
      let val = arena.offsets (siphash bytes) in
      let appended = arena_append arena (siphash bytes) bytes in
      if val == 0
      then ok appended
      else if ltb (capacity arena) (val - 1 + length bytes)
      then fault
      else (same_bytes (drop (val - 1) arena.data_bytes) bytes >>= λ same.
          ok (if same then (arena, val - 1) else appended))

-- One string is the beginning of another, and shorter.
abbrev pub IsShort : List ℕ → List ℕ → Type 0
IsShort xs ys = (z : ℕ) × (zs : List ℕ) × (xs ++ z ∷ zs ≡ ys)

same_bytes-cases :
    (xs ys : List ℕ)
    → (IsShort xs ys × (same_bytes xs ys ≡ fault))
      ⊎ ((same : Bool) × (same_bytes xs ys ≡ ok same)
          × (¬ IsShort xs ys)
          × (same ≡ true → take (length ys) xs ≡ ys))
unfolding same_bytes
same_bytes-cases [] [] = inr (true, refl, λ (z, zs, e). absurd (ground arith), λ e. refl)
same_bytes-cases (x ∷ xs) [] = inr (true, refl, λ (z, zs, e). absurd (ground arith), λ e. refl)
same_bytes-cases [] (y ∷ ys) = inl ((y, ys, refl), refl)
same_bytes-cases (x ∷ xs) (y ∷ ys) = elim (Bool-cases (x == y)) [
  | inl same ↦ elim (same_bytes-cases xs ys) [
    | inl ((z, zs, e), short) ↦
        inl ((z, zs, ap₂ (λ (a : ℕ) (l : List ℕ). a ∷ l) (ground arith) e), rw same short)
    | inr (b, run, whole, equal) ↦ inr (
      b,
      rw same run,
      λ (z, zs, e). whole (z, zs, ground (arith, e)),
      λ e. ap₂ (λ (a : ℕ) (l : List ℕ). a ∷ l) (ground arith) (equal e),
    )
  ]
  | inr apart ↦
      inr
        (false, rw apart refl, λ (z, zs, e). absurd (ground (arith, e)), λ e. absurd (ground arith))
]

pub drop-append : (xs ys : List ℕ) → drop (length xs) (xs ++ ys) ≡ ys
drop-append [] ys = refl
drop-append (x ∷ xs) ys = drop-append xs ys

pub take_all : (xs : List ℕ) → take (length xs) xs ≡ xs
take_all [] = refl
take_all (x ∷ xs) = ap (λ t. x ∷ t) (take_all xs)

-- what a push leaves: the bytes stand at the offset, which the table has for their hash, and all that
-- stood before stands where it stood
pub record Pushed (arena : ConstantArena) (hash : ℕ) (bytes : List ℕ) (r : ConstantArena × ℕ)
    : Type 0 where
  pub stands : bytes_at r.0 r.1 (length bytes) ≡ bytes
  pub known : r.0.offsets hash ≡ r.1 + 1
  pub others : (h : ℕ) → h ≢ hash → r.0.offsets h ≡ arena.offsets h
  pub added : List ℕ
  pub stays : r.0.data_bytes ≡ arena.data_bytes ++ added

arena_append-Pushed :
    (arena : ConstantArena) (hash : ℕ) (bytes : List ℕ)
    → Pushed arena hash bytes (arena_append arena hash bytes)
unfolding arena_append
arena_append-Pushed arena hash bytes = record {
  stands =
      ap (λ (l : List ℕ). take (length bytes) l) (drop-append arena.data_bytes bytes)
      ∙ take_all bytes;
  known = ground arith;
  others = λ h apart. ground arith;
  added = bytes;
  stays = refl;
}

found-Pushed :
    (arena : ConstantArena) (hash : ℕ) (bytes : List ℕ) (same : Bool)
    → (arena.offsets hash == 0) ≡ false
    → (same ≡ true → bytes_at arena (arena.offsets hash - 1) (length bytes) ≡ bytes)
    → Pushed arena hash bytes
        (if same then (arena, arena.offsets hash - 1) else arena_append arena hash bytes)
found-Pushed arena hash bytes true some_value equal = record {
  stands = equal refl;
  known = ground arith;
  others = λ h apart. refl;
  added = [];
  stays = sym (append-nil arena.data_bytes);
}
found-Pushed arena hash bytes false some_value equal = arena_append-Pushed arena hash bytes

-- The table has an offset for the hash of the bytes, and as many bytes from there on reach past the block,
-- or those in use are the beginning of the pushed ones only.
abbrev pub Overread : (List ℕ → ℕ) → ConstantArena → List ℕ → Type 0
Overread siphash arena bytes =
    ((arena.offsets (siphash bytes) == 0) ≡ false)
    × ((capacity arena < arena.offsets (siphash bytes) - 1 + length bytes)
        ⊎ IsShort (drop (arena.offsets (siphash bytes) - 1) arena.data_bytes) bytes)

-- Whatever the arena holds and whatever the hash function is, also where two strings have one hash:
-- arena_push is a fault exactly if the offset found has fewer bytes in use than are pushed, and either
-- the comparison reaches past the block or those bytes agree with the first pushed ones. Else it returns
-- an offset at which the pushed bytes stand and which it finds for their hash from then on, leaves the
-- offsets of all other hashes, and leaves all bytes of the arena where they were, with new ones at most
-- behind them.
pub arena_push-Pushed :
    (siphash : List ℕ → ℕ) (arena : ConstantArena) (bytes : List ℕ)
    → (Overread siphash arena bytes × (arena_push siphash arena bytes ≡ fault))
      ⊎ ((¬ Overread siphash arena bytes)
          × Returns (arena_push siphash arena bytes) (Pushed arena (siphash bytes) bytes))
unfolding arena_push
arena_push-Pushed siphash arena bytes =
    let hash = siphash bytes in
    let offset = arena.offsets hash - 1 in
    elim (Bool-cases (arena.offsets hash == 0)) [
      | inl no_value ↦ inr (
        λ (some_value, reach). absurd (ground arith),
        (arena_append arena hash bytes, rw no_value refl, arena_append-Pushed arena hash bytes),
      )
      | inr some_value ↦ elim (Bool-cases (ltb (capacity arena) (offset + length bytes))) [
        | inl past ↦ inl ((some_value, inl (ground arith)), rw (some_value, past) refl)
        | inr inside ↦ elim (same_bytes-cases (drop offset arena.data_bytes) bytes) [
          | inl (short, e) ↦ inl ((some_value, inr short), rw (some_value, inside, e) refl)
          | inr (same, e, whole, equal) ↦ inr (
            λ (nonzero, reach). elim reach [
              | inl past ↦ absurd (ground arith)
              | inr short ↦ whole short
            ],
            (
              (if same then (arena, offset) else arena_append arena hash bytes),
              rw (some_value, inside, e) refl,
              found-Pushed arena hash bytes same some_value equal,
            ),
          )
        ]
      ]
    ]
