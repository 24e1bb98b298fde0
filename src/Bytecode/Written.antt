-- ===== src/Bytecode/Written.antt =====
-- What push_instruction_code and set_instruction_code (src/translator/translator.c) leave in the
-- bytecode, and what POP_U64 (src/runtime/runtime.c) makes of it.
use native.Mathlib.Nat.{mul-le-mul_right}
use mathlib.Core.List.{append_assoc, append-nil}
use chloride.Base.{
  ℕ, zero, suc, ◌+◌, ◌^◌, ◌≤◌, ◌<◌, ◌≡◌, refl, sym, ap, ◌∙◌, Option, some, List, [], ◌∷◌, ◌++◌,
  arith, length, length-take, length-set, drop, take, set, lt→ltb,
}
use chloride.Base.Run.{ok, Returns}
use chloride.DynArray.{DArray, write_slot, contents}
use chloride.DynArray.Grow.{IsValid, Room, push-Pushed}
use chloride.Bytecode.{
  uint64_to_bytes, push_bytes, push_instruction_code, store_bytes, set_instruction_code, pop_u64,
}
use chloride.Bytecode.Words.{length-uint64_to_bytes, defined, read_at}

-- the bytecode after some bytes were pushed
pub record Extended (arr : DArray ℕ) (bs : List ℕ) (r : DArray ℕ) : Type 0 where
  pub valid : IsValid r
  pub sized : r.size ≡ arr.size + length bs
  pub same_elements : r.element_size ≡ arr.element_size
  pub appended : contents r ≡ contents arr ++ defined bs

length-contents : (arr : DArray ℕ) → IsValid arr → length (contents arr) ≡ arr.size
length-contents arr v = length-take arr.size arr.slots ∙ omega (arith, v.fits, v.block)

remaining :
    (arr g : DArray ℕ) (n : ℕ)
    → g.size ≡ arr.size + 1
    → g.element_size ≡ arr.element_size
    → Room arr (arr.size + suc n)
    → Room g (g.size + n)
remaining arr g n sized same room =
    let total : g.size + n ≡ arr.size + suc n = omega arith in rw (total, same) room

push_bytes-Extended :
    (arr : DArray ℕ) (bs : List ℕ)
    → IsValid arr
    → Room arr (arr.size + length bs)
    → Returns (push_bytes arr bs) (Extended arr bs)
unfolding push_bytes
push_bytes-Extended arr [] v room = (
  arr,
  refl,
  record {
    valid = v;
    sized = omega arith;
    same_elements = refl;
    appended = sym (append-nil (contents arr));
  },
)
push_bytes-Extended arr (b ∷ bs) v room =
    let one : Room arr (arr.size + 1) = omega (
      arith,
      mul-le-mul_right {m = arr.size + 1} {n = arr.size + suc (length bs)} arr.element_size
          (omega arith),
    ) in
    let (g, first, p) = push-Pushed arr b v one in
    let rest = remaining arr g (length bs) p.sized p.same_elements room in
    let (r, run, e) = push_bytes-Extended g bs p.valid rest in
    (
      r,
      rw first run,
      record {
        valid = e.valid;
        sized = omega (arith, e.sized, p.sized);
        same_elements = e.same_elements ∙ p.same_elements;
        appended =
            e.appended
            ∙ ap (λ t. t ++ defined bs) p.appended
            ∙ append_assoc (contents arr) (some b ∷ []) (defined bs);
      },
    )

-- some bytes written over those from `i` on
abbrev pub overwritten : List (Option ℕ) → ℕ → List ℕ → List (Option ℕ)
overwritten xs i bs = take i xs ++ (defined bs ++ drop (i + length bs) xs)

abbrev overwrite : List (Option ℕ) → ℕ → List ℕ → List (Option ℕ)
overwrite xs i [] = xs
overwrite xs i (b ∷ bs) = overwrite (set xs i (some b)) (suc i) bs

overwrite-tail :
    (x : Option ℕ) (xs : List (Option ℕ)) (i : ℕ) (bs : List ℕ)
    → overwrite (x ∷ xs) (suc i) bs ≡ x ∷ overwrite xs i bs
overwrite-tail x xs i [] = refl
overwrite-tail x xs i (b ∷ bs) = overwrite-tail x (set xs i (some b)) (suc i) bs

overwrite-start :
    (n : ℕ) (bs : List ℕ) (xs : List (Option ℕ))
    → length bs ≤ n
    → n ≤ length xs
    → take n (overwrite xs 0 bs) ≡ defined bs ++ drop (length bs) (take n xs)
overwrite-start n [] xs inside fits = refl
overwrite-start zero (b ∷ bs) xs inside fits = absurd (omega arith)
overwrite-start (suc n) (b ∷ bs) [] inside fits = absurd (omega arith)
overwrite-start (suc n) (b ∷ bs) (x ∷ xs) inside fits =
    ap (take (suc n)) (overwrite-tail (some b) xs 0 bs)
    ∙ ap (λ t. some b ∷ t) (overwrite-start n bs xs (omega arith) (omega arith))

take-overwrite :
    (n i : ℕ) (bs : List ℕ) (xs : List (Option ℕ))
    → i + length bs ≤ n
    → n ≤ length xs
    → take n (overwrite xs i bs) ≡ overwritten (take n xs) i bs
take-overwrite n zero bs xs inside fits =
    overwrite-start n bs xs (omega arith) fits
    ∙ ap (λ (k : ℕ). defined bs ++ drop k (take n xs)) {x = length bs} (omega arith)
take-overwrite zero (suc i) bs xs inside fits = absurd (omega arith)
take-overwrite (suc n) (suc i) bs [] inside fits = absurd (omega arith)
take-overwrite (suc n) (suc i) bs (x ∷ xs) inside fits =
    ap (take (suc n)) (overwrite-tail x xs i bs)
    ∙ ap (λ t. x ∷ t) (take-overwrite n i bs xs (omega arith) (omega arith))
    ∙ ap (λ (k : ℕ). x ∷ (take i (take n xs) ++ (defined bs ++ drop k (x ∷ take n xs))))
        {x = suc (i + length bs)} (omega arith)

store_bytes-overwrite :
    (arr : DArray ℕ) (i : ℕ) (bs : List ℕ)
    → i + length bs ≤ length arr.slots
    → store_bytes arr i bs ≡ ok (record arr { slots = overwrite arr.slots i bs })
unfolding store_bytes write_slot
store_bytes-overwrite arr i [] inside = refl
store_bytes-overwrite arr i (b ∷ bs) inside =
    let here = lt→ltb i (length arr.slots) (omega arith) in
    let rest =
      store_bytes-overwrite (record arr { slots = set arr.slots i (some b) }) (suc i) bs
        (omega (arith, length-set arr.slots i (some b))) in
    rw here rest

length-overwrite :
    (xs : List (Option ℕ)) (i : ℕ) (bs : List ℕ) → length (overwrite xs i bs) ≡ length xs
length-overwrite xs i [] = refl
length-overwrite xs i (b ∷ bs) =
    length-overwrite (set xs i (some b)) (suc i) bs ∙ length-set xs i (some b)

-- the bytecode after a word was set at an offset
pub record Patched (arr : DArray ℕ) (index code : ℕ) (r : DArray ℕ) : Type 0 where
  pub valid : IsValid r
  pub same_size : r.size ≡ arr.size
  pub patched : contents r ≡ overwritten (contents arr) index (uint64_to_bytes code)
  pub read_back : pop_u64 (contents r) index ≡ ok (code, index + 8)

-- In valid bytecode, set_instruction_code at an offset whose eight bytes lie inside ends normally,
-- changes those eight bytes alone, and POP_U64 at that offset then reads the code that was set.
pub set_instruction_code-Patched :
    (arr : DArray ℕ) (index code : ℕ)
    → IsValid arr
    → index + 8 ≤ arr.size
    → code < 2 ^ 64
    → Returns (set_instruction_code arr index code) (Patched arr index code)
unfolding set_instruction_code
set_instruction_code-Patched arr index code v inside small =
    let eight = length-uint64_to_bytes code in
    let patched =
      take-overwrite arr.size index (uint64_to_bytes code) arr.slots (omega arith) (omega arith) in
    (
      record arr { slots = overwrite arr.slots index (uint64_to_bytes code) },
      store_bytes-overwrite arr index (uint64_to_bytes code) (omega arith),
      record {
        valid = record {
          owned = v.owned;
          sized = v.sized;
          fits = v.fits;
          block = length-overwrite arr.slots index (uint64_to_bytes code) ∙ v.block;
        };
        same_size = refl;
        patched = patched;
        read_back =
            ap (λ t. pop_u64 t index) patched
            ∙ read_at (take index (contents arr)) _ code index small
                (sym (length-take index (contents arr) ∙ omega (arith, length-contents arr v)));
      },
    )

-- the bytecode after a word was pushed, and its offset
pub record Coded (arr : DArray ℕ) (code : ℕ) (r : ℕ × DArray ℕ) : Type 0 where
  pub extended : Extended arr (uint64_to_bytes code) r.1
  pub offset : r.0 ≡ arr.size
  pub read_back : pop_u64 (contents r.1) r.0 ≡ ok (code, r.0 + 8)

-- From valid bytecode, while the doubled byte count fits `size_t`, push_instruction_code ends
-- normally, adds the eight bytes of the code behind the others, which stay, and returns their offset;
-- POP_U64 there reads the code.
pub push_instruction_code-Coded :
    (arr : DArray ℕ) (code : ℕ)
    → IsValid arr
    → Room arr (arr.size + 8)
    → code < 2 ^ 64
    → Returns (push_instruction_code arr code) (Coded arr code)
unfolding push_instruction_code
push_instruction_code-Coded arr code v room small =
    let eight = length-uint64_to_bytes code in
    let room' : Room arr (arr.size + length (uint64_to_bytes code)) = rw eight room in
    let (r, run, e) = push_bytes-Extended arr (uint64_to_bytes code) v room' in
    (
      (arr.size, r),
      rw run,
      record {
        extended = e;
        offset = refl;
        read_back =
            ap (λ t. pop_u64 t arr.size)
              (e.appended
                ∙ ap (λ t. contents arr ++ t) (sym (append-nil (defined (uint64_to_bytes code)))))
            ∙ read_at (contents arr) [] code arr.size small (sym (length-contents arr v));
      },
    )
