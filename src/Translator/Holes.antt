-- ===== src/Translator/Holes.antt =====
-- Jumps whose target is not known yet: emit_hole, and set_instruction_code once it is.
use chloride.Base.{
  ℕ, ◌+◌, ◌≡◌, refl, ap, ap₂, ◌∙◌, Bool, true, false, List, [], ◌∷◌, ◌++◌, arith, leb,
  if◌then◌else◌, length, take, drop, length-append, take-append,
}
use mathlib.Core.List.{append_assoc, append-nil}
use chloride.Bytecode.{uint64_to_bytes}
use chloride.Bytecode.Words.{length-uint64_to_bytes}
use chloride.Translator.Constants.{drop-append, take_all}
use chloride.Translator.Machine.{
  Translated, next, fault, pure, ◌>>=◌, ◌>>◌, Piece, code, emit, emit_hole, encode,
  set_instruction_code, patched,
}

drop-length : (xs ys : List ℕ) (n : ℕ) → n ≡ length xs → drop n (xs ++ ys) ≡ ys
drop-length xs ys n e = ap (λ (k : ℕ). drop k (xs ++ ys)) e ∙ drop-append xs ys

patched-hole :
    (bs hole es : List ℕ) (v : ℕ)
    → length hole ≡ 8
    → patched ((bs ++ hole) ++ es) (length bs) v ≡ bs ++ (uint64_to_bytes v ++ es)
patched-hole bs hole es v e =
    ap₂ (λ (x y : List ℕ). x ++ (uint64_to_bytes v ++ y))
      (ap (λ (l : List ℕ). take (length bs) l) (append_assoc bs hole es)
        ∙ (take-append (length bs) bs (hole ++ es) (omega arith) ∙ take_all bs))
      (drop-length (bs ++ hole) es (length bs + 8) (omega (arith, e, length-append bs hole)))

inside :
    (whole part bytes hole es : ℕ)
    → whole ≡ part + es
    → part ≡ bytes + hole
    → hole ≡ 8
    → leb (bytes + 8) whole ≡ true
inside whole part bytes hole es e f g = ground arith

set-patched :
    (b : Bool) (t : Translated) (bytecode : List ℕ)
    → b ≡ true
    → (if b then next tt (record t { bytecode = bytecode }) else fault)
      ≡ next tt (record t { bytecode = bytecode })
set-patched true t bytecode e = refl
set-patched false t bytecode e = absurd (ground arith)

-- A hole that is left for a code, and set when some instructions have been written behind it, is as if
-- the code had been written in its place at once: in whatever state, set_instruction_code finds the eight
-- bytes inside the bytecode, and nothing else changes.
pub emit_hole-emit :
    (v : ℕ) (ps : List Piece) (t : Translated)
    → (emit_hole >>= λ index. (emit ps >> set_instruction_code index v)) t
      ≡ (emit (code v ∷ ps) >> pure tt) t
unfolding emit encode set_instruction_code ◌>>=◌ pure
emit_hole-emit v ps t =
    let hole = uint64_to_bytes 0 ++ [] in
    let eight : length hole ≡ 8 =
      ap (λ (l : List ℕ). length l) (append-nil (uint64_to_bytes 0)) ∙ length-uint64_to_bytes 0 in
    set-patched _ t _ (
      inside _ _ (length t.bytecode) (length hole) (length (encode ps))
        (length-append (t.bytecode ++ hole) (encode ps)) (length-append t.bytecode hole) eight)
    ∙ ap (λ (l : List ℕ). next tt (record t { bytecode = l }))
        (patched-hole t.bytecode hole (encode ps) v eight)
