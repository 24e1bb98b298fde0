-- ===== src/Translator/Pieces.antt =====
-- Runs of instructions that the files of src/translator write one after another.
use chloride.Base.{ℕ, List, [], ◌∷◌, ◌++◌, length}
use chloride.Translator.Machine.{Piece, byte, code}
use chloride.Translator.Opcodes.{
  op_copy_to_register, op_load_null, op_init_call, op_insert_arg, op_source_location, op_declare,
  op_load_string,
}
use chloride.Translator.Syntax.{Place}

abbrev pub copy : ℕ → ℕ → List Piece
copy from to = byte op_copy_to_register ∷ byte from ∷ byte to ∷ []

abbrev pub load_null : ℕ → List Piece
load_null register = byte op_load_null ∷ byte register ∷ []

abbrev pub init_call : ℕ → List Piece
init_call n = byte op_init_call ∷ code n ∷ []

abbrev pub insert_arg : ℕ → List Piece
insert_arg i = byte op_insert_arg ∷ code i ∷ []

abbrev pub source_location : ℕ → ℕ → ℕ → List Piece
source_location line column width =
    byte op_source_location ∷ code line ∷ code column ∷ code width ∷ []

abbrev pub source_place : Place → List Piece
source_place p = source_location p.line p.column p.length

-- the length, the position and the hash of a name
abbrev pub name_codes : (List ℕ → ℕ) → List ℕ → ℕ → List Piece
name_codes siphash name pos = code (length name) ∷ code pos ∷ code (siphash name) ∷ []

abbrev pub declare_name : (List ℕ → ℕ) → List ℕ → ℕ → ℕ → List Piece
declare_name siphash name pos register =
    byte op_declare ∷ (name_codes siphash name pos ++ byte register ∷ [])

abbrev pub load_string : (List ℕ → ℕ) → List ℕ → ℕ → List Piece
load_string siphash text pos = byte op_load_string ∷ byte 0 ∷ name_codes siphash text pos
