-- ===== src/Translator.antt =====
-- The translator of src/translator. A file's function is one definition here, of the same name, and takes
-- the translations of its parts as arguments; Dispatch ties the recursion.
pub mod Opcodes
pub mod Syntax
pub mod Constants
pub mod Machine
pub mod Pieces
pub mod Control
pub mod Values
pub mod Calls
pub mod Scopes
pub mod Operations
pub mod Functions
pub mod Destructure
pub mod Dispatch
pub mod Holes
pub mod Restore
