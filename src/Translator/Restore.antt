-- ===== src/Translator/Restore.antt =====
-- What a translation restores: the depths, the registers and the jumps of the state. Restore/Frame has
-- the triples in which this is proved, Restore/Steps, Restore/Moves and Restore/Jumps a rule for each step of Translator/Machine, the
-- others the functions of the file they are named for, and Restore/Dispatch the whole of translate_parsed.
pub mod Frame
pub mod Steps
pub mod Moves
pub mod Jumps
pub mod Rules
pub mod Control
pub mod Values
pub mod Calls
pub mod Scopes
pub mod Operations
pub mod Functions
pub mod Destructure
pub mod Dispatch
pub mod Restored
