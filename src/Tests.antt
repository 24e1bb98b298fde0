-- ===== src/Tests.antt =====
-- Runs of the models on small inputs, and the theorems applied where their hypotheses hold.
mod ArmemArrays
mod Bytecodes
mod DynArrays
mod Fractions
mod Numbers
mod Scopes
mod Slices
mod Hashmaps
mod HashmapsGc
mod Texts
mod Translators
