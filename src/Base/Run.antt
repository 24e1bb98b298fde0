-- ===== src/Base/Run.antt =====
-- The outcome of a C call: a result, the process ended by `exit(EXIT_FAILURE)`, or a fault, which
-- stands for undefined behaviour (an access outside a block, a signed overflow, a null pointer).
-- Allocations are taken to succeed: checked_malloc, ar_alloc and ar_realloc end the process otherwise.
use mathlib.Core.Path.{◌≡◌}

pub data Run {ℓ} (S : Type ℓ) : Type ℓ where
  fault exit_failure : Run S
  ok : S → Run S

-- what follows a call is reached only from its result
infixl 5 ◌>>=◌
abbrev pub ◌>>=◌ {u v} : {S : Type u} {T : Type v} → (call : Run S) (next : S → Run T) → Run T
fault >>= next = fault
exit_failure >>= next = exit_failure
ok s >>= next = next s

-- the call ends normally, with a result of which `Holds` is true
abbrev pub Returns {u v} : {S : Type u} → (call : Run S) → (S → Type v) → Type (u ⊔ v)
Returns {S} call Holds = (s : S) × (call ≡ ok s) × Holds s
