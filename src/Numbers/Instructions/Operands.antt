-- ===== src/Numbers/Instructions/Operands.antt =====
-- The instructions on two registers that hold normal numbers.
use chloride.Base.{ℕ, suc, ◌≡◌, ◌<◌, ◌∙◌, none, some, List, get_elem?, get_or, set, length, lt→ltb}
use chloride.Base.Run.{Run, ok, fault, ◌>>=◌, Returns}
use chloride.Bytecode.{pop_byte}
use chloride.Numbers.{Gmp, Number, NumberObject}
use chloride.Numbers.Built.{Represents}
use chloride.Numbers.Divide.{Error, Outcome, returned, raised, returns}
use chloride.Numbers.Instructions.{
  Value, number, numeric, finish, read_register, Machine, Function, binary_instruction,
}

-- The bytes at `ip` name three registers of the machine, the first two of which hold these numbers.
pub record Operands {Q O : Type 0} (m : Machine Q O) (c : ℕ) (x y : NumberObject Q) : Type 0 where
  pub a : ℕ
  pub b : ℕ
  pub code_a : get_or m.bytecode m.ip none ≡ some a
  pub code_b : get_or m.bytecode (suc m.ip) none ≡ some b
  pub code_c : get_or m.bytecode (suc (suc m.ip)) none ≡ some c
  pub left : get_elem? m.registers a ≡ some (number x)
  pub right : get_elem? m.registers b ≡ some (number y)
  pub room : c < length m.registers

-- the machine behind the instruction, with a value in a register
abbrev pub stored : {Q O : Type 0} → Machine Q O → ℕ → Value Q O → Machine Q O
stored m c v = record m { ip = suc (suc (suc m.ip)); registers = set m.registers c v }

module _ {Q O : Type 0} (gmp : Gmp Q)
    (call : Function → List (Value Q O) → Machine Q O → Run (Value Q O × Machine Q O)) where
  popped :
      (m : Machine Q O) (i b : ℕ)
      → get_or m.bytecode i none ≡ some b
      → pop_byte m.bytecode i ≡ ok (b, suc i)
  unfolding pop_byte
  popped m i b h = rw (pop_byte, h)

  loaded :
      (m : Machine Q O) (i : ℕ) (v : Value Q O)
      → get_elem? m.registers i ≡ some v
      → read_register m i ≡ ok v
  loaded m i v h = rw (read_register, h)

  -- the instruction reads its operands
  binary_read :
      (op : Number Q → Number Q → Run (Outcome (Value Q O))) (f : Function) (m : Machine Q O)
      (c : ℕ) (x y : NumberObject Q)
      → Operands m c x y
      → binary_instruction gmp call op f m
        ≡ (op x.as_number y.as_number >>= λ u. finish (record m { ip = suc (suc (suc m.ip)) }) c u)
  unfolding binary_instruction
  binary_read op f m c x y w = rw (
    binary_instruction,
    popped m m.ip w.a w.code_a,
    popped m (suc m.ip) w.b w.code_b,
    popped m (suc (suc m.ip)) c w.code_c,
    loaded m w.a (number x) w.left,
    loaded m w.b (number y) w.right,
  )

  pub binary-returned :
      (op : Number Q → Number Q → Run (Outcome (Value Q O))) (f : Function) (m : Machine Q O)
      (c : ℕ) (x y : NumberObject Q) (v : Value Q O)
      → Operands m c x y
      → op x.as_number y.as_number ≡ ok (returned v)
      → binary_instruction gmp call op f m ≡ ok (stored m c v)
  binary-returned op f m c x y v w e =
      binary_read op f m c x y w ∙ rw (e, lt→ltb c (length m.registers) w.room)

  pub binary-raised :
      (op : Number Q → Number Q → Run (Outcome (Value Q O))) (f : Function) (m : Machine Q O)
      (c : ℕ) (x y : NumberObject Q) (k : Error)
      → Operands m c x y
      → op x.as_number y.as_number ≡ ok (raised k)
      → binary_instruction gmp call op f m
        ≡ ok (record m { ip = suc (suc (suc m.ip)); err = some k })
  binary-raised op f m c x y k w e = binary_read op f m c x y w ∙ rw e

  pub binary-fault :
      (op : Number Q → Number Q → Run (Outcome (Value Q O))) (f : Function) (m : Machine Q O)
      (c : ℕ) (x y : NumberObject Q)
      → Operands m c x y
      → op x.as_number y.as_number ≡ fault
      → binary_instruction gmp call op f m ≡ fault
  binary-fault op f m c x y w e = binary_read op f m c x y w ∙ rw e

-- The instruction leaves a normal number of this value in the register, and nothing else changes.
abbrev pub Leaves : {Q O : Type 0} → Gmp Q → Run (Machine Q O) → Machine Q O → ℕ → Q → Type 0
Leaves {Q} gmp run m c q =
    (o : NumberObject Q) × Represents gmp o q × (run ≡ ok (stored m c (number o)))

module _ {Q O : Type 0} (gmp : Gmp Q)
    (call : Function → List (Value Q O) → Machine Q O → Run (Value Q O × Machine Q O)) where
  -- an operation on numbers that returns a value
  pub numeric-Leaves :
      (op : Number Q → Number Q → Run (Outcome (NumberObject Q))) (f : Function) (m : Machine Q O)
      (c : ℕ) (x y : NumberObject Q) (q : Q)
      → Operands m c x y
      → Returns
          (op x.as_number y.as_number)
          (λ u. (o : NumberObject Q) × (u ≡ returned o) × Represents gmp o q)
      → Leaves gmp (binary_instruction gmp call (λ s t. numeric (op s t)) f m) m c q
  numeric-Leaves op f m c x y q w (u, runs, (o, same, holds)) = (
    o,
    holds,
    binary-returned gmp call (λ s t. numeric (op s t)) f m c x y (number o) w (rw (runs, same)),
  )

  -- one that cannot raise an error
  pub plain-Leaves :
      (op : Number Q → Number Q → Run (NumberObject Q)) (f : Function) (m : Machine Q O) (c : ℕ)
      (x y : NumberObject Q) (q : Q)
      → Operands m c x y
      → Returns (op x.as_number y.as_number) (λ o. Represents gmp o q)
      → Leaves gmp (binary_instruction gmp call (λ s t. numeric (returns (op s t))) f m) m c q
  plain-Leaves op f m c x y q w (o, runs, holds) = (
    o,
    holds,
    binary-returned gmp call (λ s t. numeric (returns (op s t))) f m c x y (number o) w (rw runs),
  )
