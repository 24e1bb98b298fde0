-- ===== src/Translator/Restore/Frame.antt =====
-- A frame: what a step promises of the depths, registers and jumps of Translated; and triples of a frame
-- before, an action and a frame behind, which bind on. An error ends the promise.
use chloride.Base.{
  sym, ◌∙◌, ap, ℕ, ◌+◌, ◌%◌, ◌≤◌, ◌≡◌, ◌≢◌, Bool, true, false, Option, none, some, List, [], ◌∷◌,
  ◌++◌, arith,
}
use mathlib.Core.List.{append-nil, append_assoc}
use chloride.Translator.Machine.{
  JumpContext, ContinueJump, Translated, Outcome, Action, ◌>>=◌, next, left, exit_failure, fault,
}

-- a jump without its positions
pub record Shape : Type 0 where
  pub open_positions : Bool
  pub handlers : ℕ
  pub scopes : ℕ

abbrev pub is_open : Option (List ℕ) → Bool
is_open none = false
is_open (some ps) = true

abbrev pub shape : JumpContext → Shape
shape j = record {
  open_positions = is_open (j.positions);
  handlers = j.exception_handler_depth;
  scopes = j.scope_depth;
}

abbrev pub opened : ℕ → ℕ → Shape
opened h s = record { open_positions = true; handlers = h; scopes = s }

abbrev pub closed : Shape → Shape
closed b = record b { open_positions = false }

-- scope depth, handler depth, registers but for the kept ones, continue, break, return
pub data Frame : Type 0 where
  frame : ℕ → ℕ → ℕ → ContinueJump → Shape → Shape → Frame

pub record Matches (s h r : ℕ) (c : ContinueJump) (b rt : Shape) (t : Translated) : Type 0 where
  pub no_error : t.err ≡ false
  pub scope : t.scope_depth ≡ s
  pub handler : t.exception_handler_depth ≡ h
  pub registers : t.register_assignment ≡ (r + t.kept) % 256
  pub continues : t.continue_jump ≡ c
  pub breaks : shape t.break_jump ≡ b
  pub returns : shape t.return_jump ≡ rt

abbrev pub Holds : Frame → Translated → Type 0
Holds (frame s h r c b rt) t = Matches s h r c b rt t

-- from one state to another no error is forgotten, the constants stay where they stand, and the count of
-- registers does not fall
pub record Grows (e : ℕ) (constants : List ℕ) (n : ℕ) (e' : ℕ) (constants' : List ℕ) (n' : ℕ)
    : Type 0 where
  pub errors : e ≤ e'
  pub added : List ℕ
  pub constants_stay : constants' ≡ constants ++ added
  pub registers : n ≤ n'

abbrev pub Grown : Translated → Translated → Type 0
Grown t u =
    Grows t.errors t.constants.data_bytes t.register_count u.errors u.constants.data_bytes
      u.register_count

pub still : {e n : ℕ} {constants : List ℕ} → Grows e constants n e constants n
still {constants = constants} = record {
  errors = omega arith;
  added = [];
  constants_stay = sym (append-nil constants);
  registers = omega arith;
}

Grown-trans : (t u v : Translated) → Grown t u → Grown u v → Grown t v
Grown-trans t u v f g = record {
  errors = omega (arith, f.errors, g.errors);
  added = f.added ++ g.added;
  constants_stay =
      g.constants_stay
      ∙ (ap (λ (l : List ℕ). l ++ g.added) f.constants_stay
          ∙ append_assoc t.constants.data_bytes f.added g.added);
  registers = omega (arith, f.registers, g.registers);
}

-- nothing shrinks; with no new error, the frame behind holds, and there is no early return
unfoldable pub Post : {A : Type 0} → Frame → (A → Frame) → Translated → Outcome A → Type 0
Post fr g t (next a u) = Grown t u × (Holds fr t → u.errors ≡ t.errors → Holds (g a) u)
Post fr g t (left u) = Grown t u × (Holds fr t → u.errors ≢ t.errors)
Post fr g t exit_failure = Unit
Post fr g t fault = Unit

-- the frame behind may depend on the value
pub record Leads {A : Type 0} (fr : Frame) (m : Action A) (g : A → Frame) : Type 0 where
  pub post : (t : Translated) → Post fr g t (m t)

pub record Triple {A : Type 0} (fr : Frame) (m : Action A) (fr' : Frame) : Type 0 where
  pub post : (t : Translated) → Post fr (λ a. fr') t (m t)

-- the frame before is the frame behind
pub record Behaves {A : Type 0} (m : Action A) : Type 0 where
  pub triple : (fr : Frame) → Triple fr m fr

rest-Post :
    {B : Type 0} (fr mid : Frame) (g : B → Frame) (t u : Translated) (o : Outcome B)
    → Grown t u
    → (Holds fr t → u.errors ≡ t.errors → Holds mid u)
    → Post mid g u o
    → Post fr g t o
unfolding Post
rest-Post fr mid g t u (next b v) le f (le', f') = (
  Grown-trans t u v le le',
  λ hold e.
      f' (f hold (omega (arith, le.errors, le'.errors))) (omega (arith, le.errors, le'.errors)),
)
rest-Post fr mid g t u (left v) le f (le', f') = (
  Grown-trans t u v le le',
  λ hold e.
      f' (f hold (omega (arith, le.errors, le'.errors))) (omega (arith, le.errors, le'.errors)),
)
rest-Post fr mid g t u exit_failure le f p = tt
rest-Post fr mid g t u fault le f p = tt

bind-Post :
    {A B : Type 0} (fr : Frame) (g : A → Frame) (g' : B → Frame) (k : A → Action B) (t : Translated)
    (o : Outcome A)
    → Post fr g t o
    → ((a : A) → Leads (g a) (k a) g')
    → Post fr g' t (elim o [
      | next a u ↦ k a u
      | left u ↦ left u
      | exit_failure ↦ exit_failure
      | fault ↦ fault
    ])
unfolding Post
bind-Post fr g g' k t (next a u) (le, f) rest =
    rest-Post fr (g a) g' t u (k a u) le f ((rest a).post u)
bind-Post fr g g' k t (left u) p rest = p
bind-Post fr g g' k t exit_failure p rest = tt
bind-Post fr g g' k t fault p rest = tt

pub bind-Leads :
    {A B : Type 0} {fr : Frame} {g : A → Frame} {g' : B → Frame} (m : Action A) (k : A → Action B)
    → Leads fr m g
    → ((a : A) → Leads (g a) (k a) g')
    → Leads fr (m >>= k) g'
unfolding ◌>>=◌
bind-Leads {g = g} m k m-ok rest = record {
  post = λ t. bind-Post _ g _ k t (m t) (m-ok.post t) rest;
}

pub Triple-Leads :
    {A : Type 0} {fr fr' : Frame} {m : Action A} → Triple fr m fr' → Leads fr m (λ a. fr')
Triple-Leads m-ok = record { post = λ t. m-ok.post t }

pub Leads-Triple :
    {A : Type 0} {fr fr' : Frame} {m : Action A} → Leads fr m (λ a. fr') → Triple fr m fr'
Leads-Triple m-ok = record { post = λ t. m-ok.post t }

pub bind :
    {A B : Type 0} {fr mid fr' : Frame} (m : Action A) (k : A → Action B)
    → Triple fr m mid
    → ((a : A) → Triple mid (k a) fr')
    → Triple fr (m >>= k) fr'
bind m k m-ok rest = Leads-Triple (bind-Leads m k (Triple-Leads m-ok) (λ a. Triple-Leads (rest a)))

pub same :
    {A B : Type 0} {fr fr' : Frame} (m : Action A) (k : A → Action B)
    → Behaves m
    → ((a : A) → Triple fr (k a) fr')
    → Triple fr (m >>= k) fr'
same {fr = fr} m k m-ok rest = bind m k (m-ok.triple fr) rest

pub by_frame :
    {A : Type 0} {m : Action A}
    → ((s h r : ℕ) (c : ContinueJump) (b rt : Shape)
        → Triple (frame s h r c b rt) m (frame s h r c b rt))
    → Behaves m
by_frame {m = m} each = record { triple = at }
  where
    at : (fr : Frame) → Triple fr m fr
    at (frame s h r c b rt) = each s h r c b rt

-- what is translated inside, in a list, in a pointer and in a pair
abbrev pub Each : {A : Type 0} → (A → Type 0) → List A → Type 0
Each P [] = Unit
Each P (x ∷ xs) = P x × Each P xs

abbrev pub May : {A : Type 0} → (A → Type 0) → Option A → Type 0
May P none = Unit
May P (some x) = P x

abbrev pub Both : Action ℕ × Action ℕ → Type 0
Both (m, k) = Behaves m × Behaves k
