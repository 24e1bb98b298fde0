-- ===== src/Translator/Restore/Jumps.antt =====
-- The rules for the saved copies of the three jumps.
use chloride.Base.{ℕ, refl, ap₂, ◌∙◌, some}
use chloride.Translator.Machine.{
  JumpContext, ContinueJump, Translated, Outcome, Action, ◌>>=◌, get_break, set_break, get_return,
  set_return, get_continue, set_continue, continue_at, next, left, exit_failure, fault,
}
use chloride.Translator.Restore.Frame.{Shape, shape, Frame, still, Post, Triple, bind, frame}

abbrev continuing : ℕ → ℕ → ℕ → ContinueJump
continuing start h s = record { pos = some start; exception_handler_depth = h; scope_depth = s }

get_break-Post :
    {B : Type 0} (s h r s' h' r' : ℕ) (c c' : ContinueJump) (b rt rt' : Shape) (t : Translated)
    (o : Outcome B)
    → Post
        (frame s h r c (shape t.break_jump) rt)
        (λ a. frame s' h' r' c' (shape t.break_jump) rt')
        t
        o
    → Post (frame s h r c b rt) (λ a. frame s' h' r' c' b rt') t o
unfolding Post
get_break-Post s h r s' h' r' c c' b rt rt' t (next a u) (le, f) = (
  le,
  λ hold quiet.
      let res =
        f
          (record {
            no_error = hold.no_error;
            scope = hold.scope;
            handler = hold.handler;
            registers = hold.registers;
            continues = hold.continues;
            breaks = refl;
            returns = hold.returns;
          })
          quiet in
      record {
        no_error = res.no_error;
        scope = res.scope;
        handler = res.handler;
        registers = res.registers;
        continues = res.continues;
        breaks = res.breaks ∙ hold.breaks;
        returns = res.returns;
      },
)
get_break-Post s h r s' h' r' c c' b rt rt' t (left u) (le, f) = (
  le,
  λ hold quiet.
      f
        (record {
          no_error = hold.no_error;
          scope = hold.scope;
          handler = hold.handler;
          registers = hold.registers;
          continues = hold.continues;
          breaks = refl;
          returns = hold.returns;
        })
        quiet,
)
get_break-Post s h r s' h' r' c c' b rt rt' t exit_failure p = tt
get_break-Post s h r s' h' r' c c' b rt rt' t fault p = tt

pub step-get_break :
    {B : Type 0} {s h r s' h' r' : ℕ} {c c' : ContinueJump} {b rt rt' : Shape}
    (k : JumpContext → Action B)
    → ((j : JumpContext)
        → Triple (frame s h r c (shape j) rt) (k j) (frame s' h' r' c' (shape j) rt'))
    → Triple (frame s h r c b rt) (get_break >>= k) (frame s' h' r' c' b rt')
unfolding get_break ◌>>=◌
step-get_break k rest = record {
  post =
      λ t. get_break-Post _ _ _ _ _ _ _ _ _ _ _ t (k t.break_jump t) ((rest t.break_jump).post t);
}

get_return-Post :
    {B : Type 0} (s h r s' h' r' : ℕ) (c c' : ContinueJump) (b rt b' : Shape) (t : Translated)
    (o : Outcome B)
    → Post
        (frame s h r c b (shape t.return_jump))
        (λ a. frame s' h' r' c' b' (shape t.return_jump))
        t
        o
    → Post (frame s h r c b rt) (λ a. frame s' h' r' c' b' rt) t o
unfolding Post
get_return-Post s h r s' h' r' c c' b rt b' t (next a u) (le, f) = (
  le,
  λ hold quiet.
      let res =
        f
          (record {
            no_error = hold.no_error;
            scope = hold.scope;
            handler = hold.handler;
            registers = hold.registers;
            continues = hold.continues;
            breaks = hold.breaks;
            returns = refl;
          })
          quiet in
      record {
        no_error = res.no_error;
        scope = res.scope;
        handler = res.handler;
        registers = res.registers;
        continues = res.continues;
        breaks = res.breaks;
        returns = res.returns ∙ hold.returns;
      },
)
get_return-Post s h r s' h' r' c c' b rt b' t (left u) (le, f) = (
  le,
  λ hold quiet.
      f
        (record {
          no_error = hold.no_error;
          scope = hold.scope;
          handler = hold.handler;
          registers = hold.registers;
          continues = hold.continues;
          breaks = hold.breaks;
          returns = refl;
        })
        quiet,
)
get_return-Post s h r s' h' r' c c' b rt b' t exit_failure p = tt
get_return-Post s h r s' h' r' c c' b rt b' t fault p = tt

pub step-get_return :
    {B : Type 0} {s h r s' h' r' : ℕ} {c c' : ContinueJump} {b rt b' : Shape}
    (k : JumpContext → Action B)
    → ((j : JumpContext)
        → Triple (frame s h r c b (shape j)) (k j) (frame s' h' r' c' b' (shape j)))
    → Triple (frame s h r c b rt) (get_return >>= k) (frame s' h' r' c' b' rt)
unfolding get_return ◌>>=◌
step-get_return k rest = record {
  post = λ t.
      get_return-Post _ _ _ _ _ _ _ _ _ _ _ t (k t.return_jump t) ((rest t.return_jump).post t);
}

get_continue-Post :
    {B : Type 0} (s h r s' h' r' : ℕ) (c : ContinueJump) (b rt b' rt' : Shape) (t : Translated)
    (o : Outcome B)
    → Post (frame s h r t.continue_jump b rt) (λ a. frame s' h' r' t.continue_jump b' rt') t o
    → Post (frame s h r c b rt) (λ a. frame s' h' r' c b' rt') t o
unfolding Post
get_continue-Post s h r s' h' r' c b rt b' rt' t (next a u) (le, f) = (
  le,
  λ hold quiet.
      let res =
        f
          (record {
            no_error = hold.no_error;
            scope = hold.scope;
            handler = hold.handler;
            registers = hold.registers;
            continues = refl;
            breaks = hold.breaks;
            returns = hold.returns;
          })
          quiet in
      record {
        no_error = res.no_error;
        scope = res.scope;
        handler = res.handler;
        registers = res.registers;
        continues = res.continues ∙ hold.continues;
        breaks = res.breaks;
        returns = res.returns;
      },
)
get_continue-Post s h r s' h' r' c b rt b' rt' t (left u) (le, f) = (
  le,
  λ hold quiet.
      f
        (record {
          no_error = hold.no_error;
          scope = hold.scope;
          handler = hold.handler;
          registers = hold.registers;
          continues = refl;
          breaks = hold.breaks;
          returns = hold.returns;
        })
        quiet,
)
get_continue-Post s h r s' h' r' c b rt b' rt' t exit_failure p = tt
get_continue-Post s h r s' h' r' c b rt b' rt' t fault p = tt

pub step-get_continue :
    {B : Type 0} {s h r s' h' r' : ℕ} {c : ContinueJump} {b rt b' rt' : Shape}
    (k : ContinueJump → Action B)
    → ((j : ContinueJump) → Triple (frame s h r j b rt) (k j) (frame s' h' r' j b' rt'))
    → Triple (frame s h r c b rt) (get_continue >>= k) (frame s' h' r' c b' rt')
unfolding get_continue ◌>>=◌
step-get_continue k rest = record {
  post = λ t.
      get_continue-Post _ _ _ _ _ _ _ _ _ _ _ t (k t.continue_jump t)
        ((rest t.continue_jump).post t);
}

module _ {s h r : ℕ} {c : ContinueJump} {b rt : Shape} where
  set_break-Triple :
      (j : JumpContext) → Triple (frame s h r c b rt) (set_break j) (frame s h r c (shape j) rt)
  unfolding set_break Post
  set_break-Triple j = record {
    post = λ t. (
      still,
      λ hold quiet. record {
        no_error = hold.no_error;
        scope = hold.scope;
        handler = hold.handler;
        registers = hold.registers;
        continues = hold.continues;
        breaks = refl;
        returns = hold.returns;
      },
    );
  }

  pub step-set_break :
      (j : JumpContext) {B : Type 0} {fr : Frame} (k : Unit → Action B)
      → ((a : Unit) → Triple (frame s h r c (shape j) rt) (k a) fr)
      → Triple (frame s h r c b rt) (set_break j >>= k) fr
  step-set_break j k rest = bind _ k (set_break-Triple j) rest

  pub set_return-Triple :
      (j : JumpContext) → Triple (frame s h r c b rt) (set_return j) (frame s h r c b (shape j))
  unfolding set_return Post
  set_return-Triple j = record {
    post = λ t. (
      still,
      λ hold quiet. record {
        no_error = hold.no_error;
        scope = hold.scope;
        handler = hold.handler;
        registers = hold.registers;
        continues = hold.continues;
        breaks = hold.breaks;
        returns = refl;
      },
    );
  }

  pub step-set_return :
      (j : JumpContext) {B : Type 0} {fr : Frame} (k : Unit → Action B)
      → ((a : Unit) → Triple (frame s h r c b (shape j)) (k a) fr)
      → Triple (frame s h r c b rt) (set_return j >>= k) fr
  step-set_return j k rest = bind _ k (set_return-Triple j) rest

  set_continue-Triple :
      (j : ContinueJump) → Triple (frame s h r c b rt) (set_continue j) (frame s h r j b rt)
  unfolding set_continue Post
  set_continue-Triple j = record {
    post = λ t. (
      still,
      λ hold quiet. record {
        no_error = hold.no_error;
        scope = hold.scope;
        handler = hold.handler;
        registers = hold.registers;
        continues = refl;
        breaks = hold.breaks;
        returns = hold.returns;
      },
    );
  }

  pub step-set_continue :
      (j : ContinueJump) {B : Type 0} {fr : Frame} (k : Unit → Action B)
      → ((a : Unit) → Triple (frame s h r j b rt) (k a) fr)
      → Triple (frame s h r c b rt) (set_continue j >>= k) fr
  step-set_continue j k rest = bind _ k (set_continue-Triple j) rest

  continue_at-Triple :
      (start : ℕ)
      → Triple (frame s h r c b rt) (continue_at start) (frame s h r (continuing start h s) b rt)
  unfolding continue_at Post
  continue_at-Triple start = record {
    post = λ t. (
      still,
      λ hold quiet. record {
        no_error = hold.no_error;
        scope = hold.scope;
        handler = hold.handler;
        registers = hold.registers;
        continues = ap₂ (λ (x y : ℕ). continuing start x y) hold.handler hold.scope;
        breaks = hold.breaks;
        returns = hold.returns;
      },
    );
  }

  pub step-continue_at :
      (start : ℕ) {B : Type 0} {fr : Frame} (k : Unit → Action B)
      → ((a : Unit) → Triple (frame s h r (continuing start h s) b rt) (k a) fr)
      → Triple (frame s h r c b rt) (continue_at start >>= k) fr
  step-continue_at start k rest = bind _ k (continue_at-Triple start) rest
