-- ===== src/Translator/Restore/Moves.antt =====
-- The steps of Translator/Machine that change the frame, each with the rule that binds what follows it.
use chloride.Base.{ℕ, suc, ◌%◌, ap, ap₂, ◌∙◌, arith}
use chloride.Translator.Machine.{
  ContinueJump, Action, ◌>>=◌, take_register, give_register, keep_register, enter_scope, lower,
  leave_scope, enter_handler, leave_handler, close_break, close_return, open_break, open_return,
}
use chloride.Translator.Restore.Frame.{
  Shape, opened, closed, Frame, still, Post, Triple, bind, frame,
}

module _ {s h r : ℕ} {c : ContinueJump} {b rt : Shape} where
  enter_scope-Triple : Triple (frame s h r c b rt) enter_scope (frame (suc s) h r c b rt)
  unfolding enter_scope Post
  enter_scope-Triple = record {
    post = λ t. (
      still,
      λ hold quiet. record {
        no_error = hold.no_error;
        scope = ap (λ (n : ℕ). suc n) hold.scope;
        handler = hold.handler;
        registers = hold.registers;
        continues = hold.continues;
        breaks = hold.breaks;
        returns = hold.returns;
      },
    );
  }

  pub step-enter_scope :
      {B : Type 0} {fr : Frame} (k : Unit → Action B)
      → ((a : Unit) → Triple (frame (suc s) h r c b rt) (k a) fr)
      → Triple (frame s h r c b rt) (enter_scope >>= k) fr
  step-enter_scope k rest = bind _ k enter_scope-Triple rest

  leave_scope-Triple : Triple (frame (suc s) h r c b rt) leave_scope (frame s h r c b rt)
  unfolding leave_scope Post
  leave_scope-Triple = record {
    post = λ t. (
      still,
      λ hold quiet. record {
        no_error = hold.no_error;
        scope = ap lower hold.scope;
        handler = hold.handler;
        registers = hold.registers;
        continues = hold.continues;
        breaks = hold.breaks;
        returns = hold.returns;
      },
    );
  }

  pub step-leave_scope :
      {B : Type 0} {fr : Frame} (k : Unit → Action B)
      → ((a : Unit) → Triple (frame s h r c b rt) (k a) fr)
      → Triple (frame (suc s) h r c b rt) (leave_scope >>= k) fr
  step-leave_scope k rest = bind _ k leave_scope-Triple rest

  enter_handler-Triple : Triple (frame s h r c b rt) enter_handler (frame s (suc h) r c b rt)
  unfolding enter_handler Post
  enter_handler-Triple = record {
    post = λ t. (
      still,
      λ hold quiet. record {
        no_error = hold.no_error;
        scope = hold.scope;
        handler = ap (λ (n : ℕ). suc n) hold.handler;
        registers = hold.registers;
        continues = hold.continues;
        breaks = hold.breaks;
        returns = hold.returns;
      },
    );
  }

  pub step-enter_handler :
      {B : Type 0} {fr : Frame} (k : Unit → Action B)
      → ((a : Unit) → Triple (frame s (suc h) r c b rt) (k a) fr)
      → Triple (frame s h r c b rt) (enter_handler >>= k) fr
  step-enter_handler k rest = bind _ k enter_handler-Triple rest

  leave_handler-Triple : Triple (frame s (suc h) r c b rt) leave_handler (frame s h r c b rt)
  unfolding leave_handler Post
  leave_handler-Triple = record {
    post = λ t. (
      still,
      λ hold quiet. record {
        no_error = hold.no_error;
        scope = hold.scope;
        handler = ap lower hold.handler;
        registers = hold.registers;
        continues = hold.continues;
        breaks = hold.breaks;
        returns = hold.returns;
      },
    );
  }

  pub step-leave_handler :
      {B : Type 0} {fr : Frame} (k : Unit → Action B)
      → ((a : Unit) → Triple (frame s h r c b rt) (k a) fr)
      → Triple (frame s (suc h) r c b rt) (leave_handler >>= k) fr
  step-leave_handler k rest = bind _ k leave_handler-Triple rest

  pub take_register-Triple : Triple (frame s h r c b rt) take_register (frame s h (suc r) c b rt)
  unfolding take_register Post
  take_register-Triple = record {
    post = λ t. (
      still,
      λ hold quiet. record {
        no_error = hold.no_error;
        scope = hold.scope;
        handler = hold.handler;
        registers = omega (arith, hold.registers);
        continues = hold.continues;
        breaks = hold.breaks;
        returns = hold.returns;
      },
    );
  }

  pub step-take_register :
      {B : Type 0} {fr : Frame} (k : ℕ → Action B)
      → ((a : ℕ) → Triple (frame s h (suc r) c b rt) (k a) fr)
      → Triple (frame s h r c b rt) (take_register >>= k) fr
  step-take_register k rest = bind _ k take_register-Triple rest

  pub give_register-Triple : Triple (frame s h (suc r) c b rt) give_register (frame s h r c b rt)
  unfolding give_register Post
  give_register-Triple = record {
    post = λ t. (
      still,
      λ hold quiet. record {
        no_error = hold.no_error;
        scope = hold.scope;
        handler = hold.handler;
        registers = omega (arith, hold.registers);
        continues = hold.continues;
        breaks = hold.breaks;
        returns = hold.returns;
      },
    );
  }

  pub step-give_register :
      {B : Type 0} {fr : Frame} (k : Unit → Action B)
      → ((a : Unit) → Triple (frame s h r c b rt) (k a) fr)
      → Triple (frame s h (suc r) c b rt) (give_register >>= k) fr
  step-give_register k rest = bind _ k give_register-Triple rest

  keep_register-Triple : Triple (frame s h (suc r) c b rt) keep_register (frame s h r c b rt)
  unfolding keep_register Post
  keep_register-Triple = record {
    post = λ t. (
      still,
      λ hold quiet. record {
        no_error = hold.no_error;
        scope = hold.scope;
        handler = hold.handler;
        registers = hold.registers ∙ ap (λ (n : ℕ). n % 256) (omega arith);
        continues = hold.continues;
        breaks = hold.breaks;
        returns = hold.returns;
      },
    );
  }

  pub step-keep_register :
      {B : Type 0} {fr : Frame} (k : Unit → Action B)
      → ((a : Unit) → Triple (frame s h r c b rt) (k a) fr)
      → Triple (frame s h (suc r) c b rt) (keep_register >>= k) fr
  step-keep_register k rest = bind _ k keep_register-Triple rest

  open_break-Triple : Triple (frame s h r c b rt) open_break (frame s h r c (opened h s) rt)
  unfolding open_break Post
  open_break-Triple = record {
    post = λ t. (
      still,
      λ hold quiet. record {
        no_error = hold.no_error;
        scope = hold.scope;
        handler = hold.handler;
        registers = hold.registers;
        continues = hold.continues;
        breaks = ap₂ (λ (x y : ℕ). opened x y) hold.handler hold.scope;
        returns = hold.returns;
      },
    );
  }

  pub step-open_break :
      {B : Type 0} {fr : Frame} (k : Unit → Action B)
      → ((a : Unit) → Triple (frame s h r c (opened h s) rt) (k a) fr)
      → Triple (frame s h r c b rt) (open_break >>= k) fr
  step-open_break k rest = bind _ k open_break-Triple rest

  pub open_return-Triple : Triple (frame s h r c b rt) open_return (frame s h r c b (opened h s))
  unfolding open_return Post
  open_return-Triple = record {
    post = λ t. (
      still,
      λ hold quiet. record {
        no_error = hold.no_error;
        scope = hold.scope;
        handler = hold.handler;
        registers = hold.registers;
        continues = hold.continues;
        breaks = hold.breaks;
        returns = ap₂ (λ (x y : ℕ). opened x y) hold.handler hold.scope;
      },
    );
  }

  pub step-open_return :
      {B : Type 0} {fr : Frame} (k : Unit → Action B)
      → ((a : Unit) → Triple (frame s h r c b (opened h s)) (k a) fr)
      → Triple (frame s h r c b rt) (open_return >>= k) fr
  step-open_return k rest = bind _ k open_return-Triple rest

  close_break-Triple : Triple (frame s h r c b rt) close_break (frame s h r c (closed b) rt)
  unfolding close_break Post
  close_break-Triple = record {
    post = λ t. (
      still,
      λ hold quiet. record {
        no_error = hold.no_error;
        scope = hold.scope;
        handler = hold.handler;
        registers = hold.registers;
        continues = hold.continues;
        breaks = ap (λ (x : Shape). closed x) hold.breaks;
        returns = hold.returns;
      },
    );
  }

  pub step-close_break :
      {B : Type 0} {fr : Frame} (k : Unit → Action B)
      → ((a : Unit) → Triple (frame s h r c (closed b) rt) (k a) fr)
      → Triple (frame s h r c b rt) (close_break >>= k) fr
  step-close_break k rest = bind _ k close_break-Triple rest

  close_return-Triple : Triple (frame s h r c b rt) close_return (frame s h r c b (closed rt))
  unfolding close_return Post
  close_return-Triple = record {
    post = λ t. (
      still,
      λ hold quiet. record {
        no_error = hold.no_error;
        scope = hold.scope;
        handler = hold.handler;
        registers = hold.registers;
        continues = hold.continues;
        breaks = hold.breaks;
        returns = ap (λ (x : Shape). closed x) hold.returns;
      },
    );
  }

  pub step-close_return :
      {B : Type 0} {fr : Frame} (k : Unit → Action B)
      → ((a : Unit) → Triple (frame s h r c b (closed rt)) (k a) fr)
      → Triple (frame s h r c b rt) (close_return >>= k) fr
  step-close_return k rest = bind _ k close_return-Triple rest
