-- ===== src/Translator/Restore/Destructure.antt =====
-- The functions of Translator/Destructure restore what they change, if what is translated inside does.
use chloride.Base.{
  ℕ, suc, ◌≡◌, refl, ap, ◌∙◌, subst, true, false, Option, none, some, List, [], ◌∷◌, ◌++◌,
}
use chloride.Translator.Machine.{ContinueJump, Action, pure, ◌>>=◌}
use chloride.Translator.Destructure.{
  Inner, destructure_name, index_items, index_rest, index_handler, destructure_index, key_name,
  key_value, store_key, key_items, delete_keys, give_registers, key_rest, key_parts, takes_nothing,
  destructure_key,
}
use chloride.Translator.Restore.Frame.{
  Shape, Frame, Leads, Triple, Behaves, bind-Leads, Triple-Leads, Leads-Triple, bind, by_frame,
  Each, May, frame,
}
use chloride.Translator.Restore.Steps.{
  emit-Behaves, here-Behaves, pure-Behaves, pure-Leads, set_all_registers-Behaves, check-Behaves,
}
use chloride.Translator.Restore.Moves.{take_register-Triple, give_register-Triple}
use chloride.Translator.Restore.Rules.{steps}
use chloride.Translator.Restore.Calls.{if-Behaves}

abbrev pub IsInner : Inner → Type 0
IsInner inner = (register : ℕ) → Behaves (inner register)

pub destructure_name-Behaves :
    (siphash : List ℕ → ℕ) (name : List ℕ) (line column register : ℕ)
    → Behaves (destructure_name siphash name line column register)
unfolding destructure_name
destructure_name-Behaves siphash name line column register =
    by_frame (λ s h r c b rt. search steps depth 10)

index_items-Behaves :
    (counter next_register i : ℕ) (items : List Inner)
    → Each IsInner items
    → Behaves (index_items counter next_register i items)
unfolding index_items
index_items-Behaves counter next_register i [] oks = pure-Behaves tt
index_items-Behaves counter next_register i (inner ∷ inners) (ok, oks) =
    let first = ok 0 in
    let rest = index_items-Behaves counter next_register (suc i) inners oks in
    by_frame (λ s h r c b rt. search steps depth 10)

index_rest-Behaves :
    (iterator next_register : ℕ) (rest : Option Inner)
    → May IsInner rest
    → Behaves (index_rest iterator next_register rest)
unfolding index_rest
index_rest-Behaves iterator next_register none ok = pure-Behaves tt
index_rest-Behaves iterator next_register (some rest) ok =
    let last = ok 0 in by_frame (λ s h r c b rt. search steps depth 10)

index_handler-Behaves :
    (iterator counter count jump_index : ℕ)
    → Behaves (index_handler iterator counter count jump_index)
unfolding index_handler
index_handler-Behaves iterator counter count jump_index =
    by_frame (λ s h r c b rt. search steps depth 10)

pub destructure_index-Behaves :
    (items : List Inner) (rest : Option Inner) (register : ℕ)
    → Each IsInner items
    → May IsInner rest
    → Behaves (destructure_index items rest register)
unfolding destructure_index
destructure_index-Behaves [] rest register oks rest-ok = here-Behaves
destructure_index-Behaves (inner ∷ inners) rest register oks rest-ok = by_frame (λ s h r c b rt.
    search (steps, index_items-Behaves, index_rest-Behaves, index_handler-Behaves) depth 50 fits
      3000)

pub key_name-Behaves : (siphash : List ℕ → ℕ) (name : List ℕ) → Behaves (key_name siphash name)
unfolding key_name
key_name-Behaves siphash name = by_frame (λ s h r c b rt. search steps depth 10)

pub key_value-Behaves : {key : Action ℕ} → Behaves key → Behaves (key_value key)
unfolding key_value
key_value-Behaves ok = by_frame (λ s h r c b rt. search steps depth 10)

abbrev pub IsKey : Action Unit × Inner → Type 0
IsKey (key, inner) = Behaves key × IsInner inner

delete_keys-Behaves : (register : ℕ) (rs : List ℕ) → Behaves (delete_keys register rs)
unfolding delete_keys
delete_keys-Behaves register [] = pure-Behaves tt
delete_keys-Behaves register (k ∷ ks) =
    let rest = delete_keys-Behaves register ks in by_frame (λ s h r c b rt. search steps depth 10)

-- the registers of some keys beside `r` others
abbrev held : List ℕ → ℕ → ℕ
held [] r = r
held (k ∷ ks) r = suc (held ks r)

held-suc : (ks : List ℕ) (r : ℕ) → suc (held ks r) ≡ held ks (suc r)
held-suc [] r = refl
held-suc (k ∷ ks) r = ap (λ (n : ℕ). suc n) (held-suc ks r)

held-append : (ks ks' : List ℕ) (r : ℕ) → held (ks ++ ks') r ≡ held ks' (held ks r)
held-append [] ks' r = refl
held-append (k ∷ ks) ks' r = ap (λ (n : ℕ). suc n) (held-append ks ks' r) ∙ held-suc ks' (held ks r)

module _ {s h r : ℕ} {c : ContinueJump} {b rt : Shape} where
  give_registers-Triple :
      (ks : List ℕ) → Triple (frame s h (held ks r) c b rt) (give_registers ks) (frame s h r c b rt)
  unfolding give_registers
  give_registers-Triple [] = search steps
  give_registers-Triple (k ∷ ks) = bind _ _ give_register-Triple (λ a. give_registers-Triple ks)

  step-give_registers :
      (ks : List ℕ) {B : Type 0} {fr : Frame} (k : Unit → Action B)
      → ((a : Unit) → Triple (frame s h r c b rt) (k a) fr)
      → Triple (frame s h (held ks r) c b rt) (give_registers ks >>= k) fr
  step-give_registers ks k rest = bind _ k (give_registers-Triple ks) rest

store_key-Behaves : Behaves (store_key false)
unfolding store_key
store_key-Behaves = pure-Behaves []

store_key-Leads :
    (s h r : ℕ) (c : ContinueJump) (b rt : Shape)
    → Leads (frame s h r c b rt) (store_key true) (λ ks. frame s h (held ks r) c b rt)
unfolding store_key
store_key-Leads s h r c b rt = bind-Leads _ _ (Triple-Leads take_register-Triple) (λ k.
    bind-Leads _ _ (Triple-Leads (set_all_registers-Behaves.triple _)) (λ a.
      bind-Leads _ _ (Triple-Leads ((emit-Behaves _).triple _))
        (λ a. pure-Leads (k ∷ []) (λ ks. frame s h (held ks r) c b rt))))

-- without a `*rest` no register is held
key_items-Behaves :
    (register : ℕ) (items : List (Action Unit × Inner))
    → Each IsKey items
    → Behaves (key_items register false items)
unfolding key_items
key_items-Behaves register [] oks = pure-Behaves []
key_items-Behaves register ((key, inner) ∷ items) ((key-ok, ok), oks) =
    let first = ok 0 in
    let rest = key_items-Behaves register items oks in
    by_frame (λ s h r c b rt. search (steps, store_key-Behaves) depth 20)

-- with one, one for each key
key_items-Leads :
    (register : ℕ) (items : List (Action Unit × Inner)) (s h r : ℕ) (c : ContinueJump)
    (b rt : Shape)
    → Each IsKey items
    → Leads
        (frame s h r c b rt)
        (key_items register true items)
        (λ ks. frame s h (held ks r) c b rt)
unfolding key_items
key_items-Leads register [] s h r c b rt oks = pure-Leads [] (λ ks. frame s h (held ks r) c b rt)
key_items-Leads register ((key, inner) ∷ items) s h r c b rt ((key-ok, ok), oks) =
    bind-Leads _ _ (Triple-Leads ((emit-Behaves _).triple _)) (λ a.
      bind-Leads _ _ (Triple-Leads (key-ok.triple _)) (λ a.
        bind-Leads _ _ (store_key-Leads s h r c b rt) (λ ks.
          bind-Leads _ _ (Triple-Leads ((emit-Behaves _).triple _)) (λ a.
            bind-Leads _ _ (Triple-Leads ((ok 0).triple _)) (λ a.
              bind-Leads _ _ (Triple-Leads (check-Behaves.triple _)) (λ a.
                bind-Leads _ _ (key_items-Leads register items s h (held ks r) c b rt oks) (λ ks'.
                  subst
                    (λ (n : ℕ).
                      Leads (frame s h n c b rt) (pure (ks ++ ks'))
                        (λ l. frame s h (held l r) c b rt))
                    (held-append ks ks' r)
                    (pure-Leads (ks ++ ks') (λ l. frame s h (held l r) c b rt)))))))))

key_rest-Triple :
    (register : ℕ) (ks : List ℕ) (rest : Inner) {s h r : ℕ} {c : ContinueJump} {b rt : Shape}
    → IsInner rest
    → Triple (frame s h (held ks r) c b rt) (key_rest register ks rest) (frame s h r c b rt)
unfolding key_rest
key_rest-Triple register ks rest ok =
    search (steps, delete_keys-Behaves, ok, step-give_registers) depth 30

key_parts-Behaves :
    (items : List (Action Unit × Inner)) (rest : Option Inner) (register : ℕ)
    → Each IsKey items
    → May IsInner rest
    → Behaves (key_parts items rest register)
unfolding key_parts
key_parts-Behaves items none register oks ok =
    by_frame (λ s h r c b rt. search (steps, key_items-Behaves) depth 10)
key_parts-Behaves items (some rest) register oks ok = by_frame (λ s h r c b rt. Leads-Triple (
    bind-Leads _ _ (key_items-Leads register items s h r c b rt oks)
      (λ ks. Triple-Leads (key_rest-Triple register ks rest ok))))

pub destructure_key-Behaves :
    (items : List (Action Unit × Inner)) (rest : Option Inner) (register : ℕ)
    → Each IsKey items
    → May IsInner rest
    → Behaves (destructure_key items rest register)
unfolding destructure_key
destructure_key-Behaves items rest register oks ok =
    if-Behaves (takes_nothing items rest) _ _ here-Behaves
      (by_frame (λ s h r c b rt. search (steps, key_parts-Behaves) depth 20))
