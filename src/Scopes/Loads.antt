-- ===== src/Scopes/Loads.antt =====
-- DO_IDENTIFIER after DO_ASSIGN and after DO_DECLARE.
use chloride.Base.{
  ℕ, ◌≡◌, ◌≢◌, refl, sym, ap, ◌∙◌, ◌⊎◌, inl, inr, Bool-cases, not, Option, none, some, List, ◌∷◌,
  ◌==◌, if◌then◌else◌,
}
use chloride.Base.Run.{ok, Returns}
use chloride.Scopes.{Scope, load_variable, after_walk, runtime_assignment, runtime_declaration}
use chloride.Scopes.Bound.{
  value_in, IsSound, IsRoomy, AllSound, AllRoomy, bound, lookup_scope-value_in, load_variable-bound,
  Stored,
}
use chloride.Scopes.Changed.{
  Assigned, Walked, bound-Stored, bound-Assigned, AllSound-Assigned, assign_known-Walked,
  insert_new-Stored,
}

-- The name loads this value from the one chain, and every other name what it loads from the other.
abbrev pub Loads : (hash value : ℕ) → List Scope → List Scope → Type 0
Loads hash value stack chain =
    (q : ℕ) → load_variable chain q ≡ (if q == hash then ok (some value) else load_variable stack q)

load-from_bound :
    (stack chain : List Scope) (hash value : ℕ)
    → AllSound stack
    → AllSound chain
    → ((q : ℕ) → bound chain q ≡ (if q == hash then some value else bound stack q))
    → Loads hash value stack chain
load-from_bound stack chain hash value v w same q = elim (Bool-cases (q == hash)) [
  | inl equal ↦ rw equal (load_variable-bound chain q w ∙ ap ok (same q ∙ rw equal))
  | inr other ↦ rw other (
      load_variable-bound chain q w
      ∙ ap ok (same q ∙ rw other)
      ∙ sym (load_variable-bound stack q v))
]

-- The innermost scope alone got the value, as for a name that no scope knows.
abbrev pub Added : (hash value : ℕ) → Scope → List Scope → List Scope → Type 0
Added hash value s prev chain = (t : Scope) × (chain ≡ t ∷ prev) × Stored s hash value t

Added-Loads :
    (hash value : ℕ) (s : Scope) (prev chain : List Scope)
    → value ≢ 0
    → AllSound (s ∷ prev)
    → Added hash value s prev chain
    → AllSound chain × Loads hash value (s ∷ prev) chain
Added-Loads hash value s prev chain given (v, vs) (t, same, w) =
    let sound : AllSound (t ∷ prev) = (w.sound, vs) in
    rw same (
      sound,
      load-from_bound (s ∷ prev) (t ∷ prev) hash value (v, vs) sound
          (λ q. bound-Stored s t prev hash value q given w),
    )

after_walk-Loads :
    (keys s : Scope) (prev : List Scope) (hash fresh value : ℕ) (o : Option (List Scope))
    → IsSound keys
    → IsRoomy keys
    → AllSound (s ∷ prev)
    → IsRoomy s
    → value ≢ 0
    → Walked hash value (s ∷ prev) o
    → Returns (after_walk keys (s ∷ prev) hash fresh value o) (λ r.
      (Assigned hash value (s ∷ prev) r.1
        ⊎ ((load_variable (s ∷ prev) hash ≡ ok none) × Added hash value s prev r.1))
      × IsSound r.0
      × AllSound r.1
      × Loads hash value (s ∷ prev) r.1)
after_walk-Loads keys s prev hash fresh value (some chain) vk rk v room given walked =
    let sound = AllSound-Assigned (s ∷ prev) chain hash value v walked in
    (
      (keys, chain),
      refl,
      (
        inl walked,
        vk,
        sound,
        load-from_bound (s ∷ prev) chain hash value v sound
            (λ q. bound-Assigned (s ∷ prev) chain hash value q given walked),
      ),
    )
after_walk-Loads keys s prev hash fresh value none vk rk (v, vs) room given unknown =
    let (r, runs, (sound, added)) = insert_new-Stored keys s prev hash fresh value vk rk v room in
    let (chain, loads) = Added-Loads hash value s prev r.1 given (v, vs) added in
    let lost = load_variable-bound (s ∷ prev) hash (v, vs) ∙ ap ok unknown in
    (r, runs, (inr (lost, added), sound, chain, loads))

-- In sound scopes with room to double, runtime_assignment of a value that is not NULL ends normally and
-- keeps the scopes sound. The innermost scope that knows the name gets the value, or the innermost of
-- all if none does, and the others stay; then the name loads the value, and any other name what it
-- loaded before.
pub runtime_assignment-Loads :
    (keys s : Scope) (prev : List Scope) (hash fresh value : ℕ)
    → IsSound keys
    → IsRoomy keys
    → AllSound (s ∷ prev)
    → AllRoomy (s ∷ prev)
    → value ≢ 0
    → Returns (runtime_assignment keys (s ∷ prev) hash fresh value) (λ r.
      (Assigned hash value (s ∷ prev) r.1
        ⊎ ((load_variable (s ∷ prev) hash ≡ ok none) × Added hash value s prev r.1))
      × IsSound r.0
      × AllSound r.1
      × Loads hash value (s ∷ prev) r.1)
unfolding runtime_assignment
runtime_assignment-Loads keys s prev hash fresh value vk rk v room given =
    let (o, runs, walked) = assign_known-Walked (s ∷ prev) hash value v room in
    rw runs (after_walk-Loads keys s prev hash fresh value o vk rk v (room.0) given walked)

-- In sound scopes with room to double, runtime_declaration of a value that is not NULL ends normally and
-- keeps the scopes sound; it reports an error exactly if the innermost scope knows the name. With the
-- error or without, the innermost scope alone gets the value; then the name loads it, and any other
-- name what it loaded before.
pub runtime_declaration-Loads :
    (keys s : Scope) (prev : List Scope) (hash fresh value : ℕ)
    → IsSound keys
    → IsRoomy keys
    → AllSound (s ∷ prev)
    → AllRoomy (s ∷ prev)
    → value ≢ 0
    → Returns (runtime_declaration keys (s ∷ prev) hash fresh value) (λ r.
      (r.1 ≡ not (value_in s hash == 0))
      × Added hash value s prev r.0.1
      × IsSound r.0.0
      × AllSound r.0.1
      × Loads hash value (s ∷ prev) r.0.1)
unfolding runtime_declaration
runtime_declaration-Loads keys s prev hash fresh value vk rk (v, vs) (room, rooms) given =
    let found = lookup_scope-value_in s hash v in
    let (r, runs, (sound, added)) = insert_new-Stored keys s prev hash fresh value vk rk v room in
    let (chain, loads) = Added-Loads hash value s prev r.1 given (v, vs) added in
    rw (found, runs) ((r, not (value_in s hash == 0)), refl, (refl, added, sound, chain, loads))
