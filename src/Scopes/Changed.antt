-- ===== src/Scopes/Changed.antt =====
-- Assignment, declaration and deletion change one scope, and what load_variable then finds.
use chloride.Base.{
  ℕ, ◌≡◌, ◌≢◌, refl, ap, ◌∙◌, ◌⊎◌, inl, inr, Bool-cases, true, false, Option, none, some, List, [],
  ◌∷◌, ◌==◌, if◌then◌else◌, arith,
}
use chloride.Base.Run.{ok, Returns}
use chloride.Scopes.{Scope, add_to_scope, assignable_key, insert_new, assign_known, extended}
use chloride.Scopes.Bound.{
  value_in, IsSound, IsRoomy, AllSound, AllRoomy, bound, lookup_scope-value_in, Stored,
  insert_scope-Stored,
}

-- The innermost scope that knows the name got the value, and the others are as they were.
abbrev pub Assigned : (hash value : ℕ) → List Scope → List Scope → Type 0
Assigned hash value (s ∷ prev) (r ∷ next) =
    ((value_in s hash ≢ 0) × Stored s hash value r × (next ≡ prev))
    ⊎ ((value_in s hash ≡ 0) × (r ≡ s) × Assigned hash value prev next)
Assigned hash value stack chain = ⊥

pub bound-Stored :
    (s r : Scope) (prev : List Scope) (hash value q : ℕ)
    → value ≢ 0
    → Stored s hash value r
    → bound (r ∷ prev) q ≡ (if q == hash then some value else bound (s ∷ prev) q)
unfolding bound
bound-Stored s r prev hash value q given w =
    let some_value : value == 0 ≡ false = ground arith in
    elim (Bool-cases (q == hash)) [
      | inl same ↦
          let now : value_in r q ≡ value =
            w.reads q ∙ ap (λ b. if b then value else value_in s q) same in
          rw (same, now, some_value)
      | inr other ↦
          let before : value_in r q ≡ value_in s q =
            w.reads q ∙ ap (λ b. if b then value else value_in s q) other in
          rw (other, before)
    ]

pub bound-Assigned :
    (stack chain : List Scope) (hash value q : ℕ)
    → value ≢ 0
    → Assigned hash value stack chain
    → bound chain q ≡ (if q == hash then some value else bound stack q)
unfolding bound
bound-Assigned [] [] hash value q given never = elim never [ ]
bound-Assigned [] (r ∷ next) hash value q given never = elim never [ ]
bound-Assigned (s ∷ prev) [] hash value q given never = elim never [ ]
bound-Assigned (s ∷ prev) (r ∷ next) hash value q given (inl (known, w, same)) =
    rw same (bound-Stored s r prev hash value q given w)
bound-Assigned (s ∷ prev) (r ∷ next) hash value q given (inr (unknown, same, later)) =
    let rest = bound-Assigned prev next hash value q given later in
    elim (Bool-cases (value_in s q == 0)) [
      | inl none_here ↦ rw (same, none_here) rest
      | inr here ↦ elim (Bool-cases (q == hash)) [
        | inl equal ↦
            let no_value : value_in s q ≡ 0 = ap (value_in s) (ground arith) ∙ unknown in
            absurd (ground arith)
        | inr other ↦ rw (same, here, other)
      ]
    ]

pub AllSound-Assigned :
    (stack chain : List Scope) (hash value : ℕ)
    → AllSound stack
    → Assigned hash value stack chain
    → AllSound chain
AllSound-Assigned [] [] hash value v never = elim never [ ]
AllSound-Assigned [] (r ∷ next) hash value v never = elim never [ ]
AllSound-Assigned (s ∷ prev) [] hash value v never = elim never [ ]
AllSound-Assigned (s ∷ prev) (r ∷ next) hash value (v, vs) (inl (known, w, same)) =
    (w.sound, rw same vs)
AllSound-Assigned (s ∷ prev) (r ∷ next) hash value (v, vs) (inr (unknown, same, later)) =
    (rw same v, AllSound-Assigned prev next hash value vs later)

-- what the walk leaves
abbrev pub Walked : (hash value : ℕ) → List Scope → Option (List Scope) → Type 0
Walked hash value stack none = bound stack hash ≡ none
Walked hash value stack (some chain) = Assigned hash value stack chain

Walked-extended :
    (s : Scope) (prev : List Scope) (hash value : ℕ) (o : Option (List Scope))
    → value_in s hash ≡ 0
    → value_in s hash == 0 ≡ true
    → Walked hash value prev o
    → Returns (ok (extended s o)) (Walked hash value (s ∷ prev))
unfolding bound
Walked-extended s prev hash value none nothing unknown walked = (none, refl, rw unknown walked)
Walked-extended s prev hash value (some chain) nothing unknown walked =
    (some (s ∷ chain), refl, inr (nothing, refl, walked))

pub assign_known-Walked :
    (stack : List Scope) (hash value : ℕ)
    → AllSound stack
    → AllRoomy stack
    → Returns (assign_known stack hash value) (Walked hash value stack)
unfolding assign_known bound
assign_known-Walked [] hash value v room = (none, refl, refl)
assign_known-Walked (s ∷ prev) hash value (v, vs) (room, rooms) =
    let found = lookup_scope-value_in s hash v in
    elim (Bool-cases (value_in s hash == 0)) [
      | inl unknown ↦
          let nothing : value_in s hash ≡ 0 = ground arith in
          let (o, runs, walked) = assign_known-Walked prev hash value vs rooms in
          rw (found, unknown, runs)
            (Walked-extended s prev hash value o nothing (ground arith) walked)
      | inr known ↦
          let something : value_in s hash ≢ 0 = ground arith in
          let (r, runs, w) = insert_scope-Stored s hash 0 value v room in
          rw (found, known, runs) (some (r ∷ prev), refl, inl (something, w, refl))
    ]

-- the known key, or the new one, and the table of keys that then knows it
assignable_key-IsSound :
    (keys : Scope) (hash fresh : ℕ)
    → IsSound keys
    → IsRoomy keys
    → Returns (assignable_key keys hash fresh) (λ r. IsSound r.0)
unfolding assignable_key
assignable_key-IsSound keys hash fresh v room =
    let found = lookup_scope-value_in keys hash v in
    elim (Bool-cases (value_in keys hash == 0)) [
      | inl unknown ↦
          let (r, runs, w) = insert_scope-Stored keys hash 0 fresh v room in
          rw (found, unknown, runs) ((r, fresh), refl, w.sound)
      | inr known ↦ rw (found, known) ((keys, value_in keys hash), refl, v)
    ]

-- an insertion into the innermost scope
pub insert_new-Stored :
    (keys s : Scope) (prev : List Scope) (hash fresh value : ℕ)
    → IsSound keys
    → IsRoomy keys
    → IsSound s
    → IsRoomy s
    → Returns
        (insert_new keys (s ∷ prev) hash fresh value)
        (λ r. IsSound r.0 × ((t : Scope) × (r.1 ≡ t ∷ prev) × Stored s hash value t))
unfolding insert_new add_to_scope
insert_new-Stored keys s prev hash fresh value vk rk v room =
    let (r, runs, sound) = assignable_key-IsSound keys hash fresh vk rk in
    let (t, stores, w) = insert_scope-Stored s hash r.1 value v room in
    rw (runs, stores) ((r.0, t ∷ prev), refl, (sound, (t, refl, w)))
