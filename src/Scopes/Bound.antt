-- ===== src/Scopes/Bound.antt =====
-- What the scopes hold for a name, and how the operations on one scope change it.
use chloride.Base.{
  ℕ, ◌*◌, ◌<◌, ◌≡◌, refl, ap, ◌∙◌, Bool, Bool-cases, true, false, Option, none, some, List, [], ◌∷◌,
  ◌==◌, inl, inr, if◌then◌else◌, arith,
}
use chloride.Base.Run.{ok, Returns}
use chloride.Hashmap.{val_of, int_mod}
use chloride.Hashmap.Rehash.{stored}
use chloride.Nodes.Chain.{Node}
use chloride.HashmapGc.{HashmapGc, create, insert, number}
use chloride.HashmapGc.Grown.{IsValid, held, create_gc-IsValid}
use chloride.HashmapGc.Insert.{insert_gc-Inserted}
use chloride.HashmapGc.Lookup.{lookup_gc-held}
use chloride.Scopes.{Scope, init_scope, lookup_scope, insert_scope, node, load_variable}

-- the value of a name in a scope, 0 if there is none
abbrev pub value_in : Scope → ℕ → ℕ
value_in none q = 0
value_in (some t) q = val_of (held t q)

abbrev pub IsSound : Scope → Type 0
IsSound none = Unit {0}
IsSound (some t) = IsValid t

-- room for one more doubling of its block
abbrev pub IsRoomy : Scope → Type 0
IsRoomy none = Unit {0}
IsRoomy (some t) = t.size * 2 < int_mod

abbrev pub AllSound : List Scope → Type 0
AllSound [] = Unit {0}
AllSound (s ∷ prev) = IsSound s × AllSound prev

abbrev pub AllRoomy : List Scope → Type 0
AllRoomy [] = Unit {0}
AllRoomy (s ∷ prev) = IsRoomy s × AllRoomy prev

-- the value that the innermost scope which knows the name gives it
unfoldable pub bound : List Scope → ℕ → Option ℕ
bound [] q = none
bound (s ∷ prev) q = if value_in s q == 0 then bound prev q else some (value_in s q)

pub lookup_scope-value_in : (s : Scope) (q : ℕ) → IsSound s → lookup_scope s q ≡ ok (value_in s q)
lookup_scope-value_in none q v = refl
lookup_scope-value_in (some t) q v = lookup_gc-held t q v

pub load_variable-bound :
    (stack : List Scope) (q : ℕ) → AllSound stack → load_variable stack q ≡ ok (bound stack q)
unfolding load_variable bound
load_variable-bound [] q v = refl
load_variable-bound (s ∷ prev) q (v, w) =
    let found = lookup_scope-value_in s q v in
    elim (Bool-cases (value_in s q == 0)) [
      | inl unknown ↦ rw (found, unknown) (load_variable-bound prev q w)
      | inr known ↦ rw (found, known)
    ]

create-size : create.size * 2 < int_mod
unfolding create
create-size = omega arith

-- a scope behind an insertion
pub record Stored (s : Scope) (hash value : ℕ) (r : Scope) : Type 0 where
  pub sound : IsSound r
  pub reads : (q : ℕ) → value_in r q ≡ (if q == hash then value else value_in s q)

val_of-stored :
    (known : Bool) (o p : Option Node) (n : Node)
    → val_of (if known then some (stored o n) else p) ≡ (if known then n.val else val_of p)
val_of-stored true none p n = refl
val_of-stored true (some old) p n = refl
val_of-stored false o p n = refl

table-Stored :
    (t : HashmapGc) (hash key value : ℕ)
    → IsValid t
    → t.size * 2 < int_mod
    → Returns (insert t (node hash key value)) (λ r.
      IsValid r × ((q : ℕ) → val_of (held r q) ≡ (if q == hash then value else val_of (held t q))))
unfolding number
table-Stored t hash key value v room =
    let (r, runs, i) = insert_gc-Inserted t (node hash key value) v room in
    (
      r,
      runs,
      (
        i.valid,
        λ q.
            ap val_of (i.holds q)
            ∙ val_of-stored (q == hash) (held t hash) (held t q)
                (record (node hash key value) { order = t.order }),
      ),
    )

pub insert_scope-Stored :
    (s : Scope) (hash key value : ℕ)
    → IsSound s
    → IsRoomy s
    → Returns (insert_scope s (node hash key value)) (Stored s hash value)
unfolding insert_scope init_scope
insert_scope-Stored none hash key value v room =
    let (fresh, bare) = create_gc-IsValid in
    let (r, runs, (sound, reads)) = table-Stored create hash key value fresh create-size in
    (
      some r,
      rw runs,
      record {
        sound = sound;
        reads = λ q. reads q ∙ ap (λ (n : ℕ). if q == hash then value else n) (ap val_of (bare q));
      },
    )
insert_scope-Stored (some t) hash key value v room =
    let (r, runs, (sound, reads)) = table-Stored t hash key value v room in
    (some r, rw runs, record { sound = sound; reads = reads })
