-- ===== src/Scopes.antt =====
-- The variables of the virtual machine: load_variable, delete_variable, create_scope, init_scope and
-- add_to_scope of src/runtime/runtime.c, with src/runtime/declaration/declaration.c and
-- src/runtime/assignment/assignment.c.
--
-- A `Stack` is a linked list of scopes, here the list of them from the innermost on; what a function
-- changes in it is changed for every holder of the list. A scope is a table of HashmapGc, or NULL until
-- the first insertion. Values and keys are addresses, 0 for NULL; a name is its hash, which is all that
-- the code compares. new_string_object, which builds a key, is an argument: the address it returns.
pub mod Bound
pub mod Changed
pub mod Loads
use chloride.Base.{
  ℕ, Bool, true, false, not, Option, none, some, List, [], ◌∷◌, ◌==◌, if◌then◌else◌,
}
use chloride.Base.Run.{Run, ok, fault, ◌>>=◌}
use chloride.Nodes.Chain.{Node}
use chloride.HashmapGc
use chloride.HashmapGc.{HashmapGc}

-- the field `scope` of a Stack
abbrev pub Scope : Type 0
Scope = Option HashmapGc

unfoldable pub create_scope : List Scope → List Scope
create_scope prev = none ∷ prev

unfoldable pub init_scope : Scope → HashmapGc
init_scope none = HashmapGc.create
init_scope (some t) = t

-- hashmap_lookup_GC and hashmap_remove_GC of a table that may be NULL
abbrev pub lookup_scope : Scope → ℕ → Run ℕ
lookup_scope none hash = ok 0
lookup_scope (some t) hash = HashmapGc.lookup t hash

abbrev pub remove_scope : Scope → ℕ → Run (Scope × Bool)
remove_scope none hash = ok (none, false)
remove_scope (some t) hash = HashmapGc.remove t hash >>= λ r. ok (some r.0, r.1)

abbrev pub node : ℕ → ℕ → ℕ → Node
node hash key val = record { hash = hash; key = key; val = val; order = 0 }

-- an insertion into a scope that may be NULL
unfoldable pub insert_scope : Scope → Node → Run Scope
insert_scope s n = HashmapGc.insert (init_scope s) n >>= λ t. ok (some t)

-- the value goes to register 0; `none` is the NameError
unfoldable pub load_variable : List Scope → ℕ → Run (Option ℕ)
load_variable [] hash = ok none
load_variable (s ∷ prev) hash = lookup_scope s hash >>= λ result.
    if result == 0 then load_variable prev hash else ok (some result)

-- the scopes behind the removal, and whether there was one; `false` is the NameError
unfoldable pub delete_variable : List Scope → ℕ → Run (List Scope × Bool)
delete_variable [] hash = ok ([], false)
delete_variable (s ∷ prev) hash = remove_scope s hash >>= λ r.
    if r.1 then ok (r.0 ∷ prev, true) else (delete_variable prev hash >>= λ q. ok (r.0 ∷ q.0, q.1))

unfoldable pub add_to_scope : List Scope → ℕ → ℕ → ℕ → Run (List Scope)
add_to_scope [] hash key value = fault
add_to_scope (s ∷ prev) hash key value = insert_scope s (node hash key value) >>= λ t. ok (t ∷ prev)

-- `assignable_keys`, and the key of a name: the known one, or a new one that is then known
unfoldable pub assignable_key : Scope → ℕ → ℕ → Run (Scope × ℕ)
assignable_key keys hash fresh = lookup_scope keys hash >>= λ key.
    if key == 0
    then (insert_scope keys (node hash 0 fresh) >>= λ t. ok (t, fresh))
    else ok (keys, key)

-- `keys` stands for `assignable_keys`, a NULL scope list for a NULL `stack`
unfoldable pub insert_new : Scope → List Scope → ℕ → ℕ → ℕ → Run (Scope × List Scope)
insert_new keys stack hash fresh value = assignable_key keys hash fresh >>= λ r.
    add_to_scope stack hash r.1 value >>= λ chain. ok (r.0, chain)

abbrev pub extended : Scope → Option (List Scope) → Option (List Scope)
extended s none = none
extended s (some chain) = some (s ∷ chain)

-- the walk to the scope that knows the name; `none` if no scope does
unfoldable pub assign_known : List Scope → ℕ → ℕ → Run (Option (List Scope))
assign_known [] hash value = ok none
assign_known (s ∷ prev) hash value = lookup_scope s hash >>= λ exists.
    if not (exists == 0)
    then (insert_scope s (node hash 0 value) >>= λ t. ok (some (t ∷ prev)))
    else (assign_known prev hash value >>= λ r. ok (extended s r))

-- behind the walk: the name is new if no scope knows it
abbrev pub after_walk :
    Scope → List Scope → ℕ → ℕ → ℕ → Option (List Scope) → Run (Scope × List Scope)
after_walk keys stack hash fresh value (some chain) = ok (keys, chain)
after_walk keys stack hash fresh value none = insert_new keys stack hash fresh value

unfoldable pub runtime_assignment : Scope → List Scope → ℕ → ℕ → ℕ → Run (Scope × List Scope)
runtime_assignment keys stack hash fresh value =
    assign_known stack hash value >>= λ r. after_walk keys stack hash fresh value r

-- The error of a name that the scope knows is stored in `*err`, and the insertion follows all the same.
unfoldable pub runtime_declaration :
    Scope → List Scope → ℕ → ℕ → ℕ → Run ((Scope × List Scope) × Bool)
runtime_declaration keys [] hash fresh value = fault
runtime_declaration keys (s ∷ prev) hash fresh value = lookup_scope s hash >>= λ exists.
    insert_new keys (s ∷ prev) hash fresh value >>= λ r. ok (r, not (exists == 0))
