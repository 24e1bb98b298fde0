-- ===== src/Tests/Scopes.antt =====
-- Runs of the virtual machine's scopes.
use chloride.Base.{◌≡◌, ◌⊎◌, ◌==◌, refl, true, not, none, some, List, [], ◌∷◌, arith}
use chloride.Base.Run.{ok, Returns, ◌>>=◌}
use chloride.HashmapGc.{
  HashmapGc, create, insert, number, insert_numbered, find_listed, lookup, remove,
}
use chloride.HashmapGc.Grown.{IsValid}
use chloride.Nodes.Chain.{find, assign, count, unlink}
use chloride.Scopes.{
  Scope, create_scope, init_scope, insert_scope, load_variable, delete_variable, add_to_scope,
  assignable_key, insert_new, assign_known, runtime_assignment, runtime_declaration,
}
use chloride.Scopes.Bound.{value_in, IsSound, AllSound}
use chloride.Scopes.Changed.{Assigned}
use chloride.Scopes.Loads.{Loads, Added, runtime_assignment-Loads, runtime_declaration-Loads}

program : Unit {0}
unfolding create insert number insert_numbered find_listed lookup remove find assign unlink
    create_scope init_scope insert_scope load_variable delete_variable add_to_scope assignable_key
    insert_new assign_known runtime_assignment runtime_declaration
program = tt

-- a table with the one name 7, whose value is 70
abbrev seventy : HashmapGc
seventy = record {
  size = 0;
  order = 2;
  list = none;
  hashmap_count = 0;
  count = 1;
  inline_values = record { hash = 7; key = 1; val = 70; order = 1 } ∷ [];
}

-- a scope without a table inside the one that knows 7
abbrev scopes : List Scope
scopes = none ∷ some seventy ∷ []

seventy-IsValid : IsValid seventy
unfolding count
seventy-IsValid = record {
  few = omega arith;
  once = λ q. ground arith;
  shape = (refl, refl);
  apart = λ q h. refl;
}

outer_loaded : load_variable scopes 7 ≡ ok (some 70)
unfolding program
outer_loaded = refl

-- an assignment reaches the outer scope, a declaration hides it
assigned_outside :
    (runtime_assignment none scopes 7 100 71 >>= λ r.
    delete_variable r.1 7 >>= λ s. load_variable s.0 7)
    ≡ ok none
unfolding program
assigned_outside = refl

declared_inside :
    (runtime_declaration none scopes 7 100 71 >>= λ r.
    delete_variable r.0.1 7 >>= λ s. load_variable s.0 7)
    ≡ ok (some 70)
unfolding program
declared_inside = refl

-- a second declaration in one scope is an error, and overwrites the value
declared_again :
    (runtime_declaration none scopes 7 100 71 >>= λ r.
    runtime_declaration r.0.0 r.0.1 7 101 72 >>= λ s. load_variable s.0.1 7)
    ≡ ok (some 72)
unfolding program
declared_again = refl

declared_again_error :
    (runtime_declaration none scopes 7 100 71 >>= λ r.
    runtime_declaration r.0.0 r.0.1 7 101 72 >>= λ s. ok s.1)
    ≡ ok true
unfolding program
declared_again_error = refl

runtime_assignment-Loads_example : Returns (runtime_assignment none scopes 7 100 71) (λ r.
    (Assigned 7 71 scopes r.1
      ⊎ ((load_variable scopes 7 ≡ ok none) × Added 7 71 none (some seventy ∷ []) r.1))
    × IsSound r.0
    × AllSound r.1
    × Loads 7 71 scopes r.1)
runtime_assignment-Loads_example =
    runtime_assignment-Loads none none (some seventy ∷ []) 7 100 71 tt tt
      (tt, (seventy-IsValid, tt)) (tt, (omega arith, tt)) (omega arith)

runtime_declaration-Loads_example : Returns (runtime_declaration none scopes 7 100 71) (λ r.
    (r.1 ≡ not (value_in none 7 == 0))
    × Added 7 71 none (some seventy ∷ []) r.0.1
    × IsSound r.0.0
    × AllSound r.0.1
    × Loads 7 71 scopes r.0.1)
runtime_declaration-Loads_example =
    runtime_declaration-Loads none none (some seventy ∷ []) 7 100 71 tt tt
      (tt, (seventy-IsValid, tt)) (tt, (omega arith, tt)) (omega arith)
