-- ===== src/FlowStore/Tests/Runs.antt =====
-- Runs of calls on a plain store, against the specification.
use native.Mathlib.Decide.{ℕ_discrete}
use goflow.Base.{ℕ, ◌≡◌, refl, List, [], ◌∷◌, true, false, none, some, arith}
use goflow.FlowStore.Types.{Hooks, Store}
use goflow.FlowStore.Map.{lookup}
use goflow.FlowStore.Operations.{new_store, get}
use goflow.FlowStore.Reach.{here, Reach-IsValid}
use goflow.FlowStore.Plain.{IsPlain}
use goflow.FlowStore.Spec.{Op, set_op, delete_op, get_op, run}
use goflow.FlowStore.Refinement.{Refines, run-get}
use goflow.FlowStore.Tests.{plain_values}

abbrev no_hooks : Hooks ℕ ℕ
no_hooks = record { on_set_mutate = none; on_set = true; on_delete = false; on_get = true }

abbrev empty : Store ℕ ℕ
empty = new_store no_hooks

-- Two keys; the first expires, is read, is set again and deleted, and set once more.
abbrev calls : List (Op ℕ ℕ)
calls =
    set_op 1 10 5 0
    ∷ set_op 2 20 0 1
    ∷ get_op 1 0 true 6
    ∷ set_op 1 11 5 7
    ∷ delete_op 1
    ∷ set_op 1 12 5 8
    ∷ []

empty-IsPlain : IsPlain ℕ_discrete plain_values empty
empty-IsPlain = record {
  valid = Reach-IsValid ℕ_discrete plain_values refl refl here;
  unlimited = refl;
  unhooked = refl;
  final = refl;
  unrefreshed = refl;
}

empty-Refines : Refines ℕ_discrete plain_values empty (λ j. none) 0
unfolding lookup
empty-Refines j = refl

run-get_example :
    (get ℕ_discrete plain_values (run ℕ_discrete plain_values empty calls) 1 0 true 12).0 ≡ some 12
unfolding ℕ_discrete
run-get_example =
    run-get ℕ_discrete plain_values calls empty (λ j. none) 0 1 0 true 12 empty-IsPlain refl refl
      empty-Refines (omega arith) (omega arith)
