-- ===== src/Templates/Tests.antt =====
-- Tests of the template store, and the theorems about it at inputs: routers are numbers.
use mathlib.Core.Logic.{ite}
use native.Mathlib.Decide.{ℕ_discrete}
use goflow.Base.{
  ℕ, ◌≡◌, ◌≢◌, refl, ap, List, [], ◌∷◌, true, false, none, ok, err, template_not_found, arith,
}
use goflow.FlowStore.Types.{Hooks, Store}
use goflow.FlowStore.Reach.{here, Reach-IsValid}
use goflow.FlowStore.Map.{lookup, remove, put}
use goflow.FlowStore.Entries.{
  set_value, expires_at_for, maybe_extend, notify_change, record_set, mutate, insert_locked,
  find_for_write, enforce_max_size,
}
use goflow.FlowStore.Invariant.{IsConsistent}
use goflow.FlowStore.Operations.{new_entry, write_new, get, set}
use goflow.Netflow.Types.{Template, template}
use goflow.Templates.Store.{
  TemplateKey, TemplateKey_discrete, key_dec, template_values, new_template_store, add_template,
  get_template, remove_template,
}
use goflow.Templates.Keeps.{calls-IsTemplateStore}
use goflow.Templates.Removes.{found_template, get_template-remove_template}
use goflow.Templates.Runs.{Call, add_call, get_call, remove_call, run, get_template-run}
use goflow.Templates.Laws.{
  IsTemplateStore, get_template-add_template, get_template-add_template_other,
}

abbrev no_hooks : Hooks (TemplateKey ℕ) Template
no_hooks = record { on_set_mutate = none; on_set = false; on_delete = false; on_get = false }

abbrev empty_store : Store (TemplateKey ℕ) Template
empty_store = new_template_store 100 true no_hooks

abbrev key : ℕ → TemplateKey ℕ
key router = record { router = router; version = 10; obs_domain_id = 1; template_id = 256 }

abbrev some_template : Template
some_template = template (record { template_id = 256; field_count = 0; fields = [] })

-- A template expires unless it is read.
test_expiry :
    (get_template ℕ_discrete
      (add_template ℕ_discrete empty_store (key 1) some_template 0 0).1
      (key 1)
      100).0
    ≡ err template_not_found
unfolding get_template add_template get set find_for_write write_new new_entry set_value mutate
    expires_at_for insert_locked put remove lookup enforce_max_size notify_change record_set
    maybe_extend TemplateKey_discrete key_dec ℕ_discrete
test_expiry = refl

empty_store-IsTemplateStore : IsTemplateStore ℕ_discrete empty_store
empty_store-IsTemplateStore = record {
  valid = Reach-IsValid (TemplateKey_discrete ℕ_discrete) template_values refl refl here;
  refreshing = refl;
  unlimited = refl;
  plain = refl;
}

get_template-add_template_example :
    (get_template ℕ_discrete
      (add_template ℕ_discrete empty_store (key 1) some_template 0 1).1
      (key 1)
      100).0
    ≡ ok some_template
get_template-add_template_example =
    get_template-add_template ℕ_discrete empty_store (key 1) some_template 0 1 100
      empty_store-IsTemplateStore (omega arith) (omega arith)

two-ne-one : key 2 ≢ key 1
two-ne-one e = cc (ap (λ (k : TemplateKey ℕ). k.router) e)

get_template-add_template_other_example :
    (get_template ℕ_discrete
      (add_template ℕ_discrete empty_store (key 1) some_template 0 1).1
      (key 2)
      100).0
    ≡ (get_template ℕ_discrete empty_store (key 2) 100).0
get_template-add_template_other_example =
    get_template-add_template_other ℕ_discrete empty_store (key 1) (key 2) some_template 0 1 100
      empty_store-IsTemplateStore two-ne-one

abbrev one_added : Store (TemplateKey ℕ) Template
one_added = (add_template ℕ_discrete empty_store (key 1) some_template 0 1).1

one_added-IsConsistent : IsConsistent (TemplateKey_discrete ℕ_discrete) one_added
one_added-IsConsistent =
    (calls-IsTemplateStore ℕ_discrete empty_store (key 1) some_template 0 1 2
      empty_store-IsTemplateStore).0.valid.consistent

get_template-remove_template_example :
    ((remove_template ℕ_discrete one_added (key 1) 2).0
      ≡ found_template (get_template ℕ_discrete one_added (key 1) 2).0)
    × ((get_template ℕ_discrete (remove_template ℕ_discrete one_added (key 1) 2).1 (key 1) 3).0
        ≡ ite
            (TemplateKey_discrete ℕ_discrete (key 1) (key 1))
            (err template_not_found)
            (get_template ℕ_discrete one_added (key 1) 3).0)
get_template-remove_template_example =
    get_template-remove_template ℕ_discrete one_added (key 1) (key 1) 2 3 one_added-IsConsistent

-- Another router's template is added and removed in between.
abbrev other_calls : List (Call ℕ)
other_calls = add_call (key 2) some_template 2 3 ∷ get_call (key 2) 4 ∷ remove_call (key 2) 5 ∷ []

one-ne-two : key 1 ≢ key 2
one-ne-two e = cc (ap (λ (k : TemplateKey ℕ). k.router) e)

get_template-run_example :
    (get_template ℕ_discrete (run ℕ_discrete one_added other_calls) (key 1) 100).0
    ≡ ok some_template
get_template-run_example =
    get_template-run ℕ_discrete other_calls empty_store (key 1) some_template 0 1 100
      empty_store-IsTemplateStore (one-ne-two, (one-ne-two, (one-ne-two, tt))) (omega arith)
      (omega arith)
