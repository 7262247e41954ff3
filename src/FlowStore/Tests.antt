-- ===== src/FlowStore/Tests.antt =====
-- Tests of the store of pkg/flowstore, and the theorems about it at inputs: keys and values are
-- numbers.
mod Runs
use native.Mathlib.Decide.{ℕ_discrete}
use goflow.Base.{arith, ℕ, ◌+◌, ◌≡◌, refl, [], ◌∷◌, true, false, none, some}
use mathlib.Core.Logic.{ite}
use goflow.FlowStore.Others.{get-set_other}
use goflow.FlowStore.ReadBack.{get-set, get-delete}
use goflow.FlowStore.Types.{EntryOptions, Values, Hooks, set_event, delete_event, evicted, Store}
use goflow.FlowStore.Map.{lookup, remove, put, erase}
use goflow.FlowStore.Entries.{
  copy_value, set_value, expires_at_for, maybe_extend, notify_change, record_set, record_delete,
  mutate, delete_locked, insert_locked, find_for_write, record_evicted, evict, enforce_max_size,
}
use goflow.FlowStore.Operations.{
  delete, new_store, no_options, new_entry, write_new, set, get, expire_stale,
}
use goflow.FlowStore.Keeps.{IsValid}
use goflow.FlowStore.Reach.{Reach, here, next, set_step, get_step, expire_step, Reach-IsValid}

abbrev plain_values : Values ℕ
plain_values = record {
  zero_value = 0;
  addable = some (λ a b existed. (a + b, none));
  settable = none;
  copyable = none;
}

abbrev all_hooks : Hooks ℕ ℕ
all_hooks = record {
  on_set_mutate = some (λ k v existed. v + 100);
  on_set = true;
  on_delete = true;
  on_get = true;
}

-- A store of two entries at most, with a time to live of ten.
abbrev small : Store ℕ ℕ
small = record (new_store all_hooks) { default_ttl = 10; max_size = 2; change_notify = true }

abbrev set_small : Store ℕ ℕ → ℕ → ℕ → ℕ → Store ℕ ℕ
set_small s k v now = (set ℕ_discrete plain_values s k v no_options now).2

-- The third key evicts the first, the set event has the value before `OnSetMutate`, and the map has
-- the value after it.
test_eviction :
    set ℕ_discrete plain_values (set_small (set_small small 1 5 0) 2 6 1) 3 7 no_options 2 ≡ (
      false,
      none,
      record small {
        entries =
            (3, record { key = 3; value = 107; expires_at = some 12 })
            ∷ (2, record { key = 2; value = 106; expires_at = some 11 })
            ∷ [];
        order = 2 ∷ 3 ∷ [];
        changes = 4;
      },
      delete_event 1 105 evicted ∷ set_event 3 7 false ∷ [],
    )
unfolding set find_for_write write_new new_entry set_value mutate expires_at_for insert_locked put
    remove lookup enforce_max_size evict record_evicted record_delete delete_locked erase
    notify_change record_set ℕ_discrete
test_eviction = refl

-- `GetQuiet` drops an expired entry and records no event.
test_quiet :
    get ℕ_discrete plain_values (set_small small 1 5 0) 1 0 false 10
    ≡ (none, record small { changes = 2 }, [])
unfolding set get find_for_write write_new new_entry set_value mutate expires_at_for insert_locked
    put remove lookup enforce_max_size evict record_evicted record_delete delete_locked erase
    notify_change record_set maybe_extend ℕ_discrete
test_quiet = refl

-- Three keys in a store of two, a read after one has expired, and a sweep.
abbrev trace :
    Reach ℕ_discrete plain_values small
      (expire_stale ℕ_discrete plain_values
        (get ℕ_discrete plain_values
          (set_small (set_small (set_small small 1 5 0) 2 6 1) 3 7 2)
          2
          0
          true
          11).1
        20).1
trace =
    next
      (next
        (next (next (next here (set_step 1 5 no_options 0)) (set_step 2 6 no_options 1))
          (set_step 3 7 no_options 2))
        (get_step 2 0 true 11))
      (expire_step 20)

Reach-IsValid_example :
    IsValid ℕ_discrete
      (expire_stale ℕ_discrete plain_values
        (get ℕ_discrete plain_values
          (set_small (set_small (set_small small 1 5 0) 2 6 1) 3 7 2)
          2
          0
          true
          11).1
        20).1
Reach-IsValid_example = Reach-IsValid ℕ_discrete plain_values refl refl trace

abbrev five : EntryOptions
five = record { ttl_set = true; ttl = 5; no_expiration = false }

-- A third key in a store of two, which evicts the first.
get-set_example :
    (get ℕ_discrete plain_values
      (set ℕ_discrete plain_values (set_small (set_small small 1 5 0) 2 6 1) 3 7 five 2).2
      3
      0
      true
      6).0
    ≡ some (
        copy_value plain_values 0 (
          mutate
            (set_small (set_small small 1 5 0) 2 6 1)
            3
            7
            (set ℕ_discrete plain_values (set_small (set_small small 1 5 0) 2 6 1) 3 7 five 2).0))
get-set_example =
    get-set ℕ_discrete plain_values (set_small (set_small small 1 5 0) 2 6 1) 3 7 0 five true 2 6
      (Reach-IsValid ℕ_discrete plain_values refl refl
        (next (next here (set_step 1 5 no_options 0)) (set_step 2 6 no_options 1)))
      refl refl refl (omega arith) (omega arith)

get-delete_example :
    (get ℕ_discrete plain_values
      (delete ℕ_discrete plain_values (set_small (set_small small 1 5 0) 2 6 1) 1).1
      2
      0
      true
      6).0
    ≡ ite
        (ℕ_discrete 1 2)
        none
        (get ℕ_discrete plain_values (set_small (set_small small 1 5 0) 2 6 1) 2 0 true 6).0
get-delete_example =
    get-delete ℕ_discrete plain_values (set_small (set_small small 1 5 0) 2 6 1) 1 2 0 true 6

-- A store with no limit.
abbrev large : Store ℕ ℕ
large = record (new_store all_hooks) { default_ttl = 10 }

one_entry-IsValid : IsValid ℕ_discrete (set_small large 2 6 0)
one_entry-IsValid =
    Reach-IsValid ℕ_discrete plain_values {s = large} refl refl
      (next here (set_step 2 6 no_options 0))

one_entry_unlimited : (set_small large 2 6 0).max_size ≡ 0
unfolding set find_for_write lookup write_new set_value notify_change enforce_max_size insert_locked
    new_entry put
one_entry_unlimited = refl

get-set_other_example :
    (get ℕ_discrete plain_values
      (set ℕ_discrete plain_values (set_small large 2 6 0) 1 7 five 1).2
      2
      0
      true
      3).0
    ≡ (get ℕ_discrete plain_values (set_small large 2 6 0) 2 0 true 3).0
get-set_other_example =
    get-set_other ℕ_discrete plain_values (set_small large 2 6 0) 1 2 7 0 five true 1 3
      (omega arith) one_entry-IsValid refl one_entry_unlimited
