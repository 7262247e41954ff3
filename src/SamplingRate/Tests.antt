-- ===== src/SamplingRate/Tests.antt =====
-- The store of sampling rates at inputs: routers are numbers.
use native.Mathlib.Decide.{ℕ_discrete}
use goflow.Base.{ℕ, ◌≡◌, ◌≢◌, refl, ap, true, false, none, arith}
use goflow.FlowStore.Types.{Hooks, Store}
use goflow.FlowStore.Reach.{here, Reach-IsValid}
use goflow.SamplingRate.Store.{
  SamplingRateKey, SamplingRateKey_discrete, rate_values, new_sampling_rate_store, set_rate,
  get_rate, compose_sampling_key, decode_sampling_key,
}
use goflow.SamplingRate.Laws.{
  IsRateStore, get_rate-set_rate, get_rate-set_rate_other, decode_sampling_key-compose_sampling_key,
}

abbrev no_hooks : Hooks (SamplingRateKey ℕ) ℕ
no_hooks = record { on_set_mutate = none; on_set = false; on_delete = true; on_get = false }

abbrev empty_store : Store (SamplingRateKey ℕ) ℕ
empty_store = new_sampling_rate_store 100 false no_hooks

abbrev key : ℕ → SamplingRateKey ℕ
key router = record { router = router; version = 9; obs_domain_id = 1 }

empty_store-IsRateStore : IsRateStore ℕ_discrete empty_store
empty_store-IsRateStore = record {
  valid = Reach-IsValid (SamplingRateKey_discrete ℕ_discrete) rate_values refl refl here;
  refreshing = refl;
  unlimited = refl;
  plain = refl;
}

keys_differ : key 2 ≢ key 1
keys_differ e = let r : ◌≡◌ {A = ℕ} 2 1 = ap (λ (k : SamplingRateKey ℕ). k.router) e in omega arith

get_rate-set_rate_example :
    ((get_rate ℕ_discrete (set_rate ℕ_discrete empty_store (key 1) 512 0).1 (key 1) 99).0 ≡ 512)
    × ((get_rate ℕ_discrete (set_rate ℕ_discrete empty_store (key 1) 512 0).1 (key 1) 99).1 ≡ true)
get_rate-set_rate_example =
    get_rate-set_rate ℕ_discrete empty_store (key 1) 512 0 99 empty_store-IsRateStore (omega arith)
      (omega arith)

get_rate-set_rate_other_example :
    ((get_rate ℕ_discrete (set_rate ℕ_discrete empty_store (key 1) 512 0).1 (key 2) 99).0
      ≡ (get_rate ℕ_discrete empty_store (key 2) 99).0)
    × ((get_rate ℕ_discrete (set_rate ℕ_discrete empty_store (key 1) 512 0).1 (key 2) 99).1
        ≡ (get_rate ℕ_discrete empty_store (key 2) 99).1)
get_rate-set_rate_other_example =
    get_rate-set_rate_other ℕ_discrete empty_store (key 1) (key 2) 512 0 99 empty_store-IsRateStore
      keys_differ

decode_sampling_key-compose_sampling_key_example :
    decode_sampling_key (compose_sampling_key 9 1) ≡ (9, 1)
decode_sampling_key-compose_sampling_key_example =
    decode_sampling_key-compose_sampling_key 9 1 (omega arith) (omega arith)
