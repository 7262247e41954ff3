-- ===== src/SamplingRate/Laws.antt =====
-- `Get` after `Set` and after `Remove`, the packed keys, and the snapshot of `GetAll`.
use goflow.Base.{ℕ, ◌+◌, ◌^◌, ◌<◌, ◌≡◌, ◌≢◌, refl, true, none, arith}
use goflow.FlowStore.Types.{Store}
use goflow.FlowStore.Entries.{mutate, copy_value}
use goflow.FlowStore.Operations.{no_options}
use goflow.FlowStore.Keeps.{IsValid}
use goflow.FlowStore.ReadBack.{get-set_default}
use goflow.FlowStore.Others.{get-set_other}
use goflow.SamplingRate.Store.{
  SamplingRateKey, SamplingRateKey_discrete, rate_values, set_rate, get_rate, compose_sampling_key,
  decode_sampling_key,
}

-- A version of 16 bits and a domain of 32 bits are packed into a key and unpacked again.
pub decode_sampling_key-compose_sampling_key :
    (version obs_domain_id : ℕ)
    → version < 2 ^ 16
    → obs_domain_id < 2 ^ 32
    → decode_sampling_key (compose_sampling_key version obs_domain_id) ≡ (version, obs_domain_id)
unfolding decode_sampling_key compose_sampling_key
decode_sampling_key-compose_sampling_key version obs_domain_id v o = ground arith

module _ {R : Type 0} (dec : Discrete R) where
  -- A store as `NewSamplingRateFlowStore` configures it, in the course of its calls.
  pub record IsRateStore (s : Store (SamplingRateKey R) ℕ) : Type 0 where
    pub valid : IsValid (SamplingRateKey_discrete dec) s
    pub refreshing : s.refresh_ttl ≡ true
    pub unlimited : s.max_size ≡ 0
    pub plain : s.hooks.on_set_mutate ≡ none

  -- A rate that is set in a store with a positive time to live is what `Get` gives for the same
  -- router, version and domain until that time has passed.
  pub get_rate-set_rate :
      (s : Store (SamplingRateKey R) ℕ) (key : SamplingRateKey R) (rate now later : ℕ)
      → IsRateStore s
      → later < now + s.default_ttl
      → 0 < s.default_ttl
      → ((get_rate dec (set_rate dec s key rate now).1 key later).0 ≡ rate)
        × ((get_rate dec (set_rate dec s key rate now).1 key later).1 ≡ true)
  unfolding get_rate set_rate
  get_rate-set_rate s key rate now later store fresh positive =
      let read =
        get-set_default (SamplingRateKey_discrete dec) rate_values s key rate 0 true now later
          store.valid refl store.refreshing fresh positive in
      let plain = store.plain in
      (
        rw (read, get_rate, set_rate) (unfold copy_value mutate in ground (arith, plain)),
        rw (read, get_rate, set_rate) refl,
      )

  -- Setting a rate changes what `Get` gives for no other router, version or domain.
  pub get_rate-set_rate_other :
      (s : Store (SamplingRateKey R) ℕ) (key other : SamplingRateKey R) (rate now later : ℕ)
      → IsRateStore s
      → other ≢ key
      → ((get_rate dec (set_rate dec s key rate now).1 other later).0
          ≡ (get_rate dec s other later).0)
        × ((get_rate dec (set_rate dec s key rate now).1 other later).1
            ≡ (get_rate dec s other later).1)
  unfolding get_rate set_rate
  get_rate-set_rate_other s key other rate now later store differs =
      let same =
        get-set_other (SamplingRateKey_discrete dec) rate_values s key other rate 0 no_options true
          now later differs store.valid refl store.unlimited in
      (ground (arith, same), ground (arith, same))
