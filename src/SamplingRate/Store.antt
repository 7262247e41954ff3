-- ===== src/SamplingRate/Store.antt =====
-- store.go: `SamplingRateFlowStore`. A router's key has a type of its own, with decidable equality. Each
-- call of the clock is an argument. The hooks are those of the store, which the wrapper only renames.
use native.Mathlib.Decide.{ℕ_discrete}
use goflow.Base.{
  ℕ, ◌+◌, ◌*◌, ◌/◌, ◌%◌, ◌^◌, List, [], ◌∷◌, Bool, true, false, Option, none, some, ◌≡◌,
}
use goflow.FlowStore.Types.{StoreError, Values, Hooks, Store}
use goflow.FlowStore.Map.{lookup, put}
use goflow.FlowStore.Operations.{new_store, no_options, get, set, delete, range}

-- `flowStoreSamplingRateKey`
pub record SamplingRateKey (R : Type 0) : Type 0 where
  pub router : R
  pub version : ℕ
  pub obs_domain_id : ℕ

unfoldable pub rate_key_dec :
    {R : Type 0} (k j : SamplingRateKey R)
    → Dec (k.router ≡ j.router)
    → Dec (k.version ≡ j.version)
    → Dec (k.obs_domain_id ≡ j.obs_domain_id)
    → Dec (k ≡ j)
rate_key_dec k j (yes a) (yes b) (yes c) =
    yes (λ i. record { router = a i; version = b i; obs_domain_id = c i })
rate_key_dec k j (no n) b c = no (λ r. n (λ i. (r i).router))
rate_key_dec k j (yes a) (no n) c = no (λ r. n (λ i. (r i).version))
rate_key_dec k j (yes a) (yes b) (no n) = no (λ r. n (λ i. (r i).obs_domain_id))

-- Two keys are equal if their three fields are.
unfoldable pub SamplingRateKey_discrete : {R : Type 0} → Discrete R → Discrete (SamplingRateKey R)
unfolding rate_key_dec
SamplingRateKey_discrete dec k j =
    rate_key_dec k j (dec k.router j.router) (ℕ_discrete k.version j.version)
      (ℕ_discrete k.obs_domain_id j.obs_domain_id)

-- The values are of type `uint32`, which has none of the methods of a value type.
abbrev pub rate_values : Values ℕ
rate_values = record { zero_value = 0; addable = none; settable = none; copyable = none }

-- `NewSamplingRateFlowStore`, for a time to live and the flag `extendOnAccess`.
abbrev pub new_sampling_rate_store :
    {R : Type 0} → ℕ → Bool → Hooks (SamplingRateKey R) ℕ → Store (SamplingRateKey R) ℕ
new_sampling_rate_store ttl extend_on_access hooks = record (new_store hooks) {
  refresh_ttl = true;
  on_expire = some (λ k v. (false, 0));
  refresh_ttl_on_read = extend_on_access;
  default_ttl = ttl;
}

-- `composeSamplingKey`: the bits of the two numbers do not overlap.
unfoldable pub compose_sampling_key : ℕ → ℕ → ℕ
compose_sampling_key version obs_domain_id = version * 2 ^ 32 % 2 ^ 64 + obs_domain_id

-- `decodeSamplingKey`
unfoldable pub decode_sampling_key : ℕ → ℕ × ℕ
decode_sampling_key key = (key / 2 ^ 32 % 2 ^ 16, key % 2 ^ 32)

-- The maps that `GetAll` makes: for each router one from the packed key to the rate.
abbrev pub Snapshot : Type 0 → Type 0
Snapshot R = List (R × List (ℕ × ℕ))

module _ {R : Type 0} (dec : Discrete R) where
  -- `Set`
  unfoldable pub set_rate :
      Store (SamplingRateKey R) ℕ
      → SamplingRateKey R
      → ℕ
      → ℕ
      → Option StoreError × Store (SamplingRateKey R) ℕ
  set_rate s key rate now =
      let (_, e, s', _) =
        set (SamplingRateKey_discrete dec) rate_values s key rate no_options now in
      (e, s')

  -- `Get`: the rate and whether it was found.
  unfoldable pub get_rate :
      Store (SamplingRateKey R) ℕ → SamplingRateKey R → ℕ → ℕ × Bool × Store (SamplingRateKey R) ℕ
  get_rate s key now =
      let (found, s', _) = get (SamplingRateKey_discrete dec) rate_values s key 0 true now in
      elim found [ some rate ↦ (rate, true, s') | none ↦ (0, false, s') ]

  -- `Remove`: the rate, or `none` for `ErrNotFound`.
  unfoldable pub remove_rate :
      Store (SamplingRateKey R) ℕ → SamplingRateKey R → ℕ → Option ℕ × Store (SamplingRateKey R) ℕ
  remove_rate s key now =
      let (found, s1, _) = get (SamplingRateKey_discrete dec) rate_values s key 0 false now in
      let (deleted, s2, _) = delete (SamplingRateKey_discrete dec) rate_values s1 key in
      elim found [
        | none ↦ (none, s1)
        | some rate ↦ elim deleted [ true ↦ (some rate, s2) | false ↦ (none, s2) ]
      ]

  abbrev bucket_of : Option (List (ℕ × ℕ)) → List (ℕ × ℕ)
  bucket_of none = []
  bucket_of (some bucket) = bucket

  -- The callback of `GetAll`, on one entry.
  unfoldable pub add_to_snapshot : Snapshot R → SamplingRateKey R × ℕ → Snapshot R
  add_to_snapshot ret (key, rate) =
      let bucket = bucket_of (lookup dec key.router ret) in
      put dec key.router
        (put ℕ_discrete (compose_sampling_key key.version key.obs_domain_id) rate bucket) ret

  unfoldable pub snapshot : Snapshot R → List (SamplingRateKey R × ℕ) → Snapshot R
  snapshot ret [] = ret
  snapshot ret (item ∷ items) = snapshot (add_to_snapshot ret item) items

  -- `GetAll`
  unfoldable pub get_all :
      Store (SamplingRateKey R) ℕ → ℕ → Snapshot R × Store (SamplingRateKey R) ℕ
  get_all s now =
      let (items, s', _) = range (SamplingRateKey_discrete dec) rate_values s now in
      (snapshot [] items, s')
