-- ===== src/Templates/Store.antt =====
-- store.go: `TemplateFlowStore`. A router's key has a type of its own, with decidable equality. Each
-- call of the clock is an argument. The hooks are those of the store, which the wrapper only renames.
use native.Mathlib.Decide.{ℕ_discrete}
use goflow.Base.{
  ◌≡◌, ℕ, ◌+◌, Bool, true, false, Option, none, some, Result, ok, err, template_not_found,
  store_error, if◌then◌else◌,
}
use goflow.FlowStore.Types.{Values, Hooks, Store}
use goflow.FlowStore.Operations.{new_store, no_options, get, set, delete}
use goflow.Netflow.Types.{Template, TemplateStatus, updated, added, TemplateStore}

-- `flowStoreTemplateKey`
pub record TemplateKey (R : Type 0) : Type 0 where
  pub router : R
  pub version : ℕ
  pub obs_domain_id : ℕ
  pub template_id : ℕ

unfoldable pub key_dec :
    {R : Type 0} (k j : TemplateKey R)
    → Dec (k.router ≡ j.router)
    → Dec (k.version ≡ j.version)
    → Dec (k.obs_domain_id ≡ j.obs_domain_id)
    → Dec (k.template_id ≡ j.template_id)
    → Dec (k ≡ j)
key_dec k j (yes a) (yes b) (yes c) (yes d) =
    yes (λ i. record { router = a i; version = b i; obs_domain_id = c i; template_id = d i })
key_dec k j (no n) b c d = no (λ r. n (λ i. (r i).router))
key_dec k j (yes a) (no n) c d = no (λ r. n (λ i. (r i).version))
key_dec k j (yes a) (yes b) (no n) d = no (λ r. n (λ i. (r i).obs_domain_id))
key_dec k j (yes a) (yes b) (yes c) (no n) = no (λ r. n (λ i. (r i).template_id))

-- Two keys are equal if their four fields are.
unfoldable pub TemplateKey_discrete : {R : Type 0} → Discrete R → Discrete (TemplateKey R)
unfolding key_dec
TemplateKey_discrete dec k j =
    key_dec k j (dec k.router j.router) (ℕ_discrete k.version j.version)
      (ℕ_discrete k.obs_domain_id j.obs_domain_id) (ℕ_discrete k.template_id j.template_id)

-- The values are of type `interface{}`, which has none of the methods of a value type. `other`
-- stands for the nil interface too.
abbrev pub template_values : Values Template
template_values = record {
  zero_value = Template.other;
  addable = none;
  settable = none;
  copyable = none;
}

-- `NewTemplateFlowStore`, for a time to live and the flag `extendOnAccess`.
abbrev pub new_template_store :
    {R : Type 0} → ℕ → Bool → Hooks (TemplateKey R) Template → Store (TemplateKey R) Template
new_template_store ttl extend_on_access hooks = record (new_store hooks) {
  refresh_ttl = true;
  on_expire = some (λ k v. (false, 0));
  refresh_ttl_on_read = extend_on_access;
  default_ttl = ttl;
}

module _ {R : Type 0} (dec : Discrete R) where
  -- `AddTemplate`, with the readings of the clock by `GetQuiet` and by `Set`.
  unfoldable pub add_template :
      Store (TemplateKey R) Template
      → TemplateKey R
      → Template
      → ℕ
      → ℕ
      → Result TemplateStatus × Store (TemplateKey R) Template
  add_template s key t get_time set_time =
      let (existing, s1, _) =
        get (TemplateKey_discrete dec) template_values s key Template.other false get_time in
      let (_, e, s2, _) =
        set (TemplateKey_discrete dec) template_values s1 key t no_options set_time in
      (
        elim e [
          | some _ ↦ err store_error
          | none ↦ ok (elim existing [ some _ ↦ updated | none ↦ added ])
        ],
        s2,
      )

  -- `GetTemplate`
  unfoldable pub get_template :
      Store (TemplateKey R) Template
      → TemplateKey R
      → ℕ
      → Result Template × Store (TemplateKey R) Template
  get_template s key now =
      let (found, s', _) =
        get (TemplateKey_discrete dec) template_values s key Template.other true now in
      (elim found [ some t ↦ ok t | none ↦ err template_not_found ], s')

  -- `RemoveTemplate`: the template, or `none` for `ErrorTemplateNotFound`.
  unfoldable pub remove_template :
      Store (TemplateKey R) Template
      → TemplateKey R
      → ℕ
      → Option Template × Store (TemplateKey R) Template
  remove_template s key now =
      let (found, s1, _) =
        get (TemplateKey_discrete dec) template_values s key Template.other false now in
      let (deleted, s2, _) = delete (TemplateKey_discrete dec) template_values s1 key in
      elim found [ none ↦ (none, s1) | some t ↦ (if deleted then some t else none, s2) ]

  -- The store beside the readings of the clock that are to come.
  pub record Clocked : Type 0 where
    pub store : Store (TemplateKey R) Template
    pub clock : ℕ → ℕ
    pub ticks : ℕ

  -- The interface of the decoders, for the messages of one router.
  abbrev pub router_templates : R → TemplateStore Clocked
  router_templates router = record {
    add_template = λ s version obs_domain_id id t.
        let (r, store) =
          add_template s.store
            (record {
              router = router;
              version = version;
              obs_domain_id = obs_domain_id;
              template_id = id;
            })
            t (s.clock s.ticks) (s.clock (s.ticks + 1)) in
        (r, record s { store = store; ticks = s.ticks + 2 });
    get_template = λ s version obs_domain_id id.
        let (r, store) =
          get_template s.store
            (record {
              router = router;
              version = version;
              obs_domain_id = obs_domain_id;
              template_id = id;
            })
            (s.clock s.ticks) in
        (r, record s { store = store; ticks = s.ticks + 1 });
  }
