-- ===== src/Templates/Laws.antt =====
-- `GetTemplate` after `AddTemplate`, of store.go in utils/store/templates.
use goflow.Base.{ℕ, ◌+◌, ◌<◌, ◌≡◌, ◌≢◌, refl, ◌∙◌, ap, Bool, true, false, none, ok, arith}
use goflow.FlowStore.Types.{Hooks, Store}
use goflow.FlowStore.Entries.{mutate, copy_value, update_entry, delete_locked, notify_change}
use goflow.FlowStore.Operations.{no_options, get}
use goflow.FlowStore.Keeps.{IsValid, Shrinks-IsValid}
use goflow.FlowStore.Preserves.{get-Shrinks}
use goflow.FlowStore.ReadBack.{get-set_default, get-same}
use goflow.FlowStore.Others.{get-set_other, get-other}
use goflow.Netflow.Types.{Template}
use goflow.Templates.Store.{
  TemplateKey, TemplateKey_discrete, template_values, add_template, get_template,
}

module _ {R : Type 0} (dec : Discrete R) where
  -- A store as `NewTemplateFlowStore` configures it, in the course of its calls.
  pub record IsTemplateStore (s : Store (TemplateKey R) Template) : Type 0 where
    pub valid : IsValid (TemplateKey_discrete dec) s
    pub refreshing : s.refresh_ttl ≡ true
    pub unlimited : s.max_size ≡ 0
    pub plain : s.hooks.on_set_mutate ≡ none

  -- A read keeps the configuration.
  pub get-config :
      (s : Store (TemplateKey R) Template) (key : TemplateKey R) (with_hooks : Bool) (now : ℕ)
      → let s1 =
          (get (TemplateKey_discrete dec) template_values s key Template.other with_hooks now).1 in
        (s1.refresh_ttl ≡ s.refresh_ttl)
        × (s1.default_ttl ≡ s.default_ttl)
        × (s1.max_size ≡ s.max_size)
        × (s1.hooks ≡ s.hooks)
        × (s1.on_expire ≡ s.on_expire)
  unfolding get update_entry delete_locked notify_change
  get-config s key with_hooks now =
      (ground arith, ground arith, ground arith, ground arith, ground arith)

  -- A template that is added to a store with a positive time to live is what `GetTemplate` gives for
  -- the same router, version, domain and id until that time has passed.
  pub get_template-add_template :
      (s : Store (TemplateKey R) Template) (key : TemplateKey R) (t : Template)
      (get_time set_time later : ℕ)
      → IsTemplateStore s
      → later < set_time + s.default_ttl
      → 0 < s.default_ttl
      → (get_template dec (add_template dec s key t get_time set_time).1 key later).0 ≡ ok t
  unfolding get_template add_template
  get_template-add_template s key t get_time set_time later store fresh positive =
      let s1 =
        (get (TemplateKey_discrete dec) template_values s key Template.other false get_time).1 in
      let (refresh, ttl, _, hooks, _) = get-config s key false get_time in
      let valid = Shrinks-IsValid (TemplateKey_discrete dec) store.valid (
        get-Shrinks (TemplateKey_discrete dec) template_values s key Template.other false get_time
          store.valid.consistent) in
      let read =
        get-set_default (TemplateKey_discrete dec) template_values s1 key t Template.other true
          set_time later valid refl (refresh ∙ store.refreshing) (omega arith) (omega arith) in
      let plain : s1.hooks.on_set_mutate ≡ none =
        ap (λ (h : Hooks (TemplateKey R) Template). h.on_set_mutate) hooks ∙ store.plain in
      rw (read, get_template, add_template) (unfold copy_value mutate in ground (arith, plain))

  -- Adding a template changes what `GetTemplate` gives for no other key: no other router, version,
  -- domain or id.
  pub get_template-add_template_other :
      (s : Store (TemplateKey R) Template) (key other : TemplateKey R) (t : Template)
      (get_time set_time later : ℕ)
      → IsTemplateStore s
      → other ≢ key
      → (get_template dec (add_template dec s key t get_time set_time).1 other later).0
        ≡ (get_template dec s other later).0
  unfolding get_template add_template
  get_template-add_template_other s key other t get_time set_time later store differs =
      let s1 =
        (get (TemplateKey_discrete dec) template_values s key Template.other false get_time).1 in
      let (_, ttl, size, _, hook) = get-config s key false get_time in
      let valid = Shrinks-IsValid (TemplateKey_discrete dec) store.valid (
        get-Shrinks (TemplateKey_discrete dec) template_values s key Template.other false get_time
          store.valid.consistent) in
      let untouched =
        get-other (TemplateKey_discrete dec) template_values s key other Template.other false
          get_time differs store.valid.consistent in
      let after_set =
        get-set_other (TemplateKey_discrete dec) template_values s1 key other t Template.other
          no_options true set_time later differs valid refl (size ∙ store.unlimited) in
      let after_get =
        get-same (TemplateKey_discrete dec) template_values s s1 other Template.other true later
          untouched hook ttl in
      rw (after_set ∙ after_get, get_template, add_template) refl
