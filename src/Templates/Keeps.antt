-- ===== src/Templates/Keeps.antt =====
-- The configuration of a template store under the calls of store.go in utils/store/templates.
use goflow.Base.{ℕ, ◌≡◌, refl, ◌∙◌, ap, Bool, true, false, arith, inl, inr, Option-cases}
use goflow.FlowStore.Types.{Hooks, Store}
use goflow.FlowStore.Entries.{update_entry, delete_locked, notify_change}
use goflow.FlowStore.Operations.{no_options, get, set, delete}
use goflow.FlowStore.Keeps.{IsValid, Shrinks-IsValid}
use goflow.FlowStore.Preserves.{get-Shrinks, set-IsValid, delete-Shrinks}
use goflow.FlowStore.Others.{set-config}
use goflow.Netflow.Types.{Template}
use goflow.Templates.Store.{
  TemplateKey, TemplateKey_discrete, template_values, add_template, get_template, remove_template,
}
use goflow.Templates.Laws.{IsTemplateStore}

module _ {R : Type 0} (dec : Discrete R) where
  -- A store with the options of a template store is one if it is valid.
  same-IsTemplateStore :
      (s t : Store (TemplateKey R) Template)
      → IsTemplateStore dec s
      → IsValid (TemplateKey_discrete dec) t
      → (t.refresh_ttl ≡ s.refresh_ttl) × (t.max_size ≡ s.max_size) × (t.hooks ≡ s.hooks)
      → IsTemplateStore dec t
  same-IsTemplateStore s t store valid (refresh, size, hooks) = record {
    valid = valid;
    refreshing = refresh ∙ store.refreshing;
    unlimited = size ∙ store.unlimited;
    plain = ap (λ (h : Hooks (TemplateKey R) Template). h.on_set_mutate) hooks ∙ store.plain;
  }

  get-IsTemplateStore :
      (s : Store (TemplateKey R) Template) (key : TemplateKey R) (with_hooks : Bool) (now : ℕ)
      → IsTemplateStore dec s
      → IsTemplateStore dec
          (get (TemplateKey_discrete dec) template_values s key Template.other with_hooks now).1
  get-IsTemplateStore s key with_hooks now store =
      same-IsTemplateStore s
        (get (TemplateKey_discrete dec) template_values s key Template.other with_hooks now).1 store
        (Shrinks-IsValid (TemplateKey_discrete dec) store.valid (
          get-Shrinks (TemplateKey_discrete dec) template_values s key Template.other with_hooks now
            store.valid.consistent))
        (unfold get update_entry delete_locked notify_change in
          (ground arith, ground arith, ground arith))

  set-IsTemplateStore :
      (s : Store (TemplateKey R) Template) (key : TemplateKey R) (t : Template) (now : ℕ)
      → IsTemplateStore dec s
      → IsTemplateStore dec
          (set (TemplateKey_discrete dec) template_values s key t no_options now).2
  set-IsTemplateStore s key t now store =
      let (_, _, size, refresh, hooks) =
        set-config (TemplateKey_discrete dec) template_values s key t no_options now refl
          store.unlimited in
      same-IsTemplateStore s
        (set (TemplateKey_discrete dec) template_values s key t no_options now).2 store
        (set-IsValid (TemplateKey_discrete dec) template_values s key t no_options now store.valid)
        (refresh, size, hooks)

  delete-IsTemplateStore :
      (s : Store (TemplateKey R) Template) (key : TemplateKey R)
      → IsTemplateStore dec s
      → IsTemplateStore dec (delete (TemplateKey_discrete dec) template_values s key).1
  delete-IsTemplateStore s key store =
      same-IsTemplateStore s (delete (TemplateKey_discrete dec) template_values s key).1 store
        (Shrinks-IsValid (TemplateKey_discrete dec) store.valid
          (delete-Shrinks (TemplateKey_discrete dec) template_values s key store.valid.consistent))
        (unfold delete delete_locked notify_change in (ground arith, ground arith, ground arith))

  -- `AddTemplate`, `GetTemplate` and `RemoveTemplate` leave a valid store with the configuration of a
  -- template store: writes refresh the time to live, no size limit, and no hook that changes values.
  pub calls-IsTemplateStore :
      (s : Store (TemplateKey R) Template) (key : TemplateKey R) (t : Template)
      (get_time set_time now : ℕ)
      → IsTemplateStore dec s
      → IsTemplateStore dec (add_template dec s key t get_time set_time).1
        × IsTemplateStore dec (get_template dec s key now).1
        × IsTemplateStore dec (remove_template dec s key now).1
  unfolding add_template get_template remove_template
  calls-IsTemplateStore s key t get_time set_time now store =
      let read = get-IsTemplateStore s key false now store in
      (
        set-IsTemplateStore
            (get (TemplateKey_discrete dec) template_values s key Template.other false get_time).1
            key t set_time (get-IsTemplateStore s key false get_time store),
        get-IsTemplateStore s key true now store,
        elim (Option-cases
            (get (TemplateKey_discrete dec) template_values s key Template.other false now).0) [
              | inl missing ↦ rw (missing, remove_template) read
              | inr (u, found) ↦
                  rw (found, remove_template)
                    (delete-IsTemplateStore
                      (get (TemplateKey_discrete dec) template_values s key Template.other false
                        now).1
                      key read)
            ],
      )
