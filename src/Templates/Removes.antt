-- ===== src/Templates/Removes.antt =====
-- `RemoveTemplate` of store.go in utils/store/templates: what it gives, and `GetTemplate` after it.
use mathlib.Core.Logic.{ite, if_neg}
use goflow.Base.{
  ℕ, ◌≡◌, ◌≢◌, ◌∙◌, sym, refl, Bool, true, false, Option, none, some, Option-cases, inl, inr, arith,
  Result, ok, err, template_not_found,
}
use goflow.FlowStore.Types.{Store}
use goflow.FlowStore.Map.{lookup}
use goflow.FlowStore.Invariant.{IsConsistent}
use goflow.FlowStore.Operations.{get, delete}
use goflow.FlowStore.OwnKey.{get_quiet, get_missing, get_then_delete}
use goflow.FlowStore.ReadBack.{get_absent, get-same, get-delete}
use goflow.FlowStore.Refinement.{delete-lookup}
use goflow.FlowStore.Others.{get-other}
use goflow.Netflow.Types.{Template}
use goflow.Templates.Store.{
  TemplateKey, TemplateKey_discrete, template_values, get_template, remove_template,
}
use goflow.Templates.Laws.{get-config}

-- The template of a result of `GetTemplate`.
abbrev pub found_template : Result Template → Option Template
found_template (ok t) = some t
found_template (err e) = none

module _ {R : Type 0} (dec : Discrete R) where
  abbrev key_discrete : Discrete (TemplateKey R)
  key_discrete = TemplateKey_discrete dec

  -- A read of one key changes what a read of no other key gives.
  pub get_twice :
      (s : Store (TemplateKey R) Template) (key other : TemplateKey R) (first second : Bool)
      (now later : ℕ)
      → other ≢ key
      → IsConsistent key_discrete s
      → (get key_discrete template_values
          (get key_discrete template_values s key Template.other first now).1
          other
          Template.other
          second
          later).0
        ≡ (get key_discrete template_values s other Template.other second later).0
  get_twice s key other first second now later differs c =
      let (_, ttl, _, _, hook) = get-config dec s key first now in
      get-same key_discrete template_values s
        (get key_discrete template_values s key Template.other first now).1 other Template.other
        second later
        (get-other key_discrete template_values s key other Template.other first now differs c) hook
        ttl

  -- A read of any key, of a store without the key k that reads other keys as s does.
  read_without :
      (s u : Store (TemplateKey R) Template) (k j : TemplateKey R) (later : ℕ)
      → lookup key_discrete k u.entries ≡ none
      → (j ≢ k
          → (get key_discrete template_values u j Template.other true later).0
            ≡ (get key_discrete template_values s j Template.other true later).0)
      → (get_template dec u j later).0
        ≡ ite (key_discrete k j) (err template_not_found) (get_template dec s j later).0
  unfolding get_template
  read_without s u k j later gone same =
      elim (key_discrete k j)
        as (λ d.
          (get_template dec u j later).0
          ≡ ite d (err template_not_found) (get_template dec s j later).0) [
            | yes e ↦
                rw
                  (
                    sym e,
                    get_template,
                    get_absent key_discrete template_values u k Template.other true later gone,
                  )
                  refl
            | no n ↦ rw (get_template, same (λ q. n (sym q))) refl
          ]

  -- In a consistent store `RemoveTemplate` gives the template that `GetTemplate` would give at that
  -- time, or none where that finds none. After it `GetTemplate` does not find the template, at any
  -- time, and gives for every other router, version, domain or id what it gave before.
  pub get_template-remove_template :
      (s : Store (TemplateKey R) Template) (key other : TemplateKey R) (now later : ℕ)
      → IsConsistent key_discrete s
      → ((remove_template dec s key now).0 ≡ found_template (get_template dec s key now).0)
        × ((get_template dec (remove_template dec s key now).1 other later).0
            ≡ ite
                (key_discrete key other)
                (err template_not_found)
                (get_template dec s other later).0)
  unfolding get_template remove_template
  get_template-remove_template s key other now later c =
      let (found, s1, _) = get key_discrete template_values s key Template.other false now in
      let loud = get_quiet key_discrete template_values s key Template.other now in
      elim (Option-cases found) [
        | inl missing ↦ (
          rw (remove_template, get_template, loud, missing) refl,
          rw (missing, remove_template)
              (read_without s s1 key other later
                (get_missing key_discrete template_values s key Template.other now missing)
                (λ n. get_twice s key other false true now later n c)),
        )
        | inr (t, there) ↦
            let deleted =
              get_then_delete key_discrete template_values s key Template.other t now c there in
            let gone = delete-lookup key_discrete template_values s1 key key in
            let after =
              get-delete key_discrete template_values s1 key other Template.other true later in
            (
              rw (remove_template, get_template, loud, there, deleted) refl,
              rw (there, remove_template)
                  (read_without s (delete key_discrete template_values s1 key).1 key other later
                    (ground (arith, gone))
                    (λ n.
                      after
                      ∙ if_neg (key_discrete key other) (λ q. n (sym q)) none
                          (get key_discrete template_values s1 other Template.other true later).0
                      ∙ get_twice s key other false true now later n c)),
            )
      ]
