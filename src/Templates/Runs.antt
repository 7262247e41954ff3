-- ===== src/Templates/Runs.antt =====
-- Runs of calls of store.go in utils/store/templates: a template outlives calls for other templates.
use mathlib.Core.Logic.{if_neg}
use goflow.Base.{
  ℕ, ◌+◌, ◌<◌, ◌≡◌, ◌≢◌, ◌∙◌, sym, refl, List, [], ◌∷◌, true, All, ok, err, template_not_found,
}
use goflow.FlowStore.Types.{Store}
use goflow.Netflow.Types.{Template}
use goflow.Templates.Store.{
  TemplateKey, TemplateKey_discrete, add_template, get_template, remove_template,
}
use goflow.Templates.Laws.{
  IsTemplateStore, get_template-add_template, get_template-add_template_other,
}
use goflow.Templates.Keeps.{calls-IsTemplateStore}
use goflow.Templates.Removes.{get_twice, get_template-remove_template}

-- A call, with the readings of the clock.
pub data Call (R : Type 0) : Type 0 where
  add_call : TemplateKey R → Template → ℕ → ℕ → Call R
  get_call : TemplateKey R → ℕ → Call R
  remove_call : TemplateKey R → ℕ → Call R

abbrev pub call_key : {R : Type 0} → Call R → TemplateKey R
call_key (add_call key t get_time set_time) = key
call_key (get_call key now) = key
call_key (remove_call key now) = key

module _ {R : Type 0} (dec : Discrete R) where
  abbrev pub call_store : Store (TemplateKey R) Template → Call R → Store (TemplateKey R) Template
  call_store s (add_call key t get_time set_time) = (add_template dec s key t get_time set_time).1
  call_store s (get_call key now) = (get_template dec s key now).1
  call_store s (remove_call key now) = (remove_template dec s key now).1

  abbrev pub run : Store (TemplateKey R) Template → List (Call R) → Store (TemplateKey R) Template
  run s [] = s
  run s (call ∷ calls) = run (call_store s call) calls

  call-IsTemplateStore :
      (s : Store (TemplateKey R) Template) (call : Call R)
      → IsTemplateStore dec s
      → IsTemplateStore dec (call_store s call)
  call-IsTemplateStore s (add_call key t get_time set_time) h =
      (calls-IsTemplateStore dec s key t get_time set_time 0 h).0
  call-IsTemplateStore s (get_call key now) h =
      (calls-IsTemplateStore dec s key Template.other 0 0 now h).1
  call-IsTemplateStore s (remove_call key now) h =
      (calls-IsTemplateStore dec s key Template.other 0 0 now h).2

  call_other :
      (s : Store (TemplateKey R) Template) (call : Call R) (key : TemplateKey R) (later : ℕ)
      → IsTemplateStore dec s
      → key ≢ call_key call
      → (get_template dec (call_store s call) key later).0 ≡ (get_template dec s key later).0
  unfolding get_template
  call_other s (add_call k t get_time set_time) key later h n =
      get_template-add_template_other dec s k key t get_time set_time later h n
  call_other s (get_call k now) key later h n =
      rw (get_template, get_twice dec s k key true true now later n h.valid.consistent) refl
  call_other s (remove_call k now) key later h n =
      (get_template-remove_template dec s k key now later h.valid.consistent).1
      ∙ if_neg (TemplateKey_discrete dec k key) (λ q. n (sym q)) (err template_not_found)
          (get_template dec s key later).0

  run_others :
      (calls : List (Call R)) (s : Store (TemplateKey R) Template) (key : TemplateKey R) (later : ℕ)
      → IsTemplateStore dec s
      → All (λ call. key ≢ call_key call) calls
      → (get_template dec (run s calls) key later).0 ≡ (get_template dec s key later).0
  run_others [] s key later h others = refl
  run_others (call ∷ calls) s key later h others =
      run_others calls (call_store s call) key later (call-IsTemplateStore s call h) others.1
      ∙ call_other s call key later h others.0

  -- A template that is added to a store of templates with a positive time to live is what
  -- `GetTemplate` gives for its key until that time has passed, after any calls of `AddTemplate`,
  -- `GetTemplate` and `RemoveTemplate` for other keys, with any clock readings.
  pub get_template-run :
      (calls : List (Call R)) (s : Store (TemplateKey R) Template) (key : TemplateKey R)
      (t : Template) (get_time set_time later : ℕ)
      → IsTemplateStore dec s
      → All (λ call. key ≢ call_key call) calls
      → later < set_time + s.default_ttl
      → 0 < s.default_ttl
      → (get_template dec (run (add_template dec s key t get_time set_time).1 calls) key later).0
        ≡ ok t
  get_template-run calls s key t get_time set_time later h others fresh positive =
      run_others calls (add_template dec s key t get_time set_time).1 key later
        (calls-IsTemplateStore dec s key t get_time set_time 0 h).0 others
      ∙ get_template-add_template dec s key t get_time set_time later h fresh positive
