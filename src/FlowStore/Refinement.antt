-- ===== src/FlowStore/Refinement.antt =====
-- The store implements its specification.
use mathlib.Core.Logic.{ite}
use goflow.Base.{
  ℕ, ◌≤◌, ◌≡◌, ◌⊎◌, inl, inr, refl, sym, ap, ◌∙◌, List, [], ◌∷◌, Bool, true, false, ◌&&◌, ltb,
  Option, none, some, arith, Option-cases, Bool-cases,
}
use goflow.FlowStore.Types.{Entry, Store, Values}
use goflow.FlowStore.Map.{lookup, lookup-remove}
use goflow.FlowStore.Entries.{
  delete_locked, notify_change, is_expired_at, is_expired, find_for_write, expires_at_for,
  expiry_on_write,
}
use goflow.FlowStore.Operations.{set, get, delete}
use goflow.FlowStore.Lookup.{set-lookup}
use goflow.FlowStore.ReadBack.{get_absent}
use goflow.FlowStore.Others.{set-other, get-other}
use goflow.FlowStore.Spec.{
  Op, set_op, delete_op, get_op, with_ttl, Spec, expiry, visible, spec_step, replay, time_of,
  end_time, IsTimed, store_step, run,
}
use goflow.FlowStore.Plain.{
  IsPlain, get_present, set-IsPlain, get-IsPlain, delete-IsPlain, mutate-plain, maybe_extend-final,
}

-- An entry of the map against that of the specification, at the time c: the same, or dropped where
-- it has expired.
abbrev pub Agrees : {K V : Type 0} → ℕ → Option (Entry K V) → Option (V × Option ℕ) → Type 0
Agrees {K} {V} c o none = o ≡ none
Agrees {K} {V} c o (some (v, e)) =
    ((ent : Entry K V) × (o ≡ some ent) × (ent.value ≡ v) × (ent.expires_at ≡ e))
    ⊎ ((o ≡ none) × (is_expired_at e c ≡ true))

expired_later :
    (e : Option ℕ) (c d : ℕ) → is_expired_at e c ≡ true → c ≤ d → is_expired_at e d ≡ true
expired_later none c d h le = h
expired_later (some t) c d h le = ground arith

Agrees-later :
    {K V : Type 0} (c d : ℕ) (o : Option (Entry K V)) (p : Option (V × Option ℕ))
    → Agrees c o p
    → c ≤ d
    → Agrees d o p
Agrees-later c d o none h le = h
Agrees-later c d o (some (v, e)) (inl h) le = inl h
Agrees-later c d o (some (v, e)) (inr (n, old)) le = inr (n, expired_later e c d old le)

module _ {K V : Type 0} (dec : Discrete K) (values : Values V) where
  -- At the time c the map holds what the specification says.
  abbrev pub Refines : Store K V → Spec K V → ℕ → Type 0
  Refines s f c = (j : K) → Agrees c (lookup dec j s.entries) (f j)

  pub get-visible :
      (s : Store K V) (p : Option (V × Option ℕ)) (j : K) (dest : V) (with_hooks : Bool)
      (c later : ℕ)
      → IsPlain dec values s
      → values.settable ≡ none
      → values.copyable ≡ none
      → c ≤ later
      → Agrees c (lookup dec j s.entries) p
      → (get dec values s j dest with_hooks later).0 ≡ visible p later
  get-visible s none j dest with_hooks c later plain settable copyable le h =
      get_absent dec values s j dest with_hooks later h
  get-visible s (some (v, e)) j dest with_hooks c later plain settable copyable le
        (inl (ent, o, q, t)) =
      get_present dec values s ent j dest with_hooks later plain settable copyable o
      ∙ rw (q, t) refl
  get-visible s (some (v, e)) j dest with_hooks c later plain settable copyable le (inr (n, old)) =
      get_absent dec values s j dest with_hooks later n ∙ rw (expired_later e c later old le) refl

  set-Refines :
      (s : Store K V) (f : Spec K V) (c : ℕ) (k : K) (v : V) (ttl now : ℕ)
      → IsPlain dec values s
      → values.settable ≡ none
      → Refines s f c
      → c ≤ now
      → Refines
          (set dec values s k v (with_ttl ttl) now).2
          (spec_step dec f (set_op k v ttl now))
          now
  set-Refines s f c k v ttl now plain settable h le j =
      let s' = (set dec values s k v (with_ttl ttl) now).2 in
      let s1 = (find_for_write dec s k now).1 in
      let found =
        set-lookup dec values s k v (with_ttl ttl) now (expiry ttl now) plain.valid settable (
          (unfold expires_at_for in ground arith),
          λ current. (unfold expiry_on_write expires_at_for in ground arith),
        ) in
      elim (dec k j)
        as (λ d. Agrees now (lookup dec j s'.entries) (ite d (some (v, expiry ttl now)) (f j))) [
          | yes e ↦ inl (
            _,
            ap (λ i. lookup dec i s'.entries) (sym e) ∙ found,
            mutate-plain dec values s k v _ plain.unhooked,
            refl,
          )
          | no n ↦
              let other =
                set-other dec values s k j v (with_ttl ttl) now (λ q. n (sym q))
                  plain.valid.consistent settable plain.unlimited in
              rw other (Agrees-later c now (lookup dec j s.entries) (f j) (h j) le)
        ]

  pub delete-lookup :
      (s : Store K V) (k j : K)
      → lookup dec j (delete dec values s k).1.entries ≡ ite (dec k j) none (lookup dec j s.entries)
  unfolding delete notify_change delete_locked
  delete-lookup s k j = elim (Option-cases (lookup dec k s.entries)) [
    | inl absent ↦ rw (absent, delete) (ground (arith, absent))
    | inr (ent, there) ↦ rw (there, delete) (lookup-remove dec j k s.entries)
  ]

  delete-Refines :
      (s : Store K V) (f : Spec K V) (c : ℕ) (k : K)
      → Refines s f c
      → Refines (delete dec values s k).1 (spec_step dec f (delete_op k)) c
  delete-Refines s f c k h j =
      rw (delete-lookup s k j)
        (elim (dec k j)
          as (λ d. Agrees c (ite d none (lookup dec j s.entries)) (ite d none (f j))) [
            | yes e ↦ refl
            | no n ↦ h j
          ])

  dropped-lookup :
      (s : Store K V) (k : K) → lookup dec k (notify_change (delete_locked dec s k)).entries ≡ none
  unfolding notify_change delete_locked
  dropped-lookup s k = ground (arith, lookup-remove dec k k s.entries)

  -- A read of the key itself: an entry that has expired is dropped.
  get_own :
      (s : Store K V) (p : Option (V × Option ℕ)) (c : ℕ) (k : K) (dest : V) (with_hooks : Bool)
      (now : ℕ)
      → IsPlain dec values s
      → c ≤ now
      → Agrees c (lookup dec k s.entries) p
      → Agrees now (lookup dec k (get dec values s k dest with_hooks now).1.entries) p
  unfolding get
  get_own s none c k dest with_hooks now plain le h = rw (h, get) h
  get_own s (some (v, e)) c k dest with_hooks now plain le (inr (n, old)) =
      rw (n, get) (inr (n, expired_later e c now old le))
  get_own s (some (v, e)) c k dest with_hooks now plain le (inl (ent, o, q, t)) =
      elim (Bool-cases (is_expired ent now)) [
        | inl old ↦
            rw (o, get, old, maybe_extend-final s ent now plain.final)
              (inr (dropped-lookup s k, rw t at old))
        | inr young ↦
            let off : (with_hooks && s.refresh_ttl_on_read && ltb 0 s.default_ttl) ≡ false =
              let r = plain.unrefreshed in ground arith in
            rw (o, get, young, off) (inl (ent, o, q, t))
      ]

  get-Refines :
      (s : Store K V) (f : Spec K V) (c : ℕ) (k : K) (dest : V) (with_hooks : Bool) (now : ℕ)
      → IsPlain dec values s
      → Refines s f c
      → c ≤ now
      → Refines (get dec values s k dest with_hooks now).1 f now
  get-Refines s f c k dest with_hooks now plain h le j = elim (dec k j) [
    | yes e ↦ rw (sym e) (get_own s (f k) c k dest with_hooks now plain le (h k))
    | no n ↦
        rw (get-other dec values s k j dest with_hooks now (λ q. n (sym q)) plain.valid.consistent)
          (Agrees-later c now (lookup dec j s.entries) (f j) (h j) le)
  ]

  -- One call on the store and on the specification.
  step-Refines :
      (s : Store K V) (f : Spec K V) (c : ℕ) (op : Op K V)
      → IsPlain dec values s
      → values.settable ≡ none
      → Refines s f c
      → c ≤ time_of c op
      → IsPlain dec values (store_step dec values s op)
        × Refines (store_step dec values s op) (spec_step dec f op) (time_of c op)
  step-Refines s f c (set_op k v ttl now) plain settable h le = (
    set-IsPlain dec values s k v (with_ttl ttl) now settable plain,
    set-Refines s f c k v ttl now plain settable h le,
  )
  step-Refines s f c (delete_op k) plain settable h le =
      (delete-IsPlain dec values s k plain, delete-Refines s f c k h)
  step-Refines s f c (get_op k dest with_hooks now) plain settable h le = (
    get-IsPlain dec values s k dest with_hooks now plain,
    get-Refines s f c k dest with_hooks now plain h le,
  )

  run-Refines :
      (ops : List (Op K V)) (s : Store K V) (f : Spec K V) (c : ℕ)
      → IsPlain dec values s
      → values.settable ≡ none
      → Refines s f c
      → IsTimed c ops
      → IsPlain dec values (run dec values s ops)
        × Refines (run dec values s ops) (replay dec f ops) (end_time c ops)
  run-Refines [] s f c plain settable h timed = (plain, h)
  run-Refines (op ∷ ops) s f c plain settable h timed =
      let (plain', h') = step-Refines s f c op plain settable h timed.0 in
      run-Refines ops (store_step dec values s op) (spec_step dec f op) (time_of c op) plain'
        settable h' timed.1

  -- After any calls of Set with a time to live, Delete and Get, with a clock that does not go back, on
  -- a plain store that held what the specification says, a read of any key gives what the
  -- specification gives for it: the value that was set last, unless it was deleted since or has
  -- expired.
  pub run-get :
      (ops : List (Op K V)) (s : Store K V) (f : Spec K V) (c : ℕ) (j : K) (dest : V)
      (with_hooks : Bool) (later : ℕ)
      → IsPlain dec values s
      → values.settable ≡ none
      → values.copyable ≡ none
      → Refines s f c
      → IsTimed c ops
      → end_time c ops ≤ later
      → (get dec values (run dec values s ops) j dest with_hooks later).0
        ≡ visible (replay dec f ops j) later
  run-get ops s f c j dest with_hooks later plain settable copyable h timed le =
      let (plain', h') = run-Refines ops s f c plain settable h timed in
      get-visible (run dec values s ops) (replay dec f ops j) j dest with_hooks (end_time c ops)
        later plain' settable copyable le (h' j)
