-- ===== src/FlowStore/Preserves.antt =====
-- The invariant `IsValid` under the methods of the store.
use goflow.Base.{
  ℕ, ◌+◌, ◌≡◌, ap, ◌∙◌, inl, inr, Option-cases, Bool-cases, List, [], ◌∷◌, Bool, true, false,
  Option, none, some, length, arith, if◌then◌else◌, ◌==◌,
}
use goflow.FlowStore.Types.{Entry, Store, HookEvent, EntryOptions, Values, StoreError}
use goflow.FlowStore.Map.{lookup}
use goflow.FlowStore.Entries.{
  delete_locked, insert_locked, maybe_extend, enforce_max_size, expire_before, find_for_write,
  is_expired,
}
use goflow.FlowStore.Invariant.{IsConsistent, insert_locked-IsConsistent, evict-IsConsistent}
use goflow.FlowStore.Operations.{
  write_existing, write_new, new_entry, add, set, get, delete, flush_keys, flush,
}
use goflow.FlowStore.Keeps.{
  IsValid, Shrinks, Shrinks-IsValid, Shrinks-trans, Shrinks-refl, delete_locked-Shrinks,
  update_entry-Shrinks, notify_change-Shrinks, extend-Shrinks, find_for_write-Finds,
}

module _ {K V : Type 0} (dec : Discrete K) where
  -- An insertion under a limit: the eviction that follows it keeps the limit.
  pub enforce_max_size-IsValid :
      (s : Store K V) (events : List (HookEvent K V))
      → IsConsistent dec s
      → IsValid dec (enforce_max_size dec s events).0
  unfolding enforce_max_size
  enforce_max_size-IsValid s events c = elim (Bool-cases (s.max_size == 0)) [
    | inl free ↦ rw free (record { consistent = c; bounded = λ m. absurd (m (ground arith)) })
    | inr limited ↦
        let r = evict-IsConsistent dec (length s.entries) s events c (omega arith) in
        rw limited (record { consistent = r.0; bounded = λ m. omega (arith, r.1, r.2) })
  ]

  if-Shrinks :
      (s t u : Store K V) (b : Bool)
      → Shrinks dec s t
      → Shrinks dec s u
      → Shrinks dec s (if b then t else u)
  if-Shrinks s t u true h k = h
  if-Shrinks s t u false h k = k

  pub expire_before-Shrinks :
      (ks : List K) (s : Store K V) (now : ℕ) (events : List (HookEvent K V))
      → IsConsistent dec s
      → Shrinks dec s (expire_before dec ks s now events).0
  unfolding expire_before
  expire_before-Shrinks [] s now events c = Shrinks-refl dec c
  expire_before-Shrinks (k ∷ ks) s now events c = elim (Option-cases (lookup dec k s.entries)) [
    | inl missing ↦ rw (missing, expire_before) (expire_before-Shrinks ks s now events c)
    | inr (ent, found) ↦ elim (Bool-cases (is_expired ent now)) [
      | inl old ↦ elim (Option-cases (maybe_extend s ent now)) [
        | inl dropped ↦
            let h = delete_locked-Shrinks dec s k found c in
            let h' = Shrinks-trans dec h (notify_change-Shrinks dec h.consistent) in
            rw (found, expire_before, old, dropped)
              (Shrinks-trans dec h' (expire_before-Shrinks ks _ now _ h'.consistent))
        | inr (ent', extended) ↦
            let h = extend-Shrinks dec s k ent ent' now found extended c in
            rw (found, expire_before, old, extended)
              (Shrinks-trans dec h (expire_before-Shrinks ks _ now events h.consistent))
      ]
      | inr fresh ↦ rw (found, expire_before, fresh) (expire_before-Shrinks ks s now events c)
    ]
  ]

module _ {K V : Type 0} (dec : Discrete K) (values : Values V) where
  write_existing-Shrinks :
      (s : Store K V) (events : List (HookEvent K V)) (ent : Entry K V) (now : ℕ)
      (opts : EntryOptions) (merged : V × Option StoreError)
      → lookup dec ent.key s.entries ≡ some ent
      → IsConsistent dec s
      → Shrinks dec s (write_existing dec values s events ent now opts merged).1
  unfolding write_existing
  write_existing-Shrinks s events ent now opts (v, some e) found c =
      update_entry-Shrinks dec s ent _ found c
  write_existing-Shrinks s events ent now opts (v, none) found c =
      let h = update_entry-Shrinks dec s ent _ found c in
      Shrinks-trans dec h (notify_change-Shrinks dec h.consistent)

  write_new-IsValid :
      (s : Store K V) (events : List (HookEvent K V)) (k : K) (now : ℕ) (opts : EntryOptions)
      (merged : V × Option StoreError)
      → lookup dec k s.entries ≡ none
      → IsValid dec s
      → IsValid dec (write_new dec values s events k now opts merged).1
  unfolding write_new
  write_new-IsValid s events k now opts (v, some e) absent v' = v'
  write_new-IsValid s events k now opts (v, none) absent v' =
      let fresh = new_entry s k now opts v in
      let kept =
        enforce_max_size-IsValid dec (insert_locked dec s fresh) events
          (insert_locked-IsConsistent dec s fresh (unfold new_entry in absent) v'.consistent) in
      Shrinks-IsValid dec kept (notify_change-Shrinks dec kept.consistent)

  pub set-IsValid :
      (s : Store K V) (k : K) (val : V) (opts : EntryOptions) (now : ℕ)
      → IsValid dec s
      → IsValid dec (set dec values s k val opts now).2
  unfolding set
  set-IsValid s k val opts now v =
      let f = find_for_write-Finds dec s k now v.consistent in
      let v' = Shrinks-IsValid dec v f.shrinks in
      elim (Option-cases (find_for_write dec s k now).0) [
        | inl new ↦ rw (new, set) (write_new-IsValid _ _ k now opts _ (f.absent new) v')
        | inr (ent, old) ↦
            let (key, there) = f.present ent old in
            rw (old, set)
              (Shrinks-IsValid dec v' (
                write_existing-Shrinks _ _ ent now opts _
                  (ap (λ j. lookup dec j (find_for_write dec s k now).1.entries) key ∙ there)
                  f.shrinks.consistent))
      ]

  pub add-IsValid :
      (s : Store K V) (k : K) (delta : V) (opts : EntryOptions) (now : ℕ)
      → IsValid dec s
      → IsValid dec (add dec values s k delta opts now).1
  unfolding add
  add-IsValid s k delta opts now v =
      let f = find_for_write-Finds dec s k now v.consistent in
      let v' = Shrinks-IsValid dec v f.shrinks in
      elim (Option-cases (find_for_write dec s k now).0) [
        | inl new ↦ rw (new, add) (write_new-IsValid _ _ k now opts _ (f.absent new) v')
        | inr (ent, old) ↦
            let (key, there) = f.present ent old in
            rw (old, add)
              (Shrinks-IsValid dec v' (
                write_existing-Shrinks _ _ ent now opts _
                  (ap (λ j. lookup dec j (find_for_write dec s k now).1.entries) key ∙ there)
                  f.shrinks.consistent))
      ]

  pub get-Shrinks :
      (s : Store K V) (k : K) (dest : V) (with_hooks : Bool) (now : ℕ)
      → IsConsistent dec s
      → Shrinks dec s (get dec values s k dest with_hooks now).1
  unfolding get
  get-Shrinks s k dest with_hooks now c = elim (Option-cases (lookup dec k s.entries)) [
    | inl missing ↦ rw (missing, get) (Shrinks-refl dec c)
    | inr (ent, found) ↦ elim (Bool-cases (is_expired ent now)) [
      | inl old ↦ elim (Option-cases (maybe_extend s ent now)) [
        | inl dropped ↦
            let h = delete_locked-Shrinks dec s k found c in
            rw (found, get, old, dropped)
              (Shrinks-trans dec h (notify_change-Shrinks dec h.consistent))
        | inr (ent', extended) ↦
            rw (found, get, old, extended) (extend-Shrinks dec s k ent ent' now found extended c)
      ]
      | inr fresh ↦
          let key = ap (λ j. lookup dec j s.entries) (c.keyed k ent found) ∙ found in
          rw (found, get, fresh)
            (if-Shrinks dec s _ _ _
              (update_entry-Shrinks dec s ent
                (record ent { expires_at = some (now + s.default_ttl) }) key c)
              (Shrinks-refl dec c))
    ]
  ]

  pub delete-Shrinks :
      (s : Store K V) (k : K) → IsConsistent dec s → Shrinks dec s (delete dec values s k).1
  unfolding delete
  delete-Shrinks s k c = elim (Option-cases (lookup dec k s.entries)) [
    | inl missing ↦ rw (missing, delete) (Shrinks-refl dec c)
    | inr (ent, found) ↦
        let h = delete_locked-Shrinks dec s k found c in
        rw (found, delete) (Shrinks-trans dec h (notify_change-Shrinks dec h.consistent))
  ]

  flush_keys-Shrinks :
      (visit : List K) (s : Store K V) (events : List (HookEvent K V))
      → IsConsistent dec s
      → Shrinks dec s (flush_keys dec values visit s events).0
  unfolding flush_keys
  flush_keys-Shrinks [] s events c = Shrinks-refl dec c
  flush_keys-Shrinks (k ∷ ks) s events c = elim (Option-cases (lookup dec k s.entries)) [
    | inl missing ↦ rw (missing, flush_keys) (flush_keys-Shrinks ks s events c)
    | inr (ent, found) ↦
        let h = delete_locked-Shrinks dec s k found c in
        rw (found, flush_keys)
          (Shrinks-trans dec h (flush_keys-Shrinks ks (delete_locked dec s k) _ h.consistent))
  ]

  pub flush-Shrinks :
      (visit : List K) (s : Store K V)
      → IsConsistent dec s
      → Shrinks dec s (flush dec values visit s).0
  unfolding flush
  flush-Shrinks visit s c =
      let h = flush_keys-Shrinks visit s [] c in
      Shrinks-trans dec h (notify_change-Shrinks dec h.consistent)
