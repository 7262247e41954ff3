-- ===== src/FlowStore/Others.antt =====
-- What `Set` and `Get` do to the entries of other keys.
use goflow.Base.{
  ◌&&◌, ltb, ◌+◌, ap, ℕ, ◌+◌, ◌≡◌, ◌≢◌, refl, ◌∙◌, inl, inr, Bool-cases, Option-cases, List, Bool,
  true, false, none, some, arith,
}
use goflow.FlowStore.Types.{Entry, Store, HookEvent, EntryOptions, Values}
use goflow.FlowStore.Map.{lookup, lookup-remove, lookup-put, lookup-update}
use goflow.FlowStore.Entries.{
  delete_locked, insert_locked, update_entry, notify_change, maybe_extend, enforce_max_size,
  find_for_write, expiry_on_write, is_expired, mutate,
}
use goflow.FlowStore.Operations.{new_entry, write_existing, write_new, set, get}
use goflow.FlowStore.Invariant.{IsConsistent, maybe_extend_lem}
use goflow.FlowStore.Keeps.{IsValid, find_for_write-Finds}
use goflow.FlowStore.Lookup.{set_value-plain}
use goflow.FlowStore.ReadBack.{get-same}

module _ {K V : Type 0} (dec : Discrete K) (values : Values V) where
  -- What `Set` does to the entries of other keys where the store has no limit on its size.
  find_for_write-other :
      (s : Store K V) (k j : K) (now : ℕ)
      → j ≢ k
      → IsConsistent dec s
      → lookup dec j (find_for_write dec s k now).1.entries ≡ lookup dec j s.entries
  unfolding find_for_write
  find_for_write-other s k j now other c = elim (Option-cases (lookup dec k s.entries)) [
    | inl missing ↦ rw (missing, find_for_write) refl
    | inr (ent, found) ↦ elim (Bool-cases (is_expired ent now)) [
      | inl old ↦ elim (Option-cases (maybe_extend s ent now)) [
        | inl dropped ↦
            rw (found, find_for_write, old, dropped)
              (unfold delete_locked in ground (arith, lookup-remove dec j k s.entries))
        | inr (ent', extended) ↦
            let same : ent'.key ≡ k =
              (maybe_extend_lem dec s ent ent' now extended).0 ∙ c.keyed k ent found in
            rw (found, find_for_write, old, extended)
              (unfold update_entry in
                ground (arith, same, lookup-update dec j ent'.key ent' ent s.entries))
      ]
      | inr fresh ↦ rw (found, find_for_write, fresh) refl
    ]
  ]

  -- A read does not touch the entries of other keys.
  pub get-other :
      (s : Store K V) (k j : K) (dest : V) (with_hooks : Bool) (now : ℕ)
      → j ≢ k
      → IsConsistent dec s
      → lookup dec j (get dec values s k dest with_hooks now).1.entries ≡ lookup dec j s.entries
  unfolding get
  get-other s k j dest with_hooks now other c = elim (Option-cases (lookup dec k s.entries)) [
    | inl missing ↦ rw (missing, get) refl
    | inr (ent, found) ↦
        let same = c.keyed k ent found in
        elim (Bool-cases (is_expired ent now)) [
          | inl old ↦ elim (Option-cases (maybe_extend s ent now)) [
            | inl dropped ↦
                rw (found, get, old, dropped)
                  (unfold delete_locked notify_change in
                    ground (arith, lookup-remove dec j k s.entries))
            | inr (ent', extended) ↦
                let same' : ent'.key ≡ k =
                  (maybe_extend_lem dec s ent ent' now extended).0 ∙ same in
                rw (found, get, old, extended)
                  (unfold update_entry in
                    ground (arith, same', lookup-update dec j ent'.key ent' ent s.entries))
          ]
          | inr fresh ↦
              let touched = record ent { expires_at = some (now + s.default_ttl) } in
              rw (found, get, fresh)
                (elim (Bool-cases (with_hooks && s.refresh_ttl_on_read && ltb 0 s.default_ttl)) [
                  | inl on ↦ rw on (
                      unfold update_entry in
                      ground (arith, same, lookup-update dec j ent.key touched ent s.entries))
                  | inr off ↦ rw off refl
                ])
        ]
  ]

  enforce_max_size_unlimited :
      (s : Store K V) (events : List (HookEvent K V))
      → s.max_size ≡ 0
      → (enforce_max_size dec s events).0.entries ≡ s.entries
  unfolding enforce_max_size
  enforce_max_size_unlimited s events unlimited = ground arith

  write_new-other :
      (s : Store K V) (events : List (HookEvent K V)) (k j : K) (now : ℕ) (opts : EntryOptions)
      (v : V)
      → j ≢ k
      → s.max_size ≡ 0
      → lookup dec j (write_new dec values s events k now opts (v, none)).1.entries
        ≡ lookup dec j s.entries
  unfolding write_new notify_change
  write_new-other s events k j now opts v other unlimited =
      let ent = new_entry s k now opts v in
      let same =
        enforce_max_size_unlimited (insert_locked dec s ent) events
          (unfold insert_locked in unlimited) in
      ap (λ (m : List (K × Entry K V)). lookup dec j m) same
      ∙ (unfold insert_locked new_entry in ground (arith, lookup-put dec j k ent s.entries))

  write_existing-other :
      (s : Store K V) (events : List (HookEvent K V)) (k j : K) (ent : Entry K V) (now : ℕ)
      (opts : EntryOptions) (v : V)
      → j ≢ k
      → lookup dec k s.entries ≡ some ent
      → ent.key ≡ k
      → lookup dec j (write_existing dec values s events ent now opts (v, none)).1.entries
        ≡ lookup dec j s.entries
  unfolding write_existing notify_change update_entry
  write_existing-other s events k j ent now opts v other found same =
      let written : Entry K V = record {
        key = k;
        value = mutate s k v true;
        expires_at = expiry_on_write s now opts ent.expires_at;
      } in
      rw same (ground (arith, lookup-update dec j k written ent s.entries))

  pub set-other :
      (s : Store K V) (k j : K) (v : V) (opts : EntryOptions) (now : ℕ)
      → j ≢ k
      → IsConsistent dec s
      → values.settable ≡ none
      → s.max_size ≡ 0
      → lookup dec j (set dec values s k v opts now).2.entries ≡ lookup dec j s.entries
  unfolding set
  set-other s k j v opts now other c plain unlimited =
      let finds = find_for_write-Finds dec s k now c in
      let s' = (find_for_write dec s k now).1 in
      let events = (find_for_write dec s k now).2 in
      let kept = find_for_write-other s k j now other c in
      elim (Option-cases (find_for_write dec s k now).0) [
        | inl absent ↦
            rw (absent, set, set_value-plain dec values values.zero_value v false plain)
              (write_new-other s' events k j now opts v other (finds.shrinks.limit ∙ unlimited)
                ∙ kept)
        | inr (ent, found) ↦
            let (same, there) = finds.present ent found in
            rw (found, set, set_value-plain dec values ent.value v true plain)
              (write_existing-other s' events k j ent now opts v other there same ∙ kept)
      ]

  pub find_for_write-config :
      (s : Store K V) (k : K) (now : ℕ)
      → (((find_for_write dec s k now).1).on_expire ≡ s.on_expire)
        × (((find_for_write dec s k now).1).default_ttl ≡ s.default_ttl)
        × (((find_for_write dec s k now).1).max_size ≡ s.max_size)
        × (((find_for_write dec s k now).1).refresh_ttl ≡ s.refresh_ttl)
        × (((find_for_write dec s k now).1).hooks ≡ s.hooks)
  unfolding find_for_write update_entry delete_locked
  find_for_write-config s k now =
      (ground arith, ground arith, ground arith, ground arith, ground arith)

  -- `Set` changes no option of the store.
  pub set-config :
      (s : Store K V) (k : K) (v : V) (opts : EntryOptions) (now : ℕ)
      → values.settable ≡ none
      → s.max_size ≡ 0
      → (((set dec values s k v opts now).2).on_expire ≡ s.on_expire)
        × (((set dec values s k v opts now).2).default_ttl ≡ s.default_ttl)
        × (((set dec values s k v opts now).2).max_size ≡ s.max_size)
        × (((set dec values s k v opts now).2).refresh_ttl ≡ s.refresh_ttl)
        × (((set dec values s k v opts now).2).hooks ≡ s.hooks)
  unfolding set
  set-config s k v opts now plain unlimited =
      let (hook, ttl, size, refresh, hooks) = find_for_write-config s k now in
      let s' = (find_for_write dec s k now).1 in
      elim (Option-cases (find_for_write dec s k now).0) [
        | inl absent ↦
            rw (absent, set, set_value-plain dec values values.zero_value v false plain)
              (unfold write_new notify_change enforce_max_size insert_locked in
                (ground arith, ground arith, ground arith, ground arith, ground arith))
        | inr (ent, found) ↦
            rw (found, set, set_value-plain dec values ent.value v true plain)
              (unfold write_existing notify_change update_entry in
                (hook, ttl, size, refresh, hooks))
      ]

  -- In a valid store with no limit on its size and values that are replaced wholesale, `Set` changes
  -- the result of no read of another key.
  pub get-set_other :
      (s : Store K V) (k j : K) (v dest : V) (opts : EntryOptions) (with_hooks : Bool)
      (now later : ℕ)
      → j ≢ k
      → IsValid dec s
      → values.settable ≡ none
      → s.max_size ≡ 0
      → (get dec values (set dec values s k v opts now).2 j dest with_hooks later).0
        ≡ (get dec values s j dest with_hooks later).0
  get-set_other s k j v dest opts with_hooks now later other valid plain unlimited =
      let (hook, ttl, _, _, _) = set-config s k v opts now plain unlimited in
      get-same dec values s (set dec values s k v opts now).2 j dest with_hooks later
        (set-other s k j v opts now other valid.consistent plain unlimited) hook ttl
