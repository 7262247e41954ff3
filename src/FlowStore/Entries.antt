-- ===== src/FlowStore/Entries.antt =====
-- The helpers of store.go that run under the lock. Each returns the store that it leaves, and the
-- events in the order in which they are recorded.
use goflow.Base.{
  ℕ, zero, suc, ◌+◌, List, [], ◌∷◌, ◌++◌, Bool, true, false, ◌&&◌, ◌||◌, not, Option, none, some,
  length, ltb, leb, ◌==◌, if◌then◌else◌,
}
use goflow.FlowStore.Types.{
  StoreError, add_not_supported, Values, DeleteReason, expired, evicted, HookEvent, set_event,
  delete_event, get_event, Entry, EntryOptions, Store,
}
use goflow.FlowStore.Map.{lookup, remove, put, update, erase}

module _ {V : Type 0} (values : Values V) where
  -- `addValue`
  unfoldable pub add_value : V → V → Bool → V × Option StoreError
  add_value dst delta existed = elim values.addable [
    | none ↦ (dst, some add_not_supported)
    | some add ↦ add dst delta existed
  ]

  -- `setValue`, with the assignment that its callers make where it was not used.
  unfoldable pub set_value : V → V → Bool → V × Option StoreError
  set_value dst val existed = elim values.settable [
    | none ↦ (val, none)
    | some set ↦ set dst val existed
  ]

  -- `copyValue` into the destination
  unfoldable pub copy_value : V → V → V
  copy_value dst src = elim values.copyable [
    | some copy ↦ copy dst src
    | none ↦ elim values.settable [ some set ↦ (set dst src true).0 | none ↦ src ]
  ]

-- `!expiresAt.IsZero() && !now.Before(expiresAt)`
abbrev pub is_expired_at : Option ℕ → ℕ → Bool
is_expired_at none now = false
is_expired_at (some t) now = leb t now

module _ {K V : Type 0} where
  -- `expiresAtFor`; the zero time is `none`
  unfoldable pub expires_at_for : Store K V → ℕ → EntryOptions → Bool → Option ℕ
  expires_at_for s now opts existing =
      if opts.no_expiration || opts.ttl_set && opts.ttl == 0
      then none
      else if opts.ttl_set
      then some (now + opts.ttl)
      else if not existing && ltb 0 s.default_ttl
      then some (now + s.default_ttl)
      else none

  -- The expiry of an entry that a write finds.
  unfoldable pub expiry_on_write : Store K V → ℕ → EntryOptions → Option ℕ → Option ℕ
  expiry_on_write s now opts current =
      if opts.ttl_set
      then expires_at_for s now opts true
      else if s.refresh_ttl && ltb 0 s.default_ttl
      then some (now + s.default_ttl)
      else current

  -- `expiredLocked`
  abbrev pub is_expired : Entry K V → ℕ → Bool
  is_expired ent now = is_expired_at ent.expires_at now

  -- `maybeExtendLocked`: the extended entry, if the hook extends it.
  unfoldable pub maybe_extend : Store K V → Entry K V → ℕ → Option (Entry K V)
  maybe_extend s ent now = elim s.on_expire [
    | none ↦ none
    | some hook ↦
        let (extend, ttl) = hook ent.key ent.value in
        if not extend
        then none
        else if not (ttl == 0)
        then some (record ent { expires_at = some (now + ttl) })
        else if s.default_ttl == 0
        then some (record ent { expires_at = none })
        else some (record ent { expires_at = some (now + s.default_ttl) })
  ]

  -- `notifyChangeLocked`
  unfoldable pub notify_change : Store K V → Store K V
  notify_change s = record s { changes = if s.change_notify then s.changes + 1 else s.changes }

  unfoldable pub record_set : Store K V → List (HookEvent K V) → K → V → Bool → List (HookEvent K V)
  record_set s events k v existed =
      if s.hooks.on_set then events ++ set_event k v existed ∷ [] else events

  unfoldable pub record_delete :
      Store K V → List (HookEvent K V) → Entry K V → DeleteReason → List (HookEvent K V)
  record_delete s events ent reason =
      if s.hooks.on_delete then events ++ delete_event ent.key ent.value reason ∷ [] else events

  unfoldable pub record_get : Store K V → List (HookEvent K V) → Entry K V → List (HookEvent K V)
  record_get s events ent =
      if s.hooks.on_get then events ++ get_event ent.key ent.value ∷ [] else events

  -- `s.hooks.OnSetMutate(key, &ent.value, existed)`, if it is set
  unfoldable pub mutate : Store K V → K → V → Bool → V
  mutate s k v existed = elim s.hooks.on_set_mutate [ none ↦ v | some hook ↦ hook k v existed ]

module _ {K V : Type 0} (dec : Discrete K) where
  -- `deleteLocked`, by the key of the entry
  unfoldable pub delete_locked : Store K V → K → Store K V
  delete_locked s k = record s { entries = remove dec k s.entries; order = erase dec k s.order }

  -- `insertLocked`, with what is then set of the entry
  unfoldable pub insert_locked : Store K V → Entry K V → Store K V
  insert_locked s ent = record s {
    entries = put dec ent.key ent s.entries;
    order = s.order ++ ent.key ∷ [];
  }

  -- A change of an entry in place.
  unfoldable pub update_entry : Store K V → Entry K V → Store K V
  update_entry s ent = record s { entries = update dec ent.key ent s.entries }

  -- How `Add` and `Set` find an entry: one that has expired is extended or dropped.
  unfoldable pub find_for_write :
      Store K V → K → ℕ → Option (Entry K V) × Store K V × List (HookEvent K V)
  find_for_write s k now = elim (lookup dec k s.entries) [
    | none ↦ (none, s, [])
    | some ent ↦
        if is_expired ent now
        then (elim (maybe_extend s ent now) [
          | some ent' ↦ (some ent', update_entry s ent', [])
          | none ↦ (none, delete_locked s k, record_delete s [] ent expired)
        ])
        else (some ent, s, [])
  ]

  -- The event of an eviction, if the element of the list has its entry.
  unfoldable pub record_evicted : Store K V → List (HookEvent K V) → K → List (HookEvent K V)
  record_evicted s events k = elim (lookup dec k s.entries) [
    | none ↦ events
    | some ent ↦ record_delete s events ent evicted
  ]

  -- What is evicted next: the front of the list, while there are too many entries.
  abbrev pub eviction : Store K V → Option K
  eviction s =
      if ltb s.max_size (length s.entries)
      then (elim s.order [ [] ↦ none | k ∷ ks ↦ some k ])
      else none

  -- The loop of `enforceMaxSizeLocked`, with the number of entries as fuel.
  unfoldable pub evict : ℕ → Store K V → List (HookEvent K V) → Store K V × List (HookEvent K V)
  evict zero s events = (s, events)
  evict (suc fuel) s events = elim (eviction s) [
    | none ↦ (s, events)
    | some k ↦ evict fuel (notify_change (delete_locked s k)) (record_evicted s events k)
  ]

  unfoldable pub enforce_max_size :
      Store K V → List (HookEvent K V) → Store K V × List (HookEvent K V)
  enforce_max_size s events =
      if s.max_size == 0 then (s, events) else evict (length s.entries) s events

  -- `expireBeforeLocked`, over the keys in the order of insertion that are left to visit: the store,
  -- the events and the number of entries removed.
  unfoldable pub expire_before :
      List K → Store K V → ℕ → List (HookEvent K V) → Store K V × List (HookEvent K V) × ℕ
  expire_before [] s now events = (s, events, 0)
  expire_before (k ∷ ks) s now events = elim (lookup dec k s.entries) [
    | none ↦ expire_before ks s now events
    | some ent ↦ elim (is_expired ent now) [
      | false ↦ expire_before ks s now events
      | true ↦ elim (maybe_extend s ent now) [
        | some ent' ↦ expire_before ks (update_entry s ent') now events
        | none ↦
            let (s', events', removed) =
              expire_before ks (notify_change (delete_locked s k)) now
                (record_delete s events ent expired) in
            (s', events', removed + 1)
      ]
    ]
  ]
