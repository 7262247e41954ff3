-- ===== src/FlowStore/Operations.antt =====
-- The methods of `Store`. The clock's reading `now` is an argument. An operation returns its result,
-- the store and the events for which hooks are called once the lock is released.
use goflow.Base.{
  ℕ, ◌+◌, List, [], ◌∷◌, Bool, true, false, ◌&&◌, Option, none, some, length, ltb, ◌==◌,
  if◌then◌else◌,
}
use goflow.FlowStore.Types.{
  StoreError, Values, explicit, expired, flushed, HookEvent, Hooks, Entry, EntryOptions, Store,
}
use goflow.FlowStore.Map.{lookup}
use goflow.FlowStore.Entries.{
  add_value, set_value, copy_value, expires_at_for, expiry_on_write, is_expired, maybe_extend,
  notify_change, record_set, record_delete, record_get, mutate, delete_locked, insert_locked,
  update_entry, find_for_write, enforce_max_size, expire_before,
}

-- `NewStore` with the options already applied to its fields.
abbrev pub new_store : {K V : Type 0} → Hooks K V → Store K V
new_store hooks = record {
  entries = [];
  order = [];
  on_expire = none;
  default_ttl = 0;
  refresh_ttl = false;
  refresh_ttl_on_read = false;
  max_size = 0;
  change_notify = false;
  changes = 0;
  hooks = hooks;
  sweeping = false;
}

-- The options of a call that has none.
abbrev pub no_options : EntryOptions
no_options = record { ttl_set = false; ttl = 0; no_expiration = false }

module _ {K V : Type 0} where
  -- `Start`: a sweeper is installed once, for an interval that is positive.
  unfoldable pub start : Store K V → ℕ → Store K V
  start s interval = if interval == 0 then s else record s { sweeping = true }

  -- `Stop`
  unfoldable pub stop : Store K V → Store K V
  stop s = record s { sweeping = false }

  -- `SetHooks`
  unfoldable pub set_hooks : Store K V → Hooks K V → Store K V
  set_hooks s hooks = record s { hooks = hooks }

-- The entry that a write makes, after `OnSetMutate` and with its expiry.
unfoldable pub new_entry : {K V : Type 0} → Store K V → K → ℕ → EntryOptions → V → Entry K V
new_entry s k now opts v = record {
  key = k;
  value = mutate s k v false;
  expires_at = expires_at_for s now opts false;
}

module _ {K V : Type 0} (dec : Discrete K) (values : Values V) where
  -- The end of `Add` and `Set` for an entry that is there. `merged` is the value that the write
  -- leaves, with its error; the expiry is set before the value.
  unfoldable pub write_existing :
      Store K V
      → List (HookEvent K V)
      → Entry K V
      → ℕ
      → EntryOptions
      → V × Option StoreError
      → Option StoreError × Store K V × List (HookEvent K V)
  write_existing s events ent now opts (v, some e) =
      let ent' = record ent { value = v; expires_at = expiry_on_write s now opts ent.expires_at } in
      (some e, update_entry dec s ent', events)
  write_existing s events ent now opts (v, none) =
      let v' = mutate s ent.key v true in
      let ent' = record ent {
        value = v';
        expires_at = expiry_on_write s now opts ent.expires_at;
      } in
      (none, notify_change (update_entry dec s ent'), record_set s events ent.key v' true)

  -- The end of `Add` and `Set` for a new entry. The set event has the value before the hook
  -- `OnSetMutate` changes it.
  unfoldable pub write_new :
      Store K V
      → List (HookEvent K V)
      → K
      → ℕ
      → EntryOptions
      → V × Option StoreError
      → Option StoreError × Store K V × List (HookEvent K V)
  write_new s events k now opts (v, some e) = (some e, s, events)
  write_new s events k now opts (v, none) =
      let s1 = insert_locked dec s (new_entry s k now opts v) in
      let (s', events') = enforce_max_size dec s1 events in
      (none, notify_change s', record_set s' events' k v false)

  -- `Add`
  unfoldable pub add :
      Store K V → K → V → EntryOptions → ℕ → Option StoreError × Store K V × List (HookEvent K V)
  add s k delta opts now =
      let (found, s', events) = find_for_write dec s k now in
      elim found [
        | some ent ↦ write_existing s' events ent now opts (add_value values ent.value delta true)
        | none ↦ write_new s' events k now opts (add_value values values.zero_value delta false)
      ]

  -- `Set`: whether the key existed, beside the error.
  unfoldable pub set :
      Store K V
      → K
      → V
      → EntryOptions
      → ℕ
      → Bool × Option StoreError × Store K V × List (HookEvent K V)
  set s k val opts now =
      let (found, s', events) = find_for_write dec s k now in
      elim found [
        | some ent ↦
            let (e, s'', events') =
              write_existing s' events ent now opts (set_value values ent.value val true) in
            (true, e, s'', events')
        | none ↦
            let (e, s'', events') =
              write_new s' events k now opts (set_value values values.zero_value val false) in
            (false, e, s'', events')
      ]

  -- `get`: the value copied into the destination `dest`, if there is one. Without hooks (`GetQuiet`)
  -- the events are dropped.
  unfoldable pub get : Store K V → K → V → Bool → ℕ → Option V × Store K V × List (HookEvent K V)
  get s k dest with_hooks now = elim (lookup dec k s.entries) [
    | none ↦ (none, s, [])
    | some ent ↦
        if is_expired ent now
        then (elim (maybe_extend s ent now) [
          | some ent' ↦ (some (copy_value values dest ent'.value), update_entry dec s ent', [])
          | none ↦ (
            none,
            notify_change (delete_locked dec s k),
            if with_hooks then record_delete s [] ent expired else [],
          )
        ])
        else (
          some (copy_value values dest ent.value),
          if with_hooks && s.refresh_ttl_on_read && ltb 0 s.default_ttl
              then update_entry dec s (record ent { expires_at = some (now + s.default_ttl) })
              else s,
          if with_hooks then record_get s [] ent else [],
        )
  ]

  -- `Delete`
  unfoldable pub delete : Store K V → K → Bool × Store K V × List (HookEvent K V)
  delete s k = elim (lookup dec k s.entries) [
    | none ↦ (false, s, [])
    | some ent ↦ (true, notify_change (delete_locked dec s k), record_delete s [] ent explicit)
  ]

  -- `Len`
  abbrev pub len : Store K V → ℕ
  len s = length s.entries

  -- `ExpireStale`
  unfoldable pub expire_stale : Store K V → ℕ → ℕ × Store K V × List (HookEvent K V)
  expire_stale s now =
      let (s', events, removed) = expire_before dec s.order s now [] in (removed, s', events)

  -- The copies that `Range` makes of the entries, in the order of insertion.
  unfoldable pub range_items : List K → List (K × Entry K V) → List (K × V)
  range_items [] m = []
  range_items (k ∷ ks) m =
      let rest = range_items ks m in
      elim (lookup dec k m) [
        | none ↦ rest
        | some ent ↦ (ent.key, copy_value values values.zero_value ent.value) ∷ rest
      ]

  -- `Range`: the items that the callback is given in turn, until it returns false.
  unfoldable pub range : Store K V → ℕ → List (K × V) × Store K V × List (HookEvent K V)
  range s now =
      let (s', events, removed) = expire_before dec s.order s now [] in
      (range_items s'.order s'.entries, s', events)

  -- The loop of `Flush`; `visit` is the order in which Go's map is iterated.
  unfoldable pub flush_keys :
      List K → Store K V → List (HookEvent K V) → Store K V × List (HookEvent K V)
  flush_keys [] s events = (s, events)
  flush_keys (k ∷ ks) s events = elim (lookup dec k s.entries) [
    | none ↦ flush_keys ks s events
    | some ent ↦ flush_keys ks (delete_locked dec s k) (record_delete s events ent flushed)
  ]

  -- `Flush`
  unfoldable pub flush : List K → Store K V → Store K V × List (HookEvent K V)
  flush visit s = let (s', events) = flush_keys visit s [] in (notify_change s', events)

  -- `Close`
  unfoldable pub close : List K → Store K V → Store K V × List (HookEvent K V)
  close visit s = flush visit (stop s)
