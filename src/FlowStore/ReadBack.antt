-- ===== src/FlowStore/ReadBack.antt =====
-- `Get` after `Set` and after `Delete`.
use mathlib.Core.Logic.{ite}
use goflow.Base.{
  ℕ, ◌+◌, ◌<◌, ◌≡◌, refl, inl, inr, Bool-cases, Option-cases, Bool, true, false, none, some, arith,
  leb,
}
use goflow.FlowStore.Types.{Entry, Store, EntryOptions, Values}
use goflow.FlowStore.Map.{lookup, lookup-remove}
use goflow.FlowStore.Entries.{
  delete_locked, notify_change, maybe_extend, find_for_write, copy_value, expires_at_for,
  expiry_on_write, is_expired, mutate,
}
use goflow.FlowStore.Operations.{no_options, set, get, delete}
use goflow.FlowStore.Keeps.{IsValid}
use goflow.FlowStore.Lookup.{set-lookup, expires_at_for-ttl, find_for_write-ttl}

module _ {K V : Type 0} (dec : Discrete K) (values : Values V) where
  -- A value that is set with a time to live, in a valid store of values that are replaced
  -- wholesale, is read back until that time has passed, whatever the size limit evicts: the value is
  -- the one that `OnSetMutate` leaves.
  pub get-set :
      (s : Store K V) (k : K) (v dest : V) (opts : EntryOptions) (with_hooks : Bool) (now later : ℕ)
      → IsValid dec s
      → values.settable ≡ none
      → opts.ttl_set ≡ true
      → opts.no_expiration ≡ false
      → later < now + opts.ttl
      → 0 < opts.ttl
      → (get dec values (set dec values s k v opts now).2 k dest with_hooks later).0
        ≡ some (copy_value values dest (mutate s k v (set dec values s k v opts now).0))
  unfolding get
  get-set s k v dest opts with_hooks now later valid plain ttl_set expiring fresh positive =
      let s' = (find_for_write dec s k now).1 in
      let at = expires_at_for-ttl dec s' now opts false ttl_set expiring positive in
      let again = expires_at_for-ttl dec s' now opts true ttl_set expiring positive in
      let found =
        set-lookup dec values s k v opts now (some (now + opts.ttl)) valid plain
          (at, λ current. (unfold expiry_on_write in ground arith)) in
      let young : leb (now + opts.ttl) later ≡ false = ground arith in rw (found, get, young) refl

  -- The same for a call with no options, in a store that refreshes its default time to live on
  -- writes.
  pub get-set_default :
      (s : Store K V) (k : K) (v dest : V) (with_hooks : Bool) (now later : ℕ)
      → IsValid dec s
      → values.settable ≡ none
      → s.refresh_ttl ≡ true
      → later < now + s.default_ttl
      → 0 < s.default_ttl
      → (get dec values (set dec values s k v no_options now).2 k dest with_hooks later).0
        ≡ some (copy_value values dest (mutate s k v (set dec values s k v no_options now).0))
  unfolding get
  get-set_default s k v dest with_hooks now later valid plain refreshed fresh positive =
      let s' = (find_for_write dec s k now).1 in
      let (ttl, refresh) = find_for_write-ttl dec s k now in
      let found =
        set-lookup dec values s k v no_options now (some (now + s.default_ttl)) valid plain (
          (unfold expires_at_for in ground arith),
          λ current. (unfold expiry_on_write in ground arith),
        ) in
      let young : leb (now + s.default_ttl) later ≡ false = ground arith in
      rw (found, get, young) refl

  maybe_extend-same :
      (s t : Store K V) (ent : Entry K V) (now : ℕ)
      → t.on_expire ≡ s.on_expire
      → t.default_ttl ≡ s.default_ttl
      → maybe_extend t ent now ≡ maybe_extend s ent now
  unfolding maybe_extend
  maybe_extend-same s t ent now hook ttl = elim (Option-cases s.on_expire) [
    | inl off ↦ rw (hook, off, maybe_extend) refl
    | inr (f, on) ↦ ground (arith, hook, on, ttl)
  ]

  pub get_absent :
      (s : Store K V) (j : K) (dest : V) (with_hooks : Bool) (now : ℕ)
      → lookup dec j s.entries ≡ none
      → (get dec values s j dest with_hooks now).0 ≡ none
  unfolding get
  get_absent s j dest with_hooks now absent = rw (absent, get) refl

  -- What a read gives hangs on the entry of the key, and on how entries are extended.
  pub get-same :
      (s t : Store K V) (j : K) (dest : V) (with_hooks : Bool) (now : ℕ)
      → lookup dec j t.entries ≡ lookup dec j s.entries
      → t.on_expire ≡ s.on_expire
      → t.default_ttl ≡ s.default_ttl
      → (get dec values t j dest with_hooks now).0 ≡ (get dec values s j dest with_hooks now).0
  unfolding get
  get-same s t j dest with_hooks now found hook ttl = elim (Option-cases (lookup dec j s.entries)) [
    | inl absent ↦ rw (found, absent, get) refl
    | inr (ent, there) ↦ elim (Bool-cases (is_expired ent now)) [
      | inl old ↦
          let same = maybe_extend-same s t ent now hook ttl in
          elim (Option-cases (maybe_extend s ent now)) [
            | inl dropped ↦ rw (found, there, get, old, same, dropped) refl
            | inr (ent', extended) ↦ rw (found, there, get, old, same, extended) refl
          ]
      | inr young ↦ rw (found, there, get, young) refl
    ]
  ]

  -- After `Delete` the key is not found, at any time, and every other key is read as before.
  pub get-delete :
      (s : Store K V) (k j : K) (dest : V) (with_hooks : Bool) (now : ℕ)
      → (get dec values (delete dec values s k).1 j dest with_hooks now).0
        ≡ ite (dec k j) none (get dec values s j dest with_hooks now).0
  unfolding delete
  get-delete s k j dest with_hooks now = elim (Option-cases (lookup dec k s.entries)) [
    | inl absent ↦ rw (absent, delete) (ground (arith, get_absent s j dest with_hooks now))
    | inr (ent, there) ↦
        let t = notify_change (delete_locked dec s k) in
        let removed : lookup dec j t.entries ≡ ite (dec k j) none (lookup dec j s.entries) =
          unfold notify_change delete_locked in lookup-remove dec j k s.entries in
        let hook : t.on_expire ≡ s.on_expire = unfold notify_change delete_locked in refl in
        let ttl : t.default_ttl ≡ s.default_ttl = unfold notify_change delete_locked in refl in
        rw (there, delete)
          (ground (
            arith,
            removed,
            get_absent t j dest with_hooks now,
            get-same s t j dest with_hooks now,
          ))
  ]
