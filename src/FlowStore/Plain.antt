-- ===== src/FlowStore/Plain.antt =====
-- Stores of values that are replaced and copied wholesale, and what the methods keep of them.
use goflow.Base.{
  ℕ, ◌≡◌, inl, inr, refl, ap, ◌∙◌, Bool, true, false, none, some, arith, Option-cases, Bool-cases,
  if◌then◌else◌,
}
use goflow.FlowStore.Types.{Entry, EntryOptions, Hooks, Store, Values}
use goflow.FlowStore.Map.{lookup}
use goflow.FlowStore.Entries.{
  delete_locked, notify_change, update_entry, maybe_extend, is_expired_at, is_expired, copy_value,
  mutate, find_for_write, enforce_max_size, insert_locked,
}
use goflow.FlowStore.Operations.{set, get, delete, write_new, write_existing}
use goflow.FlowStore.Keeps.{IsValid, Shrinks-IsValid}
use goflow.FlowStore.Preserves.{set-IsValid, get-Shrinks, delete-Shrinks}
use goflow.FlowStore.Lookup.{set_value-plain}
use goflow.FlowStore.Others.{set-config, find_for_write-config}

copy_value-plain :
    {V : Type 0} (values : Values V) (dest v : V)
    → values.settable ≡ none
    → values.copyable ≡ none
    → copy_value values dest v ≡ v
unfolding copy_value
copy_value-plain values dest v settable copyable = rw (copyable, copy_value, settable) refl

pub maybe_extend-final :
    {K V : Type 0} (s : Store K V) (ent : Entry K V) (now : ℕ)
    → s.on_expire ≡ none
    → maybe_extend s ent now ≡ none
unfolding maybe_extend
maybe_extend-final s ent now final = rw (final, maybe_extend) refl

module _ {K V : Type 0} (dec : Discrete K) (values : Values V) where
  -- A store of values that are replaced and copied wholesale, with no limit on its size, no hook that
  -- changes values or extends an expiry, and no refresh on reads.
  pub record IsPlain (s : Store K V) : Type 0 where
    pub valid : IsValid dec s
    pub unlimited : s.max_size ≡ 0
    pub unhooked : s.hooks.on_set_mutate ≡ none
    pub final : s.on_expire ≡ none
    pub unrefreshed : s.refresh_ttl_on_read ≡ false

  -- What a read gives where the entry is known.
  pub get_present :
      (s : Store K V) (ent : Entry K V) (j : K) (dest : V) (with_hooks : Bool) (later : ℕ)
      → IsPlain s
      → values.settable ≡ none
      → values.copyable ≡ none
      → lookup dec j s.entries ≡ some ent
      → (get dec values s j dest with_hooks later).0
        ≡ (if is_expired_at ent.expires_at later then none else some ent.value)
  unfolding get
  get_present s ent j dest with_hooks later plain settable copyable there =
      let same = copy_value-plain values dest ent.value settable copyable in
      let stays = maybe_extend-final s ent later plain.final in
      elim (Bool-cases (is_expired ent later)) [
        | inl old ↦ rw (there, get, old, stays) refl
        | inr young ↦ rw (there, get, young, same) refl
      ]

  find_for_write-refresh :
      (s : Store K V) (k : K) (now : ℕ)
      → (find_for_write dec s k now).1.refresh_ttl_on_read ≡ s.refresh_ttl_on_read
  unfolding find_for_write update_entry delete_locked
  find_for_write-refresh s k now = ground arith

  set-refresh :
      (s : Store K V) (k : K) (v : V) (opts : EntryOptions) (now : ℕ)
      → values.settable ≡ none
      → s.max_size ≡ 0
      → (set dec values s k v opts now).2.refresh_ttl_on_read ≡ s.refresh_ttl_on_read
  unfolding set
  set-refresh s k v opts now settable unlimited =
      let same = find_for_write-refresh s k now in
      let (_, _, size, _, _) = find_for_write-config dec values s k now in
      elim (Option-cases (find_for_write dec s k now).0) [
        | inl absent ↦
            rw (absent, set, set_value-plain dec values values.zero_value v false settable)
              (unfold write_new notify_change enforce_max_size insert_locked in ground arith)
        | inr (ent, found) ↦
            rw (found, set, set_value-plain dec values ent.value v true settable)
              (unfold write_existing notify_change update_entry in same)
      ]

  pub set-IsPlain :
      (s : Store K V) (k : K) (v : V) (opts : EntryOptions) (now : ℕ)
      → values.settable ≡ none
      → IsPlain s
      → IsPlain (set dec values s k v opts now).2
  set-IsPlain s k v opts now settable plain =
      let (hook, _, size, _, hooks) =
        set-config dec values s k v opts now settable plain.unlimited in
      record {
        valid = set-IsValid dec values s k v opts now plain.valid;
        unlimited = size ∙ plain.unlimited;
        unhooked = ap (λ (h : Hooks K V). h.on_set_mutate) hooks ∙ plain.unhooked;
        final = hook ∙ plain.final;
        unrefreshed = set-refresh s k v opts now settable plain.unlimited ∙ plain.unrefreshed;
      }

  pub get-IsPlain :
      (s : Store K V) (k : K) (dest : V) (with_hooks : Bool) (now : ℕ)
      → IsPlain s
      → IsPlain (get dec values s k dest with_hooks now).1
  unfolding get update_entry delete_locked notify_change
  get-IsPlain s k dest with_hooks now plain = record {
    valid =
        Shrinks-IsValid dec plain.valid
          (get-Shrinks dec values s k dest with_hooks now plain.valid.consistent);
    unlimited = (let h = plain.unlimited in ground arith);
    unhooked = (let h = plain.unhooked in ground arith);
    final = (let h = plain.final in ground arith);
    unrefreshed = (let h = plain.unrefreshed in ground arith);
  }

  pub delete-IsPlain : (s : Store K V) (k : K) → IsPlain s → IsPlain (delete dec values s k).1
  unfolding delete delete_locked notify_change
  delete-IsPlain s k plain = record {
    valid = Shrinks-IsValid dec plain.valid (delete-Shrinks dec values s k plain.valid.consistent);
    unlimited = (let h = plain.unlimited in ground arith);
    unhooked = (let h = plain.unhooked in ground arith);
    final = (let h = plain.final in ground arith);
    unrefreshed = (let h = plain.unrefreshed in ground arith);
  }

  pub mutate-plain :
      (s : Store K V) (k : K) (v : V) (existed : Bool)
      → s.hooks.on_set_mutate ≡ none
      → mutate s k v existed ≡ v
  unfolding mutate
  mutate-plain s k v existed off = rw (off, mutate) refl
