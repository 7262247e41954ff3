-- ===== src/FlowStore/OwnKey.antt =====
-- What `Get` and `GetQuiet` of pkg/flowstore/store.go leave of the key that they read.
use goflow.Base.{
  ℕ, ◌≡◌, ◌∙◌, refl, true, false, none, some, arith, Option-cases, Bool-cases, inl, inr,
}
use goflow.FlowStore.Types.{Store, Values}
use goflow.FlowStore.Map.{lookup, lookup-remove, lookup-update}
use goflow.FlowStore.Entries.{is_expired, maybe_extend, update_entry, delete_locked, notify_change}
use goflow.FlowStore.Invariant.{IsConsistent, maybe_extend_lem}
use goflow.FlowStore.Operations.{get, delete}

module _ {K V : Type 0} (dec : Discrete K) (values : Values V) where
  -- Whether a read calls hooks makes no difference to what it gives.
  pub get_quiet :
      (s : Store K V) (k : K) (dest : V) (now : ℕ)
      → (get dec values s k dest true now).0 ≡ (get dec values s k dest false now).0
  unfolding get
  get_quiet s k dest now = ground arith

  -- A key that a read does not find is not in the map after it.
  pub get_missing :
      (s : Store K V) (k : K) (dest : V) (now : ℕ)
      → (get dec values s k dest false now).0 ≡ none
      → lookup dec k (get dec values s k dest false now).1.entries ≡ none
  unfolding get delete_locked notify_change
  get_missing s k dest now h = ground (arith, lookup-remove dec k k s.entries)

  -- A key that a quiet read finds is in the map after it, and `Delete` deletes it.
  pub get_then_delete :
      (s : Store K V) (k : K) (dest v : V) (now : ℕ)
      → IsConsistent dec s
      → (get dec values s k dest false now).0 ≡ some v
      → (delete dec values (get dec values s k dest false now).1 k).0 ≡ true
  unfolding get update_entry delete
  get_then_delete s k dest v now c h = elim (Option-cases (lookup dec k s.entries)) [
    | inl absent ↦ absurd (ground (arith, absent, h))
    | inr (ent, there) ↦
        let same = c.keyed k ent there in
        elim (Bool-cases (is_expired ent now)) [
          | inl old ↦ elim (Option-cases (maybe_extend s ent now)) [
            | inl dropped ↦ absurd (ground (arith, there, old, dropped, h))
            | inr (ent', extended) ↦
                let same' : ent'.key ≡ k =
                  (maybe_extend_lem dec s ent ent' now extended).0 ∙ same in
                rw (there, get, old, extended)
                  (ground (arith, there, same', lookup-update dec k k ent' ent s.entries there))
          ]
          | inr young ↦ rw (there, get, young, delete, there) refl
        ]
  ]
