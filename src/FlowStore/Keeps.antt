-- ===== src/FlowStore/Keeps.antt =====
-- The invariant of the store, and what helpers that add no entry keep of it.
use goflow.Base.{
  ℕ, ◌≤◌, ◌≡◌, ◌≢◌, refl, ap, sym, ◌∙◌, inl, inr, Option-cases, Bool-cases, List, Option, none,
  some, length, arith,
}
use goflow.FlowStore.Types.{Entry, Store, HookEvent}
use goflow.FlowStore.Map.{lookup, lookup-remove, lookup-update, length-remove, length-keys-update}
use goflow.FlowStore.Entries.{
  delete_locked, update_entry, notify_change, maybe_extend, find_for_write, is_expired,
}
use goflow.FlowStore.Invariant.{
  IsConsistent, delete_locked-IsConsistent, update_entry-IsConsistent, notify_change-IsConsistent,
  maybe_extend_lem,
}

module _ {K V : Type 0} (dec : Discrete K) where
  -- The invariant of a store: the map and the list agree, and a limit on the size is kept.
  pub record IsValid (s : Store K V) : Type 0 where
    pub consistent : IsConsistent dec s
    pub bounded : s.max_size ≢ 0 → length s.entries ≤ s.max_size

  -- `t` is a consistent store with the limit of `s` and no more entries.
  pub record Shrinks (s t : Store K V) : Type 0 where
    pub consistent : IsConsistent dec t
    pub fewer : length t.entries ≤ length s.entries
    pub limit : t.max_size ≡ s.max_size

  pub Shrinks-IsValid : {s t : Store K V} → IsValid s → Shrinks s t → IsValid t
  Shrinks-IsValid v h = record {
    consistent = h.consistent;
    bounded = λ m. let b = v.bounded (λ z. m (h.limit ∙ z)) in omega (arith, h.fewer, h.limit);
  }

  pub Shrinks-trans : {s t u : Store K V} → Shrinks s t → Shrinks t u → Shrinks s u
  Shrinks-trans h k = record {
    consistent = k.consistent;
    fewer = omega (arith, h.fewer, k.fewer);
    limit = k.limit ∙ h.limit;
  }

  pub Shrinks-refl : {s : Store K V} → IsConsistent dec s → Shrinks s s
  Shrinks-refl c = record { consistent = c; fewer = omega arith; limit = refl }

  pub delete_locked-Shrinks :
      (s : Store K V) (k : K) {ent : Entry K V}
      → lookup dec k s.entries ≡ some ent
      → IsConsistent dec s
      → Shrinks s (delete_locked dec s k)
  delete_locked-Shrinks s k found c = record {
    consistent = delete_locked-IsConsistent dec s k found c;
    fewer = unfold delete_locked in omega (arith, length-remove dec k s.entries);
    limit = unfold delete_locked in refl;
  }

  pub update_entry-Shrinks :
      (s : Store K V) (old ent : Entry K V)
      → lookup dec ent.key s.entries ≡ some old
      → IsConsistent dec s
      → Shrinks s (update_entry dec s ent)
  update_entry-Shrinks s old ent found c = record {
    consistent = update_entry-IsConsistent dec s old ent found c;
    fewer = unfold update_entry in omega (arith, length-keys-update dec ent.key ent s.entries);
    limit = unfold update_entry in refl;
  }

  pub notify_change-Shrinks : {s : Store K V} → IsConsistent dec s → Shrinks s (notify_change s)
  notify_change-Shrinks {s} c = record {
    consistent = notify_change-IsConsistent dec s c;
    fewer = unfold notify_change in omega arith;
    limit = unfold notify_change in refl;
  }

  pub extend-Shrinks :
      (s : Store K V) (k : K) (ent ent' : Entry K V) (now : ℕ)
      → lookup dec k s.entries ≡ some ent
      → maybe_extend s ent now ≡ some ent'
      → IsConsistent dec s
      → Shrinks s (update_entry dec s ent')
  extend-Shrinks s k ent ent' now found extended c =
      update_entry-Shrinks s ent ent'
        (ap (λ j. lookup dec j s.entries)
            ((maybe_extend_lem dec s ent ent' now extended).0 ∙ c.keyed k ent found)
          ∙ found)
        c

  -- What `find_for_write` finds: an entry of the key in the store that it leaves, or no entry.
  pub record Finds (s : Store K V) (k : K)
      (r : Option (Entry K V) × Store K V × List (HookEvent K V)) : Type 0 where
    pub shrinks : Shrinks s r.1
    pub absent : r.0 ≡ none → lookup dec k r.1.entries ≡ none
    pub present :
        (ent : Entry K V) → r.0 ≡ some ent → (ent.key ≡ k) × (lookup dec k r.1.entries ≡ some ent)

  extended_found :
      (s : Store K V) (k : K) (ent ent' e : Entry K V) (now : ℕ)
      → lookup dec k s.entries ≡ some ent
      → maybe_extend s ent now ≡ some ent'
      → IsConsistent dec s
      → ent' ≡ e
      → (e.key ≡ k) × (lookup dec k (update_entry dec s ent').entries ≡ some e)
  unfolding update_entry
  extended_found s k ent ent' e now found extended c same =
      let key : ent'.key ≡ k =
        (maybe_extend_lem dec s ent ent' now extended).0 ∙ c.keyed k ent found in
      (
        ap (λ (x : Entry K V). x.key) (sym same) ∙ key,
        ground (
          arith,
          same,
          key,
          lookup-update dec k ent'.key ent' ent s.entries
              (ap (λ j. lookup dec j s.entries) key ∙ found),
        ),
      )

  pub find_for_write-Finds :
      (s : Store K V) (k : K) (now : ℕ)
      → IsConsistent dec s
      → Finds s k (find_for_write dec s k now)
  unfolding find_for_write
  find_for_write-Finds s k now c = elim (Option-cases (lookup dec k s.entries)) [
    | inl missing ↦
        rw (missing, find_for_write)
          (record { shrinks = Shrinks-refl c; absent = λ _. missing; present = λ ent h. cc })
    | inr (ent, found) ↦ elim (Bool-cases (is_expired ent now)) [
      | inl old ↦ elim (Option-cases (maybe_extend s ent now)) [
        | inl dropped ↦
            rw (found, find_for_write, old, dropped)
              (record {
                shrinks = delete_locked-Shrinks s k found c;
                absent =
                    λ _. unfold delete_locked in ground (arith, lookup-remove dec k k s.entries);
                present = λ e h. cc;
              })
        | inr (ent', extended) ↦
            rw (found, find_for_write, old, extended)
              (record {
                shrinks = extend-Shrinks s k ent ent' now found extended c;
                absent = λ h. cc;
                present = λ e h. extended_found s k ent ent' e now found extended c (ground arith);
              })
      ]
      | inr fresh ↦
          rw (found, find_for_write, fresh)
            (record {
              shrinks = Shrinks-refl c;
              absent = λ h. cc;
              present = λ e h. (ground (arith, c.keyed k ent found), ground (arith, found));
            })
    ]
  ]
