-- ===== src/FlowStore/Invariant.antt =====
-- The agreement of the map and the list of insertions, under the helpers of store.go.
use goflow.Base.{
  ℕ, zero, suc, ◌+◌, ◌≤◌, ◌<◌, ◌≡◌, refl, ap, ◌∙◌, inl, inr, Option-cases, List, [], ◌∷◌, none,
  some, length, length-append, arith,
}
use goflow.FlowStore.Types.{Entry, Store, HookEvent}
use goflow.FlowStore.Map.{
  count, lookup, put, keys, count-append, count-erase, length-erase, lookup-remove, lookup-put,
  lookup-update, keys-update, count-keys-remove, length-remove, count-lookup-none,
  count-lookup-some, length-keys-update,
}
use goflow.FlowStore.Entries.{
  delete_locked, insert_locked, update_entry, notify_change, maybe_extend, eviction, record_evicted,
  evict,
}

module _ {K V : Type 0} (dec : Discrete K) where
  -- Each key of the map stands in the list of insertions once and no other key does; the two have
  -- the same size, and an entry is filed under its key.
  pub record IsConsistent (s : Store K V) : Type 0 where
    pub placed : (k : K) → count dec k s.order ≡ count dec k (keys dec s.entries)
    pub once : (k : K) → count dec k s.order ≤ 1
    pub sizes : length s.order ≡ length s.entries
    pub keyed : (k : K) (ent : Entry K V) → lookup dec k s.entries ≡ some ent → ent.key ≡ k

  pub delete_locked-IsConsistent :
      (s : Store K V) (k : K) {ent : Entry K V}
      → lookup dec k s.entries ≡ some ent
      → IsConsistent s
      → IsConsistent (delete_locked dec s k)
  unfolding delete_locked
  delete_locked-IsConsistent s k {ent} found c =
      let present = count-lookup-some dec k s.entries found in
      let same = c.placed k in
      record {
        placed = λ j. ground (
          arith,
          c.placed j,
          c.once j,
          count-erase dec j k s.order,
          count-keys-remove dec j k s.entries,
        );
        once = λ j. ground (arith, c.once j, count-erase dec j k s.order);
        sizes =
            ground
              (arith, c.sizes, c.once k, length-erase dec k s.order, length-remove dec k s.entries);
        keyed = λ j e h. ground (arith, lookup-remove dec j k s.entries, c.keyed j e);
      }

  pub insert_locked-IsConsistent :
      (s : Store K V) (ent : Entry K V)
      → lookup dec ent.key s.entries ≡ none
      → IsConsistent s
      → IsConsistent (insert_locked dec s ent)
  unfolding insert_locked put count
  insert_locked-IsConsistent s ent absent c =
      let none_there = count-lookup-none dec ent.key s.entries absent in
      let same = c.placed ent.key in
      record {
        placed = λ j. ground (
          arith,
          c.placed j,
          count-append dec j s.order (ent.key ∷ []),
          count-keys-remove dec j ent.key s.entries,
        );
        once = λ j.
            ground (arith, c.once j, count-append dec j s.order (ent.key ∷ []), same, none_there);
        sizes = ground (
          arith,
          c.sizes,
          length-append s.order (ent.key ∷ []),
          length-remove dec ent.key s.entries,
        );
        keyed = λ j e h. ground (arith, lookup-put dec j ent.key ent s.entries, c.keyed j e);
      }

  pub update_entry-IsConsistent :
      (s : Store K V) (old ent : Entry K V)
      → lookup dec ent.key s.entries ≡ some old
      → IsConsistent s
      → IsConsistent (update_entry dec s ent)
  unfolding update_entry
  update_entry-IsConsistent s old ent found c = record {
    placed = λ j. rw keys-update (c.placed j);
    once = c.once;
    sizes = ground (arith, c.sizes, length-keys-update dec ent.key ent s.entries);
    keyed = λ j e h. ground (arith, lookup-update dec j ent.key ent old s.entries, c.keyed j e);
  }

  pub notify_change-IsConsistent : (s : Store K V) → IsConsistent s → IsConsistent (notify_change s)
  unfolding notify_change
  notify_change-IsConsistent s c = record {
    placed = c.placed;
    once = c.once;
    sizes = c.sizes;
    keyed = c.keyed;
  }

  pub maybe_extend_lem :
      (s : Store K V) (ent ent' : Entry K V) (now : ℕ)
      → maybe_extend s ent now ≡ some ent'
      → (ent'.key ≡ ent.key) × (ent'.value ≡ ent.value)
  unfolding maybe_extend
  maybe_extend_lem s ent ent' now h = ground arith

  pub extend-IsConsistent :
      (s : Store K V) (k : K) (ent ent' : Entry K V) (now : ℕ)
      → lookup dec k s.entries ≡ some ent
      → maybe_extend s ent now ≡ some ent'
      → IsConsistent s
      → IsConsistent (update_entry dec s ent')
  extend-IsConsistent s k ent ent' now found extended c =
      update_entry-IsConsistent s ent ent'
        (ap (λ j. lookup dec j s.entries)
            ((maybe_extend_lem s ent ent' now extended).0 ∙ c.keyed k ent found)
          ∙ found)
        c

  -- An element of the list has its entry in the map.
  pub found_of_count :
      (k : K) (s : Store K V)
      → 0 < count dec k s.order
      → IsConsistent s
      → (ent : Entry K V) × (lookup dec k s.entries ≡ some ent)
  found_of_count k s h c = elim (Option-cases (lookup dec k s.entries)) [
    | inl absent ↦ absurd (omega (arith, c.placed k, count-lookup-none dec k s.entries absent))
    | inr p ↦ p
  ]

  pub eviction-lem_count :
      (s : Store K V) (k : K) → eviction dec s ≡ some k → 0 < count dec k s.order
  unfolding count
  eviction-lem_count s k h = ground arith

  -- What an eviction leaves, and that it leaves one entry less.
  pub eviction_step :
      (s : Store K V) (k : K)
      → eviction dec s ≡ some k
      → IsConsistent s
      → IsConsistent (notify_change (delete_locked dec s k))
        × (length (notify_change (delete_locked dec s k)).entries + 1 ≡ length s.entries)
        × ((notify_change (delete_locked dec s k)).max_size ≡ s.max_size)
  eviction_step s k h c =
      let there = eviction-lem_count s k h in
      let (ent, found) = found_of_count k s there c in
      let kept = delete_locked-IsConsistent s k found c in
      (
        notify_change-IsConsistent (delete_locked dec s k) kept,
        (unfold notify_change delete_locked in
            omega (arith, c.placed k, c.once k, length-remove dec k s.entries)),
        (unfold notify_change delete_locked in refl),
      )

  pub evict-IsConsistent :
      (fuel : ℕ) (s : Store K V) (events : List (HookEvent K V))
      → IsConsistent s
      → length s.entries ≤ fuel + s.max_size
      → IsConsistent (evict dec fuel s events).0
        × (length (evict dec fuel s events).0.entries ≤ s.max_size)
        × ((evict dec fuel s events).0.max_size ≡ s.max_size)
  unfolding evict
  evict-IsConsistent zero s events c h = (c, omega arith, refl)
  evict-IsConsistent (suc fuel) s events c h = elim (Option-cases (eviction dec s)) [
    | inl stop ↦ rw (stop, evict) (c, ground (arith, c.sizes), refl)
    | inr (k, more) ↦
        let (c', n, m) = eviction_step s k more c in
        let rest =
          evict-IsConsistent fuel (notify_change (delete_locked dec s k))
            (record_evicted dec s events k) c' (omega arith) in
        rw (more, evict) (rest.0, omega (arith, m, rest.1), rest.2 ∙ m)
  ]
