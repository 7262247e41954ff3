-- ===== src/FlowStore/Lookup.antt =====
-- What `Set` leaves in the map for its key.
use goflow.Base.{
  Option, ℕ, zero, suc, ◌+◌, ◌≤◌, ◌<◌, ◌≡◌, ◌≢◌, refl, ◌∙◌, inl, inr, Bool-cases, Option-cases,
  List, [], ◌∷◌, ◌++◌, Bool, true, false, none, some, length, arith, ◌==◌,
}
use goflow.FlowStore.Types.{Entry, Store, HookEvent, EntryOptions, Values}
use goflow.FlowStore.Map.{
  count, erase, lookup, count-append, lookup-remove, lookup-put, lookup-update,
}
use goflow.FlowStore.Entries.{
  delete_locked, insert_locked, update_entry, notify_change, eviction, record_evicted, evict,
  enforce_max_size, find_for_write, set_value, expires_at_for, expiry_on_write, mutate,
}
use goflow.FlowStore.Operations.{new_entry, write_existing, write_new, set}
use goflow.FlowStore.Invariant.{IsConsistent, eviction_step, insert_locked-IsConsistent}
use goflow.FlowStore.Keeps.{IsValid, find_for_write-Finds}

module _ {K : Type 0} (dec : Discrete K) where
  -- A key at the end of a list with no key twice is not at its front, unless it is alone.
  front-ne-last : (k j : K) (ks : List K) → count dec k (j ∷ ks ++ k ∷ []) ≤ 1 → j ≢ k
  unfolding count
  front-ne-last k j ks once e = ground (arith, count-append dec k ks (k ∷ []))

  erase_front : (k : K) (ks : List K) → erase dec k (k ∷ ks) ≡ ks
  unfolding erase
  erase_front k ks = ground arith

module _ {K V : Type 0} (dec : Discrete K) where
  -- What is evicted is the front of the list.
  eviction_front :
      (s : Store K V) (j i : K) (ks : List K) → s.order ≡ i ∷ ks → eviction dec s ≡ some j → j ≡ i
  eviction_front s j i ks o h = ground arith

  -- The loop of evictions does not reach the newest entry.
  evict-newest :
      (fuel : ℕ) (s : Store K V) (events : List (HookEvent K V)) (k : K) (ks : List K)
      → s.order ≡ ks ++ k ∷ []
      → 0 < s.max_size
      → IsConsistent dec s
      → lookup dec k (evict dec fuel s events).0.entries ≡ lookup dec k s.entries
  unfolding evict
  evict-newest zero s events k ks o m c = refl
  evict-newest (suc fuel) s events k [] o m c =
      let kept : eviction dec s ≡ none = ground (arith, c.sizes) in rw (kept, evict) refl
  evict-newest (suc fuel) s events k (i ∷ ks) o m c = elim (Option-cases (eviction dec s)) [
    | inl kept ↦ rw (kept, evict) refl
    | inr (j, evicted) ↦
        let front = eviction_front s j i (ks ++ k ∷ []) o evicted in
        let t = notify_change (delete_locked dec s j) in
        let (c', fewer, limit) = eviction_step dec s j evicted c in
        let other = front-ne-last dec k i ks (rw o at c.once k) in
        rw (evicted, evict)
          (evict-newest fuel t (record_evicted dec s events j) k ks
              (unfold notify_change delete_locked in
                rw (o, front) (erase_front dec i (ks ++ k ∷ [])))
              (omega arith) c'
            ∙ (unfold notify_change delete_locked in
                ground (arith, lookup-remove dec k j s.entries, front, other)))
  ]

  -- A limit on the size does not evict the entry that was put in last.
  enforce_max_size-newest :
      (s : Store K V) (events : List (HookEvent K V)) (k : K) (ks : List K)
      → s.order ≡ ks ++ k ∷ []
      → IsConsistent dec s
      → lookup dec k (enforce_max_size dec s events).0.entries ≡ lookup dec k s.entries
  unfolding enforce_max_size
  enforce_max_size-newest s events k ks o c = elim (Bool-cases (s.max_size == 0)) [
    | inl unlimited ↦ rw (unlimited, enforce_max_size) refl
    | inr limited ↦
        rw (limited, enforce_max_size)
          (evict-newest (length s.entries) s events k ks o (ground arith) c)
  ]

  pub find_for_write-hooks :
      (s : Store K V) (k : K) (now : ℕ) → (find_for_write dec s k now).1.hooks ≡ s.hooks
  unfolding find_for_write update_entry delete_locked
  find_for_write-hooks s k now = ground arith

  pub find_for_write-ttl :
      (s : Store K V) (k : K) (now : ℕ)
      → ((find_for_write dec s k now).1.default_ttl ≡ s.default_ttl)
        × ((find_for_write dec s k now).1.refresh_ttl ≡ s.refresh_ttl)
  unfolding find_for_write update_entry delete_locked
  find_for_write-ttl s k now = (ground arith, ground arith)

  mutate-hooks :
      (s t : Store K V) (k : K) (v : V) (existed : Bool)
      → t.hooks ≡ s.hooks
      → mutate t k v existed ≡ mutate s k v existed
  unfolding mutate
  mutate-hooks s t k v existed h = rw h refl

  pub expires_at_for-ttl :
      (s : Store K V) (now : ℕ) (opts : EntryOptions) (existing : Bool)
      → opts.ttl_set ≡ true
      → opts.no_expiration ≡ false
      → 0 < opts.ttl
      → expires_at_for s now opts existing ≡ some (now + opts.ttl)
  unfolding expires_at_for
  expires_at_for-ttl s now opts existing set plain positive = ground arith

module _ {K V : Type 0} (dec : Discrete K) (values : Values V) where
  -- What a new entry with a time to live leaves in the map.
  write_new-lookup :
      (s : Store K V) (events : List (HookEvent K V)) (k : K) (now : ℕ) (opts : EntryOptions)
      (v : V)
      → lookup dec k s.entries ≡ none
      → IsConsistent dec s
      → lookup dec k (write_new dec values s events k now opts (v, none)).1.entries
        ≡ some (new_entry s k now opts v)
  unfolding write_new new_entry notify_change
  write_new-lookup s events k now opts v absent c =
      let ent = new_entry s k now opts v in
      enforce_max_size-newest dec (insert_locked dec s ent) events k s.order
        (unfold insert_locked in refl) (insert_locked-IsConsistent dec s ent absent c)
      ∙ (unfold insert_locked in ground (arith, lookup-put dec k k ent s.entries))

  write_existing-lookup :
      (s : Store K V) (events : List (HookEvent K V)) (k : K) (ent : Entry K V) (now : ℕ)
      (opts : EntryOptions) (v : V)
      → lookup dec k s.entries ≡ some ent
      → ent.key ≡ k
      → lookup dec k (write_existing dec values s events ent now opts (v, none)).1.entries
        ≡ some (record {
          key = k;
          value = mutate s k v true;
          expires_at = expiry_on_write s now opts ent.expires_at;
        })
  unfolding write_existing notify_change update_entry
  write_existing-lookup s events k ent now opts v found same =
      let written : Entry K V = record {
        key = k;
        value = mutate s k v true;
        expires_at = expiry_on_write s now opts ent.expires_at;
      } in
      rw same (ground (arith, lookup-update dec k k written ent s.entries))

  pub set_value-plain :
      (old v : V) (existed : Bool)
      → values.settable ≡ none
      → set_value values old v existed ≡ (v, none)
  unfolding set_value
  set_value-plain old v existed plain = rw (plain, set_value) refl

  -- The expiry of the entry that a write leaves, whether there is an entry or not.
  abbrev pub Expires : Store K V → ℕ → EntryOptions → Option ℕ → Type 0
  Expires s now opts e =
      (expires_at_for s now opts false ≡ e)
      × ((current : Option ℕ) → expiry_on_write s now opts current ≡ e)

  -- What `Set` leaves for the key, where values are replaced wholesale.
  pub set-lookup :
      (s : Store K V) (k : K) (v : V) (opts : EntryOptions) (now : ℕ) (e : Option ℕ)
      → IsValid dec s
      → values.settable ≡ none
      → Expires (find_for_write dec s k now).1 now opts e
      → lookup dec k (set dec values s k v opts now).2.entries
        ≡ some (record {
          key = k;
          value = mutate s k v (set dec values s k v opts now).0;
          expires_at = e;
        })
  unfolding set
  set-lookup s k v opts now e valid plain expires =
      let hooks = find_for_write-hooks dec s k now in
      let finds = find_for_write-Finds dec s k now valid.consistent in
      let s' = (find_for_write dec s k now).1 in
      let events = (find_for_write dec s k now).2 in
      elim (Option-cases (find_for_write dec s k now).0) [
        | inl absent ↦
            rw (absent, set, set_value-plain values.zero_value v false plain)
              (write_new-lookup s' events k now opts v (finds.absent absent)
                  finds.shrinks.consistent
                ∙ (unfold new_entry in
                    ground (arith, mutate-hooks dec s s' k v false hooks, expires.0)))
        | inr (ent, found) ↦
            let (same, there) = finds.present ent found in
            rw (found, set, set_value-plain ent.value v true plain)
              (write_existing-lookup s' events k ent now opts v there same
                ∙ (ground (arith, mutate-hooks dec s s' k v true hooks, expires.1 ent.expires_at)))
      ]
