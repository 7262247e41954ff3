-- ===== src/FlowStore/Reach.antt =====
-- The store as a state machine: its methods as steps, in any order, with any clock readings.
use goflow.Base.{ℕ, ◌≡◌, List, [], Bool, arith, ◌==◌, Bool-cases, inl, inr}
use goflow.FlowStore.Types.{Store, Hooks, EntryOptions, Values}
use goflow.FlowStore.Map.{count, lookup}
use goflow.FlowStore.Operations.{
  add, set, get, delete, expire_stale, range, flush, close, start, stop, set_hooks,
}
use goflow.FlowStore.Keeps.{IsValid, Shrinks-IsValid}
use goflow.FlowStore.Preserves.{
  set-IsValid, add-IsValid, get-Shrinks, delete-Shrinks, flush-Shrinks, expire_before-Shrinks,
}

module _ {K V : Type 0} (dec : Discrete K) (values : Values V) where
  -- One method call. `visit` is an order in which Go's map is iterated.
  pub data Step (s : Store K V) : Store K V → Type 0 where
    set_step :
        (k : K) (val : V) (opts : EntryOptions) (now : ℕ)
        → Step s (set dec values s k val opts now).2
    add_step :
        (k : K) (delta : V) (opts : EntryOptions) (now : ℕ)
        → Step s (add dec values s k delta opts now).1
    get_step :
        (k : K) (dest : V) (with_hooks : Bool) (now : ℕ)
        → Step s (get dec values s k dest with_hooks now).1
    delete_step : (k : K) → Step s (delete dec values s k).1
    expire_step : (now : ℕ) → Step s (expire_stale dec values s now).1
    range_step : (now : ℕ) → Step s (range dec values s now).1
    flush_step : (visit : List K) → Step s (flush dec values visit s).0
    close_step : (visit : List K) → Step s (close dec values visit s).0
    start_step : (interval : ℕ) → Step s (start s interval)
    stop_step : Step s (stop s)
    hooks_step : (hooks : Hooks K V) → Step s (set_hooks s hooks)

  pub data Reach (s : Store K V) : Store K V → Type 0 where
    here : Reach s s
    next : {t u : Store K V} → Reach s t → Step t u → Reach s u

  start-IsValid : (s : Store K V) (interval : ℕ) → IsValid dec s → IsValid dec (start s interval)
  unfolding start
  start-IsValid s interval v = elim (Bool-cases (interval == 0)) [
    | inl off ↦ rw off v
    | inr on ↦ rw on (record {
      consistent = record {
        placed = v.consistent.placed;
        once = v.consistent.once;
        sizes = v.consistent.sizes;
        keyed = v.consistent.keyed;
      };
      bounded = v.bounded;
    })
  ]

  stop-IsValid : (s : Store K V) → IsValid dec s → IsValid dec (stop s)
  unfolding stop
  stop-IsValid s v = record {
    consistent = record {
      placed = v.consistent.placed;
      once = v.consistent.once;
      sizes = v.consistent.sizes;
      keyed = v.consistent.keyed;
    };
    bounded = v.bounded;
  }

  set_hooks-IsValid :
      (s : Store K V) (hooks : Hooks K V) → IsValid dec s → IsValid dec (set_hooks s hooks)
  unfolding set_hooks
  set_hooks-IsValid s hooks v = record {
    consistent = record {
      placed = v.consistent.placed;
      once = v.consistent.once;
      sizes = v.consistent.sizes;
      keyed = v.consistent.keyed;
    };
    bounded = v.bounded;
  }

  Step-IsValid : {s t : Store K V} → Step s t → IsValid dec s → IsValid dec t
  Step-IsValid {s} (set_step k val opts now) v = set-IsValid dec values s k val opts now v
  Step-IsValid {s} (add_step k delta opts now) v = add-IsValid dec values s k delta opts now v
  Step-IsValid {s} (get_step k dest with_hooks now) v =
      Shrinks-IsValid dec v (get-Shrinks dec values s k dest with_hooks now v.consistent)
  Step-IsValid {s} (delete_step k) v =
      Shrinks-IsValid dec v (delete-Shrinks dec values s k v.consistent)
  Step-IsValid {s} (expire_step now) v =
      unfold expire_stale in
      Shrinks-IsValid dec v (expire_before-Shrinks dec s.order s now [] v.consistent)
  Step-IsValid {s} (range_step now) v =
      unfold range in
      Shrinks-IsValid dec v (expire_before-Shrinks dec s.order s now [] v.consistent)
  Step-IsValid {s} (flush_step visit) v =
      Shrinks-IsValid dec v (flush-Shrinks dec values visit s v.consistent)
  Step-IsValid {s} (close_step visit) v =
      unfold close in
      (let v' = stop-IsValid s v in
        Shrinks-IsValid dec v' (flush-Shrinks dec values visit (stop s) v'.consistent))
  Step-IsValid {s} (start_step interval) v = start-IsValid s interval v
  Step-IsValid {s} stop_step v = stop-IsValid s v
  Step-IsValid {s} (hooks_step hooks) v = set_hooks-IsValid s hooks v

  Reach_keeps_IsValid : {s t : Store K V} → IsValid dec s → Reach s t → IsValid dec t
  Reach_keeps_IsValid v here = v
  Reach_keeps_IsValid v (next r step) = Step-IsValid step (Reach_keeps_IsValid v r)

  -- A store with no entries is valid, whatever its options.
  empty-IsValid : (s : Store K V) → s.entries ≡ [] → s.order ≡ [] → IsValid dec s
  unfolding lookup count
  empty-IsValid s e o = record {
    consistent = record {
      placed = λ k. rw (e, o);
      once = λ k. rw o (omega arith);
      sizes = rw (e, o);
      keyed = λ k ent h. (cc (rw e at h));
    };
    bounded = λ m. rw e (omega arith);
  }

  -- Whatever methods are called, in any order and at any times, on a store that was made with any
  -- options: each key of the map stands in the list of insertions exactly once and no other key
  -- does, each entry is filed under its key, and a limit on the size is kept.
  pub Reach-IsValid : {s t : Store K V} → s.entries ≡ [] → s.order ≡ [] → Reach s t → IsValid dec t
  Reach-IsValid {s} e o r = Reach_keeps_IsValid (empty-IsValid s e o) r
