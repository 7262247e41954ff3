-- ===== src/FlowStore/Spec.antt =====
-- What the store promises to a caller who only sets, deletes and reads: a function from keys to
-- values with an expiry, with no map, no list of insertions and no removal of what has expired.
use mathlib.Core.Logic.{ite}
use goflow.Base.{
  ℕ, ◌+◌, ◌≤◌, List, [], ◌∷◌, Bool, true, false, Option, none, some, ◌==◌, if◌then◌else◌,
}
use goflow.FlowStore.Types.{EntryOptions, Store, Values}
use goflow.FlowStore.Entries.{is_expired_at}
use goflow.FlowStore.Operations.{set, get, delete}

-- A call with the reading of the clock: `Set` with `WithTTL`, where 0 is for no expiry; `Delete`;
-- `Get` or `GetQuiet`.
pub data Op (K V : Type 0) : Type 0 where
  set_op : K → V → ℕ → ℕ → Op K V
  delete_op : K → Op K V
  get_op : K → V → Bool → ℕ → Op K V

-- `WithTTL(ttl)`
abbrev pub with_ttl : ℕ → EntryOptions
with_ttl ttl = record { ttl_set = true; ttl = ttl; no_expiration = false }

-- A value with its expiry for each key that has one.
abbrev pub Spec : Type 0 → Type 0 → Type 0
Spec K V = K → Option (V × Option ℕ)

abbrev pub expiry : ℕ → ℕ → Option ℕ
expiry ttl now = if ttl == 0 then none else some (now + ttl)

-- What a read sees of an entry.
abbrev pub visible : {V : Type 0} → Option (V × Option ℕ) → ℕ → Option V
visible none now = none
visible (some (v, e)) now = if is_expired_at e now then none else some v

module _ {K V : Type 0} (dec : Discrete K) where
  abbrev pub spec_step : Spec K V → Op K V → Spec K V
  spec_step f (set_op k v ttl now) = λ j. ite (dec k j) (some (v, expiry ttl now)) (f j)
  spec_step f (delete_op k) = λ j. ite (dec k j) none (f j)
  spec_step f (get_op k dest with_hooks now) = f

  abbrev pub replay : Spec K V → List (Op K V) → Spec K V
  replay f [] = f
  replay f (op ∷ ops) = replay (spec_step f op) ops

-- The clock of a call, which does not go back, and the clock after a run of calls.
abbrev pub time_of : {K V : Type 0} → ℕ → Op K V → ℕ
time_of c (set_op k v ttl now) = now
time_of c (delete_op k) = c
time_of c (get_op k dest with_hooks now) = now

abbrev pub end_time : {K V : Type 0} → ℕ → List (Op K V) → ℕ
end_time c [] = c
end_time c (op ∷ ops) = end_time (time_of c op) ops

abbrev pub IsTimed : {K V : Type 0} → ℕ → List (Op K V) → Type 0
IsTimed c [] = Unit
IsTimed c (op ∷ ops) = (c ≤ time_of c op) × IsTimed (time_of c op) ops

module _ {K V : Type 0} (dec : Discrete K) (values : Values V) where
  -- The same calls on the store.
  abbrev pub store_step : Store K V → Op K V → Store K V
  store_step s (set_op k v ttl now) = (set dec values s k v (with_ttl ttl) now).2
  store_step s (delete_op k) = (delete dec values s k).1
  store_step s (get_op k dest with_hooks now) = (get dec values s k dest with_hooks now).1

  abbrev pub run : Store K V → List (Op K V) → Store K V
  run s [] = s
  run s (op ∷ ops) = run (store_step s op) ops
