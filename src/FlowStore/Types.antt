-- ===== src/FlowStore/Types.antt =====
-- The data of pkg/flowstore/store.go. A point in time is a number, and the zero time is `none`; a
-- duration is a number, and 0 stands for every duration that is not positive. The same holds for
-- the size limit.
use goflow.Base.{ℕ, List, Bool, Option}

pub data StoreError : Type 0 where
  add_not_supported : StoreError
  -- an error of the value's own `Add` or `Set`
  value_error : ℕ → StoreError

-- The methods that a value type may have: `Addable`, `Settable` and `Copyable`, each with the
-- receiver first. `Add` and `Set` return the receiver that they leave and their error.
pub record Values (V : Type 0) : Type 0 where
  pub zero_value : V
  pub addable : Option (V → V → Bool → V × Option StoreError)
  pub settable : Option (V → V → Bool → V × Option StoreError)
  pub copyable : Option (V → V → V)

pub data DeleteReason : Type 0 where
  explicit expired evicted flushed : DeleteReason

-- `hookEvent`
pub data HookEvent (K V : Type 0) : Type 0 where
  set_event : K → V → Bool → HookEvent K V
  delete_event : K → V → DeleteReason → HookEvent K V
  get_event : K → V → HookEvent K V

-- `Hooks`: the hook that changes a value, and whether each of the others is set. What these are
-- called with is the list of events of an operation.
pub record Hooks (K V : Type 0) : Type 0 where
  pub on_set_mutate : Option (K → V → Bool → V)
  pub on_set : Bool
  pub on_delete : Bool
  pub on_get : Bool

-- `entry`; its place in the order of insertion is that of its key.
pub record Entry (K V : Type 0) : Type 0 where
  pub key : K
  pub value : V
  pub expires_at : Option ℕ

-- `entryOptions`
pub record EntryOptions : Type 0 where
  pub ttl_set : Bool
  pub ttl : ℕ
  pub no_expiration : Bool

-- `Store`. `entries` is the map and `order` the list of insertions, oldest first. `change_notify`
-- says whether there is a channel, `changes` counts the signals offered to it, and `sweeping` says
-- whether the store owns a sweeper.
pub record Store (K V : Type 0) : Type 0 where
  pub entries : List (K × Entry K V)
  pub order : List K
  pub on_expire : Option (K → V → Bool × ℕ)
  pub default_ttl : ℕ
  pub refresh_ttl : Bool
  pub refresh_ttl_on_read : Bool
  pub max_size : ℕ
  pub change_notify : Bool
  pub changes : ℕ
  pub hooks : Hooks K V
  pub sweeping : Bool
