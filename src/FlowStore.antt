-- ===== src/FlowStore.antt =====
-- pkg/flowstore: an in-memory store with expiry and first-in first-out eviction. `Types` has the
-- data of store.go, `Map` Go's map and the list of insertions, `Entries` the helpers that run under
-- the lock, `Operations` the methods of `Store`.
pub mod Types
pub mod Map
pub mod Entries
pub mod Operations
pub mod Invariant
pub mod Keeps
pub mod Preserves
pub mod Reach
pub mod Plain
pub mod Spec
pub mod Refinement
pub mod Lookup
pub mod OwnKey
pub mod ReadBack
pub mod Others
mod Tests
