-- ===== src/Templates.antt =====
-- utils/store/templates: the store of the templates of all routers, on a `FlowStore`.
mod Tests
pub mod Store
pub mod Laws
pub mod Keeps
pub mod Removes
pub mod Runs
