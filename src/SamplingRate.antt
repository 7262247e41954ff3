-- ===== src/SamplingRate.antt =====
-- utils/store/samplingrate: the sampling rates of routers, on FlowStore. `Store` has the operations,
-- `Laws` what reads give after writes.
pub mod Store
pub mod Laws
mod Tests
