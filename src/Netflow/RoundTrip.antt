-- ===== src/Netflow/RoundTrip.antt =====
-- The decoders of decoders/netflow on what its encoders write.
pub mod Fields
pub mod Templates
pub mod Options
pub mod Data
pub mod DataSets
pub mod Padding
