-- ===== src/Sflow/RoundTrip.antt =====
-- decoders/sflow: the decoder on what the encoder writes.
pub mod Xdr
pub mod Addresses
pub mod Counters
pub mod Flow
pub mod Records
pub mod Extended
pub mod Gateway
pub mod FlowRecords
pub mod Samples
pub mod SampleTypes
pub mod Message
pub mod Packets
