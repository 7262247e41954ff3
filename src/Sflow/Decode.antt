-- ===== src/Sflow/Decode.antt =====
-- decoders/sflow/sflow.go. `FlowCases` and `Gateway` have the data of flow records, `Flow` flow
-- records, `Counters` counter records, `Samples` samples and `Message` datagrams. An error is returned
-- without the value decoded so far, which no caller in the program looks at.
pub mod Format
pub mod Gateway
pub mod FlowCases
pub mod Flow
pub mod Counters
pub mod Samples
pub mod Message
