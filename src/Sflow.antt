-- ===== src/Sflow.antt =====
-- decoders/sflow: sFlow version 5. `FlowTypes`, `CounterTypes` and `Types` have the structs, `Xdr` the
-- strings and vectors of XDR, `Decode` the functions of sflow.go, `Encode` those of encode.go.
mod Tests
pub mod FlowTypes
pub mod CounterTypes
pub mod Types
pub mod Xdr
pub mod Decode
pub mod Encode
pub mod RoundTrip
pub mod Counts
pub mod Limits
pub mod Truncated
