-- ===== src/Netflow.antt =====
-- decoders/netflow: NetFlow v9 and IPFIX. `Types` has the data of packet.go, nfv9.go and ipfix.go,
-- `Decode` the functions of netflow.go and `Encode` those of encode.go.
mod Tests
pub mod Types
pub mod Decode
pub mod Encode
pub mod RoundTrip
