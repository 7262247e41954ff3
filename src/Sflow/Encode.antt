-- ===== src/Sflow/Encode.antt =====
-- decoders/sflow/encode.go. `Flow` and `Counters` have the data of records, `Samples` the records,
-- samples and datagrams. A writer is the list of the bytes that it appends; the checks that lead to an error are
-- values of `EncodeResult`. The source has the same code for a value and for a pointer to it, and
-- a pointer is never nil here.
pub mod Flow
pub mod Counters
pub mod Samples
