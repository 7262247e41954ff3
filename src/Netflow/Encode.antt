-- ===== src/Netflow/Encode.antt =====
-- decoders/netflow/encode.go. `Sets` has the encoders of template sets and fields, `Data` those of
-- data sets, `Message` those of flow sets and whole messages. A writer is the list of the bytes that
-- it appends; the checks that lead to an error are values of `EncodeResult`.
pub mod Sets
pub mod Data
pub mod Message
pub mod Lengths
