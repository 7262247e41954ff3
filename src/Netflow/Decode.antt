-- ===== src/Netflow/Decode.antt =====
-- decoders/netflow/netflow.go. `Templates` has the decoders of template sets, `Data` those of data
-- sets, `FlowSets` the loop over the flow sets of a message, `Message` the decoders of whole messages.
-- The proofs are in the other children.
pub mod Templates
pub mod Data
pub mod FlowSets
pub mod Message
pub mod Fixed
pub mod Termination
pub mod Rest
pub mod Loop
