-- ===== src/Lib.antt =====
-- GoFlow2 is a collector of NetFlow v5, NetFlow v9, IPFIX and sFlow. A datagram goes to the decoder of
-- its protocol. The decoders of NetFlow v9 and IPFIX hand the templates that a message brings to a
-- template store and ask it for the template of each data set; that store and the store of the
-- sampling rates that exporters announce are built on a general store of values with expiry. A pipe
-- hands the decoded packet to a producer, whose messages are formatted and sent. This library models
-- the codecs of NetFlow and sFlow, these three stores and the pipes.
--
-- Which file models which part:
-- - Base: names, Boolean tests, lists, reads that may fail (`Read`), and loops over a buffer
--   (`repeat`), with the bit operations on the enterprise bit.
-- - Wire: decoders/utils. A buffer is the list of its unread bytes, numbers below 256. `read_uint` is
--   the unsigned part of `BinaryRead` with big-endian order, `read_string` its string case, and
--   `write_u8` to `write_string` are the writers of encode.go.
-- - Legacy: decoders/netflowlegacy. `decode_message_version`, `decode_message` and `encode_message`
--   stand for the functions of the same names in camel case.
-- - Netflow: decoders/netflow. `Netflow.Types` has the structs of packet.go, nfv9.go and ipfix.go and
--   the interface `TemplateStore`; `Netflow.Decode` the functions of netflow.go, from `DecodeField` to
--   `DecodeMessageVersion`; `Netflow.Encode` those of encode.go. `Netflow.RoundTrip` relates the two.
-- - Encoding: the errors and the chains of fallible steps of the encoders of decoders/netflow and
--   decoders/sflow.
-- - Sflow: decoders/sflow. `FlowTypes`, `CounterTypes` and `Types` have the structs of
--   datastructure.go and packet.go, `Xdr` the functions of xdr.go; `Sflow.Decode` the functions of
--   sflow.go, with a function for each case of the switches on a format, and `Sflow.Encode` those of
--   encode.go, with a function for each case of the switches on a type. `Sflow.RoundTrip` relates the
--   two, `Counts` and `Limits` are about any payload, `Truncated` about payloads that are cut short.
-- - FlowStore: pkg/flowstore/store.go. Go's map is an association list and the linked list of
--   insertions a list of keys. A method returns the store that it leaves and the hook events in the
--   order in which they are recorded; the clock's reading is an argument. `Spec` has a specification
--   with no map and no order, `Refinement` relates the store to it.
-- - Templates: utils/store/templates/store.go, on FlowStore, as an instance of `TemplateStore`.
-- - SamplingRate: utils/store/samplingrate/store.go, on FlowStore.
-- - Pipe: utils/pipe.go. `sflow_decode_flow`, `netflow_decode_flow` and `auto_decode_flow` are the
--   methods `DecodeFlow` of the three pipes. The producer, the format and the transport are
--   parameters, functions on a state that they share; `Traces` has the calls that they get.
--
-- Numbers are natural numbers. A field of a packet has the width of its Go type, which the hypotheses
-- on a round trip state (`FieldFits`, `RecordFits`, `FlowDataFits`, `PacketFits`); a writer takes a
-- value modulo its width. Durations and sizes that are not positive, which the store treats
-- alike, are 0.
--
-- Loops over a buffer run on fuel, the number of its bytes: each round takes a byte at least, so the
-- fuel is enough, for the set decoders and for the loop over the flow sets of a message. The loop of
-- evictions runs on the number of entries, of which each round removes one. The loops of sFlow run on
-- the counts of the headers, which the decoder limits.
--
-- Not modelled: errors are told apart by their kind and not by their text; the version argument of
-- the data set decoders, which the source does not read, is left out; nil packets and nil pointers
-- to flow sets, samples and records, and a nil destination of `Get`; the mutex, the sweeper's
-- goroutine and the calls of hooks outside the lock. The producers, the transports, the formats and
-- the persistence of stores are not part of this library, and neither is pkg/reflow.
pub mod Base
pub mod Wire
pub mod Encoding
pub mod Legacy
pub mod Netflow
pub mod Sflow
pub mod FlowStore
pub mod Templates
pub mod Pipe
pub mod SamplingRate
