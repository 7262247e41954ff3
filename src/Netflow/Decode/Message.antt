-- ===== src/Netflow/Decode/Message.antt =====
-- The decoders of whole messages: `DecodeMessageNetFlow`, `DecodeMessageIPFIX` and
-- `DecodeMessageVersion`.
use goflow.Base.{
  ℕ, ◌+◌, ◌-◌, ◌%◌, ◌^◌, List, [], Option, none, some, Read, ◌>>=◌, pure, ok, err, Error,
  unknown_version, decoder_error, ◌==◌, if◌then◌else◌,
}
use goflow.Wire.{read_u16, read_u32}
use goflow.Netflow.Types.{TemplateStore, NFv9Packet, IpfixPacket}
use goflow.Netflow.Decode.FlowSets.{decode_message_common}

-- The results of a message decoder. `packet` is `none` where the header could not be read.
pub record Decoded (P S : Type 0) : Type 0 where
  pub packet : Option P
  pub error : Option Error
  pub store : Option S

abbrev pub wrap_error : Option Error → Option Error
wrap_error none = none
wrap_error (some e) = some (decoder_error e)

module _ {S : Type 0} (ops : TemplateStore S) where
  abbrev pub read_nfv9_header : Read NFv9Packet
  read_nfv9_header = do
    count ← read_u16
    system_uptime ← read_u32
    unix_seconds ← read_u32
    sequence_number ← read_u32
    source_id ← read_u32
    pure (record {
      version = 9;
      count = count;
      system_uptime = system_uptime;
      unix_seconds = unix_seconds;
      sequence_number = sequence_number;
      source_id = source_id;
      flow_sets = [];
    })

  -- `DecodeMessageNetFlow`
  unfoldable pub decode_message_netflow : List ℕ → Option S → Decoded NFv9Packet S
  decode_message_netflow payload store = elim (read_nfv9_header payload) [
    | ok (packet, rest) ↦
        let r = decode_message_common ops 9 packet.source_id packet.count rest store in
        record {
          packet = some (record packet { flow_sets = r.flow_sets });
          error = wrap_error r.error;
          store = r.store;
        }
    | err e ↦ record { packet = none; error = some (decoder_error e); store = store }
  ]

  abbrev pub read_ipfix_header : Read IpfixPacket
  read_ipfix_header = do
    length ← read_u16
    export_time ← read_u32
    sequence_number ← read_u32
    observation_domain_id ← read_u32
    pure (record {
      version = 10;
      length = length;
      export_time = export_time;
      sequence_number = sequence_number;
      observation_domain_id = observation_domain_id;
      flow_sets = [];
    })

  -- `packetIPFIX.Length-16`, a difference of `uint16`s
  abbrev pub ipfix_size : ℕ → ℕ
  ipfix_size length = (length + 2 ^ 16 - 16) % 2 ^ 16

  -- `DecodeMessageIPFIX`
  unfoldable pub decode_message_ipfix : List ℕ → Option S → Decoded IpfixPacket S
  decode_message_ipfix payload store = elim (read_ipfix_header payload) [
    | ok (packet, rest) ↦
        let r =
          decode_message_common ops 10 packet.observation_domain_id (ipfix_size packet.length) rest
            store in
        record {
          packet = some (record packet { flow_sets = r.flow_sets });
          error = wrap_error r.error;
          store = r.store;
        }
    | err e ↦ record { packet = none; error = some (decoder_error e); store = store }
  ]

  -- The results of `DecodeMessageVersion`, which fills the packet of the version that it finds.
  pub data Message : Type 0 where
    nfv9 : Decoded NFv9Packet S → Message
    ipfix : Decoded IpfixPacket S → Message
    unread : Error → Message

  abbrev wrap_decoded : {P : Type 0} → Decoded P S → Decoded P S
  wrap_decoded d = record d { error = wrap_error d.error }

  -- `DecodeMessageVersion`
  unfoldable pub decode_message_version : List ℕ → Option S → Message
  decode_message_version payload store = elim (read_u16 payload) [
    | ok (version, rest) ↦
        if version == 9
        then nfv9 (wrap_decoded (decode_message_netflow rest store))
        else if version == 10
        then ipfix (wrap_decoded (decode_message_ipfix rest store))
        else unread (decoder_error (unknown_version version))
    | err e ↦ unread (decoder_error e)
  ]
