-- ===== src/Pipe/Flow.antt =====
-- pipe.go: `formatSend` and the methods `DecodeFlow`. The producer, the format and the transport are
-- parameters, on a state W that they share; they may be missing. M is the type of their messages,
-- E that of their errors, A that of the addresses of a datagram and R that of the router's key, which
-- is the text of an address. The errors of the pipes keep the place where they arise.
use goflow.Base.{
  ℕ, ◌/◌, ◌^◌, List, [], ◌∷◌, ◌||◌, Option, none, some, ok, err, Error, unexpected_eof,
  if◌then◌else◌, ◌==◌,
}
use goflow.Wire.{read_u16, read_u32}
use goflow.Legacy.{PacketNetFlowV5}
use goflow.Legacy.Decode as V5
use goflow.Netflow.Types.{TemplateStore, NFv9Packet, IpfixPacket}
use goflow.Netflow.Decode.Message.{Decoded, decode_message_netflow, decode_message_ipfix}
use goflow.Sflow.Types.{Packet}
use goflow.Sflow.Decode.Message as Sflow

-- The dynamic types of the argument of `Produce`.
pub data FlowPacket : Type 0 where
  sflow : Packet → FlowPacket
  netflow_v5 : PacketNetFlowV5 → FlowPacket
  netflow_v9 : NFv9Packet → FlowPacket
  ipfix : IpfixPacket → FlowPacket

-- `Message`
pub record Message (A : Type 0) : Type 0 where
  pub src : A
  pub dst : A
  pub payload : List ℕ
  pub received : ℕ

-- `ProduceArgs`; `SamplerAddress` is a part of the source.
pub record ProduceArgs (A R : Type 0) : Type 0 where
  pub src : A
  pub dst : A
  pub time_received : ℕ
  pub flow_context : Option R

-- What went wrong, as the texts of the errors tell it.
pub data Cause (E : Type 0) : Type 0 where
  decode_failed : Error → Cause E
  produce_failed : E → Cause E
  format_failed : E → Cause E
  send_failed : E → Cause E
  not_netflow : Cause E

-- The errors of `DecodeFlow`; `message_error` is `PipeMessageError`.
pub data PipeError (A E : Type 0) : Type 0 where
  not_message : PipeError A E
  message_error : Message A → Cause E → PipeError A E
  not_identified : ℕ → PipeError A E

-- `ProducerInterface`
pub record Producer (A R M E W : Type 0) : Type 0 where
  pub produce : W → FlowPacket → ProduceArgs A R → List M × Option E × W
  pub commit : W → List M → W

-- The outcome of `Format`: an error, or a key and the data.
pub data Formatted (E : Type 0) : Type 0 where
  formatted : List ℕ → List ℕ → Formatted E
  unformatted : E → Formatted E

-- `PipeConfig`, with the operations on the template store as seen by each router.
pub record PipeConfig (A R M E W S : Type 0) : Type 0 where
  pub format : Option (W → M → Formatted E × W)
  pub transport : Option (W → List ℕ → List ℕ → Option E × W)
  pub producer : Option (Producer A R M E W)
  pub templates : R → TemplateStore S
  pub router_key : A → R

-- What a call of `DecodeFlow` returns and leaves: the error, the state of the producer, the format
-- and the transport, and the template store.
pub record Flowed (A E W S : Type 0) : Type 0 where
  pub error : Option (PipeError A E)
  pub world : W
  pub store : Option S

abbrev pub of_message : {A E : Type 0} → Message A → Option (Cause E) → Option (PipeError A E)
of_message pkt none = none
of_message pkt (some cause) = some (message_error pkt cause)

abbrev pub reject : {A E W S : Type 0} → Message A → Cause E → W → Option S → Flowed A E W S
reject pkt cause w store = record {
  error = some (message_error pkt cause);
  world = w;
  store = store;
}

module _ {A R M E W S : Type 0} (p : PipeConfig A R M E W S) where
  abbrev pub sent : Option E × W → Option (Cause E) × W
  sent (none, w) = (none, w)
  sent (some e, w) = (some (send_failed e), w)

  abbrev pub send_formatted : Formatted E × W → Option (Cause E) × W
  send_formatted (unformatted e, w) = (some (format_failed e), w)
  send_formatted (formatted key data_bytes, w) = elim p.transport [
    | none ↦ (none, w)
    | some send ↦ sent (send w key data_bytes)
  ]

  -- One round of the loop of `formatSend`.
  unfoldable pub format_send_one : W → M → Option (Cause E) × W
  format_send_one w msg = elim p.format [ none ↦ (none, w) | some f ↦ send_formatted (f w msg) ]

  -- `formatSend`
  unfoldable pub format_send : W → List M → Option (Cause E) × W
  format_send w [] = (none, w)
  format_send w (msg ∷ msgs) =
      let (e, w') = format_send_one w msg in
      elim e [ some cause ↦ (some cause, w') | none ↦ format_send w' msgs ]

  -- What the two methods do from the call of `Produce` on: the deferred `Commit` comes last.
  unfoldable pub emit_with :
      Producer A R M E W → Message A → FlowPacket → ProduceArgs A R → W → Option S → Flowed A E W S
  emit_with producer pkt packet args w store =
      let (msgs, e, w1) = producer.produce w packet args in
      elim e [
        | some cause ↦ record {
          error = some (message_error pkt (produce_failed cause));
          world = producer.commit w1 msgs;
          store = store;
        }
        | none ↦
            let (failed, w2) = format_send w1 msgs in
            record { error = of_message pkt failed; world = producer.commit w2 msgs; store = store }
      ]

  -- What they do with a packet that they decoded.
  unfoldable pub emit : Message A → FlowPacket → ProduceArgs A R → W → Option S → Flowed A E W S
  emit pkt packet args w store = elim p.producer [
    | none ↦ record { error = none; world = w; store = store }
    | some producer ↦ emit_with producer pkt packet args w store
  ]

  abbrev pub sflow_args : Message A → ProduceArgs A R
  sflow_args pkt = record {
    src = pkt.src;
    dst = pkt.dst;
    time_received = pkt.received;
    flow_context = some (p.router_key pkt.src);
  }

  -- `SFlowPipe.DecodeFlow`; an argument that is no `*Message` is `none`.
  unfoldable pub sflow_decode_flow : Option (Message A) → W → Option S → Flowed A E W S
  sflow_decode_flow none w store = record { error = some not_message; world = w; store = store }
  sflow_decode_flow (some pkt) w store = elim (Sflow.decode_message_version pkt.payload) [
    | err e ↦ reject pkt (decode_failed e) w store
    | ok (packet, _) ↦ emit pkt (sflow packet) (sflow_args pkt) w store
  ]

  abbrev pub netflow_args : Message A → ProduceArgs A R
  netflow_args pkt = record {
    src = pkt.src;
    dst = pkt.dst;
    time_received = pkt.received;
    flow_context = none;
  }

  -- After a decoder that returns a packet, an error or both; a packet is missing only with an error.
  abbrev pub after_decode :
      {P : Type 0} → Message A → (P → FlowPacket) → Decoded P S → W → Flowed A E W S
  after_decode pkt flow_packet d w = elim d.error [
    | some e ↦ reject pkt (decode_failed e) w d.store
    | none ↦ elim d.packet [
      | some packet ↦ emit pkt (flow_packet packet) (netflow_args pkt) w d.store
      | none ↦ reject pkt (decode_failed unexpected_eof) w d.store
    ]
  ]

  abbrev pub decode_v5 : Message A → List ℕ → W → Option S → Flowed A E W S
  decode_v5 pkt payload w store = elim (V5.decode_message 5 payload) [
    | err e ↦ reject pkt (decode_failed e) w store
    | ok (packet, _) ↦ emit pkt (netflow_v5 packet) (netflow_args pkt) w store
  ]

  -- `NetFlowPipe.DecodeFlow`
  unfoldable pub netflow_decode_flow : Option (Message A) → W → Option S → Flowed A E W S
  netflow_decode_flow none w store = record { error = some not_message; world = w; store = store }
  netflow_decode_flow (some pkt) w store = elim (read_u16 pkt.payload) [
    | err e ↦ reject pkt (decode_failed e) w store
    | ok (version, rest) ↦
        let ops = p.templates (p.router_key pkt.src) in
        if version == 5
        then decode_v5 pkt rest w store
        else if version == 9
        then after_decode pkt netflow_v9 (decode_message_netflow ops rest store) w
        else if version == 10
        then after_decode pkt ipfix (decode_message_ipfix ops rest store) w
        else reject pkt not_netflow w store
  ]

  -- The upper 16 bits of a `uint32`
  abbrev pub proto_netflow : ℕ → ℕ
  proto_netflow proto = proto / 2 ^ 16

  -- `AutoFlowPipe.DecodeFlow`; the pipe of sFlow makes no use of the template store.
  unfoldable pub auto_decode_flow : Option (Message A) → W → Option S → Flowed A E W S
  auto_decode_flow none w store = record { error = some not_message; world = w; store = store }
  auto_decode_flow (some pkt) w store = elim (read_u32 pkt.payload) [
    | err e ↦ reject pkt (decode_failed e) w store
    | ok (proto, _) ↦
        if proto == 5
        then sflow_decode_flow (some pkt) w store
        else if proto_netflow proto == 5 || (proto_netflow proto == 9 || proto_netflow proto == 10)
        then netflow_decode_flow (some pkt) w store
        else record { error = some (not_identified proto); world = w; store = store }
  ]
