-- ===== src/Pipe/Tests.antt =====
-- The combined pipe at inputs. A producer gives two messages for each packet, and the state lists the
-- calls, the last one first: 1 for `Produce`, the message for `Send`, 9 for `Commit`.
use goflow.Base.{
  ℕ, ◌≡◌, refl, List, [], ◌∷◌, ◌++◌, replicate, Option, if◌then◌else◌, ◌==◌, none, some, ok, err,
  template_not_found, arith,
}
use goflow.Wire.{read_uint, read_exactly}
use goflow.Legacy.{PacketNetFlowV5}
use goflow.Legacy.Decode as V5
use goflow.Netflow.Types.{TemplateStore}
use goflow.Sflow.Types.{Packet}
use goflow.Sflow.Decode.Message as Sflow
use goflow.Pipe.Flow.{
  Message, Producer, PipeConfig, FlowPacket, ProduceArgs, Formatted, Cause, send_failed, of_message,
  sflow, netflow_v5, formatted, format_send, emit, emit_with, format_send_one, sflow_args,
  netflow_args, auto_decode_flow,
}
use goflow.Pipe.Traces.{Event, sent, tracing, Sends, Trace, format_send-Sends, emit-Trace}
use goflow.Pipe.Laws.{
  auto_decode_flow-sflow, auto_decode_flow-netflow_v5, auto_decode_flow-refused, refused, of_bytes,
}

abbrev two_messages : Producer ℕ ℕ ℕ ℕ (List ℕ)
two_messages = record {
  produce = λ w packet args. (2 ∷ 3 ∷ [], none, 1 ∷ w);
  commit = λ w msgs. 9 ∷ w;
}

abbrev no_templates_store : TemplateStore ℕ
no_templates_store = record {
  add_template = λ s version obs_domain_id id t. (err template_not_found, s);
  get_template = λ s version obs_domain_id id. (err template_not_found, s);
}

abbrev pipe : PipeConfig ℕ ℕ ℕ ℕ (List ℕ) ℕ
pipe = record {
  format = some (λ w msg. (formatted [] (msg ∷ []), w));
  transport = some (λ w key sent. (none, sent ++ w));
  producer = some two_messages;
  templates = λ router. no_templates_store;
  router_key = λ src. src;
}

abbrev message : List ℕ → Message ℕ
message payload = record { src = 7; dst = 8; payload = payload; received = 100 }

-- A datagram of sFlow with no samples.
abbrev sflow_bytes : List ℕ
sflow_bytes =
    0 ∷ 0 ∷ 0 ∷ 5 ∷ 0 ∷ 0 ∷ 0 ∷ 1 ∷ 10 ∷ 0 ∷ 0 ∷ 1 ∷ 0 ∷ 0 ∷ 0 ∷ 2 ∷ 0 ∷ 0 ∷ 0 ∷ 3 ∷ 0 ∷ 0 ∷ 0 ∷ 4
    ∷ 0 ∷ 0 ∷ 0 ∷ 0 ∷ []

abbrev sflow_packet : Packet
sflow_packet = record {
  version = 5;
  ip_version = 1;
  agent_ip = 10 ∷ 0 ∷ 0 ∷ 1 ∷ [];
  sub_agent_id = 2;
  sequence_number = 3;
  uptime = 4;
  samples_count = 0;
  samples = [];
}

-- A datagram of NetFlow v5 with no records.
abbrev v5_bytes : List ℕ
v5_bytes = 0 ∷ 5 ∷ replicate 22 0

abbrev v5_packet : PacketNetFlowV5
v5_packet = record {
  version = 5;
  count = 0;
  sys_uptime = 0;
  unix_secs = 0;
  unix_n_secs = 0;
  flow_sequence = 0;
  engine_type = 0;
  engine_id = 0;
  sampling_interval = 0;
  records = [];
}

sflow_bytes_decoded : Sflow.decode_message_version sflow_bytes ≡ ok (sflow_packet, [])
unfolding Sflow.decode_message_version Sflow.decode_message Sflow.decode_packet
    Sflow.decode_agent_ip Sflow.decode_all_samples Sflow.decode_samples read_uint read_exactly
sflow_bytes_decoded = refl

v5_bytes_decoded : V5.decode_message_version v5_bytes ≡ ok (v5_packet, [])
unfolding V5.decode_message_version V5.decode_message V5.decode_header V5.decode_records read_uint
v5_bytes_decoded = refl

auto_decode_flow-sflow_example :
    auto_decode_flow pipe (some (message sflow_bytes)) [] none
    ≡ emit pipe
        (message sflow_bytes)
        (sflow sflow_packet)
        (sflow_args pipe (message sflow_bytes))
        []
        none
auto_decode_flow-sflow_example =
    auto_decode_flow-sflow pipe (message sflow_bytes) sflow_packet [] [] none sflow_bytes_decoded

auto_decode_flow-netflow_v5_example :
    auto_decode_flow pipe (some (message v5_bytes)) [] none
    ≡ emit pipe
        (message v5_bytes)
        (netflow_v5 v5_packet)
        (netflow_args pipe (message v5_bytes))
        []
        none
auto_decode_flow-netflow_v5_example =
    auto_decode_flow-netflow_v5 pipe (message v5_bytes) v5_packet [] [] none (ground arith)
      v5_bytes_decoded

-- The calls that the datagram of sFlow leads to.
calls_test : (auto_decode_flow pipe (some (message sflow_bytes)) [] none).world ≡ 9 ∷ 3 ∷ 2 ∷ 1 ∷ []
unfolding emit emit_with format_send format_send_one
calls_test = rw auto_decode_flow-sflow_example refl

-- A transport that refuses the byte 3.
abbrev refuse_three : List ℕ → List ℕ → Option ℕ
refuse_three key [] = none
refuse_three key (b ∷ bytes) = if b == 3 then some 7 else none

abbrev plain_format : ℕ → Formatted ℕ
plain_format msg = formatted (1 ∷ []) (msg ∷ [])

abbrev three_messages : FlowPacket → ProduceArgs ℕ ℕ → List ℕ × Option ℕ
three_messages packet args = (2 ∷ 3 ∷ 4 ∷ [], none)

abbrev traced : PipeConfig ℕ ℕ ℕ ℕ (List (Event ℕ)) ℕ
traced =
    tracing three_messages plain_format refuse_three (λ router. no_templates_store) (λ src. src)

format_send-Sends_example :
    (events : List (Event ℕ)) × (c : Option (Cause ℕ)) × Sends three_messages plain_format
      refuse_three
      (λ (r : ℕ). no_templates_store)
      (λ (a : ℕ). a)
      (2 ∷ 3 ∷ 4 ∷ [])
      events
      c
    × (format_send traced [] (2 ∷ 3 ∷ 4 ∷ []) ≡ (c, [] ++ events))
format_send-Sends_example =
    format_send-Sends three_messages plain_format refuse_three (λ (r : ℕ). no_templates_store)
      (λ (a : ℕ). a) [] (2 ∷ 3 ∷ 4 ∷ [])

-- The message behind the one that is refused is not sent.
stuck_test :
    format_send traced [] (2 ∷ 3 ∷ 4 ∷ [])
    ≡ (some (send_failed 7), sent (1 ∷ []) (2 ∷ []) ∷ sent (1 ∷ []) (3 ∷ []) ∷ [])
unfolding format_send format_send_one
stuck_test = refl

emit-Trace_example :
    (events : List (Event ℕ)) × (c : Option (Cause ℕ)) × Trace three_messages plain_format
      refuse_three
      (λ (r : ℕ). no_templates_store)
      (λ (a : ℕ). a)
      (sflow sflow_packet)
      (sflow_args traced (message sflow_bytes))
      events
      c
    × (emit traced
          (message sflow_bytes)
          (sflow sflow_packet)
          (sflow_args traced (message sflow_bytes))
          []
          none
        ≡ record { error = of_message (message sflow_bytes) c; world = [] ++ events; store = none })
emit-Trace_example =
    emit-Trace three_messages plain_format refuse_three (λ (r : ℕ). no_templates_store)
      (λ (a : ℕ). a) (message sflow_bytes) (sflow sflow_packet)
      (sflow_args traced (message sflow_bytes)) [] none

auto_decode_flow-refused_example :
    (auto_decode_flow pipe (some (message (0 ∷ 1 ∷ []))) (4 ∷ []) none).world ≡ 4 ∷ []
auto_decode_flow-refused_example =
    auto_decode_flow-refused pipe (some (message (0 ∷ 1 ∷ []))) (4 ∷ []) none
      (unfold auto_decode_flow refused of_bytes read_uint in refl)
