-- ===== src/Pipe/Laws.antt =====
-- The pipes of pipe.go: which packet reaches the producer, and what reaches nobody.
use goflow.Base.{
  ℕ, ◌+◌, ◌*◌, ◌/◌, ◌^◌, ◌<◌, ◌≤◌, ◌≡◌, refl, ◌∙◌, ap, List, [], ◌∷◌, Option, none, some, Bool,
  true, false, Result-cases, Option-cases, Bool-cases, inl, inr, ok, length, All, arith, ◌==◌,
}
use goflow.Wire.{read_u16, read_u32, read_uint, big_endian}
use goflow.Legacy.{PacketNetFlowV5}
use goflow.Legacy.Decode as V5
use goflow.Sflow.Types.{Packet}
use goflow.Sflow.Decode.Message as Sflow
use goflow.Legacy.Errors.{decode_message_lem}
use goflow.Pipe.Flow.{
  sflow, netflow_v5, FlowPacket, ProduceArgs, Message, PipeError, PipeConfig, Cause, format_send,
  format_send_one, emit, sflow_args, netflow_args, sflow_decode_flow, netflow_decode_flow,
  auto_decode_flow, not_message, decode_v5, of_message, emit_with, Producer, message_error,
  not_identified, decode_failed, produce_failed, format_failed, send_failed, not_netflow,
}

-- The bytes of the first two numbers of 16 bits are those of a number of 32 bits.
read_u32-upper :
    (b rest : List ℕ) (version : ℕ)
    → All (λ x. x < 256) b
    → read_u16 b ≡ ok (version, rest)
    → 2 ≤ length rest
    → (proto : ℕ) × (rest' : List ℕ) × (read_u32 b ≡ ok (proto, rest')) × (proto / 2 ^ 16 ≡ version)
unfolding read_uint big_endian
read_u32-upper [] rest version bytes r l = absurd (ground arith)
read_u32-upper (a ∷ []) rest version bytes r l = absurd (ground arith)
read_u32-upper (a ∷ b ∷ []) rest version bytes r l = absurd (ground arith)
read_u32-upper (a ∷ b ∷ c ∷ []) rest version bytes r l = absurd (ground arith)
read_u32-upper (a ∷ b ∷ c ∷ d ∷ more) rest version (x, (y, (z, (u, _)))) r l =
    (((a * 256 + b) * 256 + c) * 256 + d, more, ground arith, ground arith)

read_u32-sflow :
    (b rest : List ℕ) (packet : Packet)
    → Sflow.decode_message_version b ≡ ok (packet, rest)
    → (more : List ℕ) × (read_u32 b ≡ ok (5, more))
unfolding Sflow.decode_message_version
read_u32-sflow b rest packet d = elim (Result-cases (read_u32 b)) [
  | inl ((version, more), r) ↦ elim (Bool-cases (version == 5)) [
    | inl five ↦ (more, r ∙ ap (λ v. ok (v, more)) (ground arith))
    | inr differs ↦ absurd (ground (arith, r, d))
  ]
  | inr (e, r) ↦ absurd (ground (arith, r, d))
]

read_u16-netflow_v5 :
    (b rest : List ℕ) (packet : PacketNetFlowV5)
    → V5.decode_message_version b ≡ ok (packet, rest)
    → (more : List ℕ) × (read_u16 b ≡ ok (5, more)) × (V5.decode_message 5 more ≡ ok (packet, rest))
unfolding V5.decode_message_version
read_u16-netflow_v5 b rest packet d = elim (Result-cases (read_u16 b)) [
  | inl ((version, more), r) ↦ elim (Bool-cases (version == 5)) [
    | inl five ↦
        let same : version ≡ 5 = ground arith in
        (more, r ∙ ap (λ v. ok (v, more)) same, rw (r, five, V5.decode_message_version, same) at d)
    | inr differs ↦ absurd (ground (arith, r, d))
  ]
  | inr (e, r) ↦ absurd (ground (arith, r, d))
]

decoded_length :
    (b rest : List ℕ) (packet : PacketNetFlowV5)
    → V5.decode_message 5 b ≡ ok (packet, rest)
    → 2 ≤ length b
decoded_length b rest packet d = elim (decode_message_lem 5 b) [
  | inl (enough, _, _, _, _) ↦ omega arith
  | inr (short, e) ↦ absurd (ground (arith, e, d))
]

-- Whether a cause lies in the bytes of the datagram.
unfoldable pub of_bytes : {E : Type 0} → Cause E → Bool
of_bytes (decode_failed e) = true
of_bytes not_netflow = true
of_bytes (produce_failed e) = false
of_bytes (format_failed e) = false
of_bytes (send_failed e) = false

-- Whether an error is reported before the producer sees the datagram.
unfoldable pub refused : {A E : Type 0} → Option (PipeError A E) → Bool
unfolding of_bytes
refused none = false
refused (some not_message) = true
refused (some (message_error pkt cause)) = of_bytes cause
refused (some (not_identified proto)) = true

module _ {A R M E W S : Type 0} (p : PipeConfig A R M E W S) where
  -- Where the decoder of sFlow reads a packet from the payload, the combined pipe hands that packet to
  -- the producer, with the router of the source.
  pub auto_decode_flow-sflow :
      (pkt : Message A) (packet : Packet) (rest : List ℕ) (w : W) (store : Option S)
      → Sflow.decode_message_version pkt.payload ≡ ok (packet, rest)
      → auto_decode_flow p (some pkt) w store ≡ emit p pkt (sflow packet) (sflow_args p pkt) w store
  unfolding auto_decode_flow sflow_decode_flow
  auto_decode_flow-sflow pkt packet rest w store d =
      let (more, r) = read_u32-sflow pkt.payload rest packet d in
      rw (auto_decode_flow, r, sflow_decode_flow, d) refl

  -- Where the decoder of NetFlow v5 reads a packet from the bytes of the payload, the combined pipe
  -- hands that packet to the producer.
  pub auto_decode_flow-netflow_v5 :
      (pkt : Message A) (packet : PacketNetFlowV5) (rest : List ℕ) (w : W) (store : Option S)
      → All (λ x. x < 256) pkt.payload
      → V5.decode_message_version pkt.payload ≡ ok (packet, rest)
      → auto_decode_flow p (some pkt) w store
        ≡ emit p pkt (netflow_v5 packet) (netflow_args p pkt) w store
  unfolding auto_decode_flow netflow_decode_flow
  auto_decode_flow-netflow_v5 pkt packet rest w store bytes d =
      let (more, r, v5) = read_u16-netflow_v5 pkt.payload rest packet d in
      let (proto, more', r', upper) =
        read_u32-upper pkt.payload more 5 bytes r (decoded_length more rest packet v5) in
      let other : (proto == 5) ≡ false = ground arith in
      rw (auto_decode_flow, r', other, upper, netflow_decode_flow, r) (rw (decode_v5, v5) refl)

  format_send_one-not_of_bytes :
      (w : W) (msg : M) (cause : Cause E)
      → (format_send_one p w msg).0 ≡ some cause
      → of_bytes cause ≡ false
  unfolding format_send_one of_bytes
  format_send_one-not_of_bytes w msg cause h = ground arith

  format_send-not_of_bytes :
      (w : W) (msgs : List M) (cause : Cause E)
      → (format_send p w msgs).0 ≡ some cause
      → of_bytes cause ≡ false
  unfolding format_send
  format_send-not_of_bytes w [] cause h = absurd (ground arith)
  format_send-not_of_bytes w (x ∷ xs) cause h = elim (Option-cases (format_send_one p w x).0) [
    | inl sent ↦
        format_send-not_of_bytes (format_send_one p w x).1 xs cause (rw (sent, format_send) at h)
    | inr (c, failed) ↦
        let unread = format_send_one-not_of_bytes w x c failed in
        let same = rw (failed, format_send) at h in ground (arith, unread, same)
  ]

  sent-not_refused :
      (pkt : Message A) (w : W) (msgs : List M)
      → refused (of_message pkt (format_send p w msgs).0) ≡ false
  unfolding refused
  sent-not_refused pkt w msgs = elim (Option-cases (format_send p w msgs).0) [
    | inl all ↦ rw all refl
    | inr (c, failed) ↦ rw failed (format_send-not_of_bytes w msgs c failed)
  ]

  emit_with-not_refused :
      (producer : Producer A R M E W) (pkt : Message A) (packet : FlowPacket)
      (args : ProduceArgs A R) (w : W) (store : Option S)
      → refused (emit_with p producer pkt packet args w store).error ≡ false
  unfolding emit_with refused
  emit_with-not_refused producer pkt packet args w store =
      let (msgs, e, w') = producer.produce w packet args in
      elim (Option-cases e) [
        | inl produced ↦ rw (produced, emit_with) (sent-not_refused pkt w' msgs)
        | inr (cause, failed) ↦ rw (failed, emit_with) refl
      ]

  emit-not_refused :
      (pkt : Message A) (packet : FlowPacket) (args : ProduceArgs A R) (w : W) (store : Option S)
      → refused (emit p pkt packet args w store).error ≡ false
  unfolding emit refused
  emit-not_refused pkt packet args w store = elim (Option-cases p.producer) [
    | inl missing ↦ rw (emit, missing) refl
    | inr (producer, has) ↦ rw (emit, has) (emit_with-not_refused producer pkt packet args w store)
  ]

  -- A payload that the combined pipe refuses, since it cannot be decoded or is of no known protocol or
  -- version, leaves the producer, the format and the transport as they were.
  pub auto_decode_flow-refused :
      (msg : Option (Message A)) (w : W) (store : Option S)
      → refused (auto_decode_flow p msg w store).error ≡ true
      → (auto_decode_flow p msg w store).world ≡ w
  unfolding auto_decode_flow sflow_decode_flow netflow_decode_flow refused
  auto_decode_flow-refused none w store h = refl
  auto_decode_flow-refused (some pkt) w store h = grind (arith, emit-not_refused)
