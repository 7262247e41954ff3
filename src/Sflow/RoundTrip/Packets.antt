-- ===== src/Sflow/RoundTrip/Packets.antt =====
-- `DecodeMessageVersion` on what `EncodeMessage` writes.
use goflow.Base.{
  ℕ, ◌%◌, ◌^◌, ◌≤◌, ◌≡◌, ◌⊎◌, inl, inr, refl, List, [], ◌∷◌, ◌++◌, append_assoc, ok, length, All,
  arith, ltb, ◌==◌, true, false,
}
use goflow.Encoding.{EncodeResult, encode_all}
use goflow.Wire.{write_u32}
use goflow.Wire.RoundTrip.{read_u32-write_u32, read_exactly-append}
use goflow.Sflow.Types.{Packet}
use goflow.Sflow.Decode.Message.{
  decode_agent_ip, decode_all_samples, decode_samples, decode_packet, decode_message,
  decode_message_version,
}
use goflow.Sflow.Encode.Flow.{write_u32s, guessed_ip_version, ip_length_fits}
use goflow.Sflow.Encode.Samples.{or_default, encode_next_sample, encode_message}
use goflow.Sflow.RoundTrip.Xdr.{FitsWord}
use goflow.Sflow.RoundTrip.Message.{SampleFits, samples_lem}

-- The address of an agent: four or sixteen bytes.
abbrev pub AgentFits : ℕ → List ℕ → Type 0
AgentFits version ip = ((version ≡ 1) × (length ip ≡ 4)) ⊎ ((version ≡ 2) × (length ip ≡ 16))

pub record PacketFits (p : Packet) : Type 0 where
  pub version : (p.version ≡ 0) ⊎ (p.version ≡ 5)
  pub agent : AgentFits p.ip_version p.agent_ip
  pub numbers : All FitsWord (p.sub_agent_id ∷ p.sequence_number ∷ p.uptime ∷ [])
  pub samples_count : (p.samples_count ≡ 0) ⊎ (p.samples_count ≡ length p.samples)
  pub limit : length p.samples ≤ 1000
  pub samples : All SampleFits p.samples

decode_agent_ip-append :
    (version : ℕ) (ip rest : List ℕ)
    → AgentFits version ip
    → decode_agent_ip version (ip ++ rest) ≡ ok (ip, rest)
unfolding decode_agent_ip
decode_agent_ip-append version ip rest (inl (v, l)) = rw (v, read_exactly-append 4 ip rest l) refl
decode_agent_ip-append version ip rest (inr (v, l)) = rw (v, read_exactly-append 16 ip rest l) refl

-- The bytes of a datagram behind its version, by those of its samples.
abbrev packet_bytes : Packet → List ℕ → List ℕ
packet_bytes p samples =
    write_u32 p.ip_version
    ++ (p.agent_ip
        ++ (write_u32s (p.sub_agent_id ∷ p.sequence_number ∷ p.uptime ∷ length p.samples ∷ [])
            ++ samples))

encode_message_lem :
    (p : Packet) (samples : List ℕ)
    → PacketFits p
    → encode_all encode_next_sample p.samples ≡ EncodeResult.ok samples
    → encode_message p ≡ EncodeResult.ok (write_u32 5 ++ packet_bytes p samples)
unfolding encode_message
encode_message_lem p samples f w =
    let v : or_default 5 p.version ≡ 5 = let h = f.version in ground arith in
    let guess : guessed_ip_version p.ip_version p.agent_ip ≡ EncodeResult.ok p.ip_version =
      let h = f.agent in ground arith in
    let fits : ip_length_fits p.ip_version p.agent_ip ≡ true = let h = f.agent in ground arith in
    let n : or_default (length p.samples % 2 ^ 32) p.samples_count ≡ length p.samples =
      let h = f.samples_count in let l = f.limit in ground arith in
    let same : (length p.samples == length p.samples) ≡ true = ground arith in
    rw (v, guess, fits, n, w, same) (simp append_assoc)

decode_packet-encode :
    (p : Packet) (b rest : List ℕ)
    → PacketFits p
    → decode_samples 0 (length p.samples) (b ++ rest) ≡ ok (p.samples, rest)
    → decode_packet 5 (packet_bytes p b ++ rest)
      ≡ ok (record p { version = 5; samples_count = length p.samples }, rest)
unfolding decode_packet decode_all_samples
decode_packet-encode p b rest f d =
    let n : length p.samples % 2 ^ 32 ≡ length p.samples = let l = f.limit in omega arith in
    let v : p.ip_version % 2 ^ 32 ≡ p.ip_version = let a = f.agent in ground arith in
    let few : ltb 1000 (length p.samples) ≡ false = let l = f.limit in ground arith in
    simp
      (
        append_assoc,
        read_u32-write_u32,
        v,
        decode_agent_ip-append p.ip_version p.agent_ip _ f.agent,
        n,
        few,
        d,
      )
      (let k = f.numbers in ground arith)

-- A datagram that fits the wire is encoded and decoded back.
pub decode_message_version-encode_message_sflow :
    (p : Packet)
    → PacketFits p
    → (b : List ℕ) × (encode_message p ≡ EncodeResult.ok b)
      × ((rest : List ℕ)
          → decode_message_version (b ++ rest)
            ≡ ok (record p { version = 5; samples_count = length p.samples }, rest))
unfolding decode_message_version decode_message
decode_message_version-encode_message_sflow p f =
    let (b, w, d) = samples_lem p.samples f.samples in
    (
      write_u32 5 ++ packet_bytes p b,
      encode_message_lem p b f w,
      λ rest.
          rw
            (
              append_assoc (write_u32 5) (packet_bytes p b) rest,
              decode_message_version,
              read_u32-write_u32,
            )
            (rw (decode_packet-encode p b rest f (d 0 rest)) refl),
    )
