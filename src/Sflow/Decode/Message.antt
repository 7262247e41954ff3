-- ===== src/Sflow/Decode/Message.antt =====
-- decoders/sflow/sflow.go: `DecodeMessage` and `DecodeMessageVersion`.
use goflow.Base.{
  ℕ, zero, suc, List, [], ◌∷◌, Read, Result, ok, err, ◌>>=◌, pure, Bool, ◌&&◌, unknown_version,
  unknown_ip_version, too_large, truncated, exceeds, decoder_error, ltb, leb, ◌==◌, if◌then◌else◌,
  length, take, drop,
}
use goflow.Wire.{read_u32, read_exactly}
use goflow.Sflow.Types.{SampleHeader, Sample, raw_sample, Packet}
use goflow.Sflow.Decode.Format.{data_format_enterprise, data_format_format}
use goflow.Sflow.Decode.Samples.{decode_sample}

unfoldable pub is_known_sample_format : ℕ → Bool
is_known_sample_format format = leb 1 format && leb format 5

unfoldable pub decode_sample_header : Read SampleHeader
decode_sample_header = do
  format ← read_u32
  sample_length ← read_u32
  pure (record {
    format = format;
    length = sample_length;
    sample_sequence_number = 0;
    source_id_type = 0;
    source_id_value = 0;
  })

-- A sample of a format that is known is decoded, any other is kept as it is.
unfoldable pub decode_known_sample : SampleHeader → List ℕ → Result Sample
decode_known_sample header body =
    if data_format_enterprise header.format == 0
      && is_known_sample_format (data_format_format header.format)
    then decode_sample header body
    else ok (raw_sample header body)

abbrev pub as_read : List ℕ → Result Sample → Result (Sample × List ℕ)
as_read rest (ok sample) = ok (sample, rest)
as_read rest (err e) = err e

-- The body of a sample, behind its header; i is its number in the datagram.
unfoldable pub decode_sample_body : ℕ → SampleHeader → Read Sample
decode_sample_body i header payload =
    if ltb (length payload) header.length
    then err (exceeds i header.length (length payload))
    else as_read (drop header.length payload)
        (decode_known_sample header (take header.length payload))

-- One round of the loop over `Samples[i]`.
unfoldable pub decode_next_sample : ℕ → Read Sample
decode_next_sample i payload =
    if ltb (length payload) 8
    then err (truncated i (length payload))
    else (decode_sample_header >>= decode_sample_body i) payload

-- The loop, from the number i, for the `rounds` samples left.
unfoldable pub decode_samples : ℕ → ℕ → Read (List Sample)
decode_samples i zero payload = ok ([], payload)
decode_samples i (suc rounds) payload =
    (do s ← decode_next_sample i; ss ← decode_samples (suc i) rounds; pure (s ∷ ss)) payload

unfoldable pub decode_agent_ip : ℕ → Read (List ℕ)
decode_agent_ip version payload =
    if version == 0
    then ok ([], payload)
    else if version == 1
    then read_exactly 4 payload
    else if version == 2
    then read_exactly 16 payload
    else err (unknown_ip_version version)

unfoldable pub decode_all_samples : ℕ → Read (List Sample)
decode_all_samples count payload =
    if ltb 1000 count then err (too_large count) else decode_samples 0 count payload

-- The fields of a datagram behind its version.
unfoldable pub decode_packet : ℕ → Read Packet
decode_packet version = do
  ip_version ← read_u32
  agent_ip ← decode_agent_ip ip_version
  sub_agent_id ← read_u32
  sequence_number ← read_u32
  uptime ← read_u32
  samples_count ← read_u32
  samples ← decode_all_samples samples_count
  pure (record {
    version = version;
    ip_version = ip_version;
    agent_ip = agent_ip;
    sub_agent_id = sub_agent_id;
    sequence_number = sequence_number;
    uptime = uptime;
    samples_count = samples_count;
    samples = samples;
  })

-- `return &DecoderError{…}`
abbrev pub wrap {ℓ} : {A : Type ℓ} → Result A → Result A
wrap (ok a) = ok a
wrap (err e) = err (decoder_error e)

-- `DecodeMessage`, on a packet whose version is set.
unfoldable pub decode_message : ℕ → Read Packet
decode_message version payload = wrap (decode_packet version payload)

-- `DecodeMessageVersion`
unfoldable pub decode_message_version : Read Packet
decode_message_version payload = elim (read_u32 payload) [
  | ok (version, rest) ↦
      if version == 5
      then decode_message version rest
      else err (decoder_error (unknown_version version))
  | err e ↦ err (decoder_error e)
]
