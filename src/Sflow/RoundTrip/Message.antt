-- ===== src/Sflow/RoundTrip/Message.antt =====
-- Datagrams on what `EncodeMessage` writes.
use goflow.Base.{
  ℕ, suc, ◌≤◌, ◌<◌, ◌≡◌, refl, sym, List, [], ◌∷◌, ◌++◌, append_assoc, ok, length, length-append,
  take-append, drop-append, All, arith, false, ltb,
}
use goflow.Encoding.{EncodeResult, encode_all}
use goflow.Wire.RoundTrip.{read_u32-write_u32}
use goflow.Sflow.Types.{
  SampleHeader, Sample, flow_sample, counter_sample, expanded_flow_sample, drop_sample, raw_sample,
}
use goflow.Sflow.Decode.Format.{data_format_enterprise, data_format_format}
use goflow.Sflow.Decode.Message.{
  is_known_sample_format, decode_sample_header, decode_known_sample, decode_sample_body,
  decode_next_sample, decode_samples,
}
use goflow.Sflow.Encode.Flow.{write_u32s}
use goflow.Sflow.Encode.Samples.{encode_sample, encode_next_sample}
use goflow.Sflow.RoundTrip.Xdr.{FitsWord, length-write_u32s}
use goflow.Sflow.RoundTrip.Samples.{read_header}
use goflow.Sflow.RoundTrip.SampleTypes.{
  SampleReads, FlowSampleFits, CounterSampleFits, ExpandedFlowSampleFits, DropSampleFits,
  flow_sample_lem, counter_sample_lem, expanded_flow_sample_lem, drop_sample_lem,
}

-- The header of a sample.
abbrev pub sample_header : Sample → SampleHeader
sample_header (flow_sample s) = s.header
sample_header (counter_sample s) = s.header
sample_header (expanded_flow_sample s) = s.header
sample_header (drop_sample s) = s.header
sample_header (raw_sample h bytes) = h

-- The number of bytes of an encoded sample.
abbrev pub sample_length : EncodeResult (List ℕ × ℕ) → ℕ
sample_length (EncodeResult.ok (b, format)) = length b
sample_length (EncodeResult.err e) = 0

-- A raw sample has a format that is not known, and only the two numbers of its header are set.
abbrev pub RawFits : SampleHeader → Type 0
RawFits h =
    (5 < h.format)
    × (h.sample_sequence_number ≡ 0)
    × (h.source_id_type ≡ 0)
    × (h.source_id_value ≡ 0)

abbrev pub BodyFits : Sample → Type 0
BodyFits (flow_sample s) = FlowSampleFits s
BodyFits (counter_sample s) = CounterSampleFits s
BodyFits (expanded_flow_sample s) = ExpandedFlowSampleFits s
BodyFits (drop_sample s) = DropSampleFits s
BodyFits (raw_sample h bytes) = RawFits h

-- A sample that fits the wire, with the length of its encoding in the header.
abbrev pub SampleFits : Sample → Type 0
SampleFits s =
    BodyFits s
    × FitsWord (sample_header s).format
    × FitsWord (sample_header s).length
    × ((sample_header s).length ≡ sample_length (encode_sample s))

-- A sample is encoded under its format, and the body of its encoding is decoded to it.
abbrev IsRead : SampleHeader → Sample → Type 0
IsRead h s =
    (b : List ℕ) × (encode_sample s ≡ EncodeResult.ok (b, h.format))
    × (decode_known_sample (read_header h) b ≡ ok s)

known_lem :
    (h : SampleHeader) (s : Sample) → 0 < h.format → h.format ≤ 5 → SampleReads h s → IsRead h s
unfolding decode_known_sample is_known_sample_format data_format_enterprise data_format_format
known_lem h s pos le (b, w, d) = (b, w, ground (arith, d))

raw_lem : (h : SampleHeader) (x : List ℕ) → RawFits h → IsRead h (raw_sample h x)
unfolding decode_known_sample is_known_sample_format data_format_enterprise data_format_format
    encode_sample
raw_lem h x f = (x, ground arith, ground arith)

sample_lem : (s : Sample) → BodyFits s → IsRead (sample_header s) s
sample_lem (flow_sample s) f =
    known_lem s.header (flow_sample s) (omega arith) (omega arith) (flow_sample_lem s f)
sample_lem (counter_sample s) f =
    known_lem s.header (counter_sample s) (ground arith) (ground arith) (counter_sample_lem s f)
sample_lem (expanded_flow_sample s) f =
    known_lem s.header (expanded_flow_sample s) (omega arith) (omega arith)
      (expanded_flow_sample_lem s f)
sample_lem (drop_sample s) f =
    known_lem s.header (drop_sample s) (omega arith) (omega arith) (drop_sample_lem s f)
sample_lem (raw_sample h x) f = raw_lem h x f

decode_sample_header-encode :
    (h : SampleHeader) (n : ℕ) (rest : List ℕ)
    → FitsWord h.format
    → FitsWord h.length
    → h.length ≡ n
    → decode_sample_header (write_u32s (h.format ∷ n ∷ []) ++ rest) ≡ ok (read_header h, rest)
unfolding decode_sample_header
decode_sample_header-encode h n rest f l e = simp (append_assoc, read_u32-write_u32) (ground arith)

decode_sample_body-append :
    (i : ℕ) (h : SampleHeader) (s : Sample) (b rest : List ℕ)
    → length b ≡ h.length
    → decode_known_sample (read_header h) b ≡ ok s
    → decode_sample_body i (read_header h) (b ++ rest) ≡ ok (s, rest)
unfolding decode_sample_body
decode_sample_body-append i h s b rest l d =
    let all = length-append b rest in
    let fits : ltb (length (b ++ rest)) h.length ≡ false = ground arith in
    rw (fits, take-append h.length b rest l, drop-append h.length b rest l, d) refl

-- One sample of a datagram.
next_sample_lem :
    (s : Sample)
    → SampleFits s
    → (b : List ℕ) × (encode_next_sample s ≡ EncodeResult.ok b)
      × ((i : ℕ) (rest : List ℕ) → decode_next_sample i (b ++ rest) ≡ ok (s, rest))
unfolding encode_next_sample decode_next_sample
next_sample_lem s (f, k, n, l) =
    let h = sample_header s in
    let (b, w, d) = sample_lem s f in
    let same : length b ≡ h.length = sym (rw w at l) in
    let start = write_u32s (h.format ∷ length b ∷ []) in
    let size = length-write_u32s (h.format ∷ length b ∷ []) in
    (
      start ++ b,
      rw w refl,
      λ i rest.
          let all = length-append start (b ++ rest) in
          let enough : ltb (length (start ++ (b ++ rest))) 8 ≡ false = ground arith in
          rw
            (
              append_assoc start b rest,
              enough,
              decode_sample_header-encode h (length b) (b ++ rest) k n (sym same),
              decode_sample_body-append i h s b rest same d,
            )
            refl,
    )

pub samples_lem :
    (ss : List Sample)
    → All SampleFits ss
    → (b : List ℕ) × (encode_all encode_next_sample ss ≡ EncodeResult.ok b)
      × ((i : ℕ) (rest : List ℕ) → decode_samples i (length ss) (b ++ rest) ≡ ok (ss, rest))
unfolding encode_all decode_samples
samples_lem [] f = ([], refl, λ i rest. refl)
samples_lem (s ∷ ss) f =
    let (b, w, d) = next_sample_lem s f.0 in
    let (bs, ws, ds) = samples_lem ss f.1 in
    (
      b ++ bs,
      rw (w, encode_all, ws) refl,
      λ i rest. rw (append_assoc b bs rest, d i (bs ++ rest), decode_samples, ds (suc i) rest) refl,
    )
