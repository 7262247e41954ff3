-- ===== src/Sflow/Limits.antt =====
-- The limits of a decoded datagram, whatever the bytes are.
use goflow.Base.{
  ℕ, zero, suc, ◌≤◌, ◌≡◌, refl, ap, List, [], ◌∷◌, Result, ok, err, Read, ◌>>=◌, length,
  length-take, take, drop, All, arith, ltb, Bool-cases, Result-cases, inl, inr, Bool, ◌==◌, ◌&&◌,
  truncated,
}
use goflow.Wire.{read_u32}
use goflow.Wire.Yields.{Yields, any-Yields, bind-Yields, pure-Yields, check-Yields}
use goflow.Sflow.Types.{SampleHeader, Sample, raw_sample, Packet}
use goflow.Sflow.Decode.Format.{data_format_enterprise, data_format_format}
use goflow.Sflow.Decode.Message.{
  decode_known_sample, decode_sample_body, decode_next_sample, decode_samples, decode_all_samples,
  decode_packet, wrap, decode_message, decode_message_version, decode_agent_ip,
  decode_sample_header, as_read, is_known_sample_format,
}
use goflow.Sflow.Counts.{Counted, SampleCounted, decode_sample-counted}

-- The test of `DecodeMessage` whether to decode a sample.
abbrev known : SampleHeader → Bool
known h =
    data_format_enterprise h.format == 0 && is_known_sample_format (data_format_format h.format)

decode_known_sample-counted :
    (h : SampleHeader) (b : List ℕ) (s : Sample)
    → length b ≡ h.length
    → decode_known_sample h b ≡ ok s
    → SampleCounted s
unfolding decode_known_sample
decode_known_sample-counted h b s l e = elim (Bool-cases (known h)) [
  | inl on ↦ decode_sample-counted h b s (rw (on, decode_known_sample) at e)
  | inr off ↦
      let e' = rw (off, decode_known_sample) at e in
      let same : s ≡ raw_sample h b = ground arith in rw same l
]

as_read-counted :
    (rest : List ℕ) (r : Result Sample) (s : Sample) (rest' : List ℕ)
    → ((t : Sample) → r ≡ ok t → SampleCounted t)
    → as_read rest r ≡ ok (s, rest')
    → SampleCounted s
as_read-counted rest (ok t) s rest' f e = let same : t ≡ s = ground arith in rw same at (f t refl)
as_read-counted rest (err x) s rest' f e = cc

decode_sample_body-counted :
    (i : ℕ) (h : SampleHeader) → Yields SampleCounted (decode_sample_body i h)
unfolding decode_sample_body
decode_sample_body-counted i h = record {
  of_ok = λ b s rest e. elim (Bool-cases (ltb (length b) h.length)) [
    | inl cut ↦ absurd (let q = rw (cut, decode_sample_body) at e in cc)
    | inr whole ↦
        as_read-counted (drop h.length b) (decode_known_sample h (take h.length b)) s rest
          (λ t.
            decode_known_sample-counted h (take h.length b) t
              (ground (arith, length-take h.length b)))
          (rw (whole, decode_sample_body) at e)
  ];
}

decode_next_sample-counted : (i : ℕ) → Yields SampleCounted (decode_next_sample i)
unfolding decode_next_sample
decode_next_sample-counted i =
    check-Yields (λ b. ltb (length b) 8) (λ b. truncated i (length b))
      (decode_sample_header >>= decode_sample_body i)
      (any-Yields decode_sample_header _ (decode_sample_body-counted i))

-- The samples of a datagram, n of them.
abbrev SamplesCounted : ℕ → List Sample → Type 0
SamplesCounted n ss = (length ss ≡ n) × All SampleCounted ss

decode_samples-counted : (i n : ℕ) → Yields (SamplesCounted n) (decode_samples i n)
unfolding decode_samples
decode_samples-counted i zero = pure-Yields [] (refl, tt)
decode_samples-counted i (suc n) =
    bind-Yields (decode_next_sample i) _ (decode_next_sample-counted i) λ s c.
      bind-Yields (decode_samples (suc i) n) _ (decode_samples-counted (suc i) n)
        λ ss cs. pure-Yields (s ∷ ss) (ap suc cs.0, (c, cs.1))

-- A datagram as its header says.
abbrev pub PacketCounted : ℕ → Packet → Type 0
PacketCounted version p =
    (p.version ≡ version) × Counted p.samples_count p.samples × All SampleCounted p.samples

decode_all_samples-counted :
    (n : ℕ) → Yields (λ ss. (n ≤ 1000) × SamplesCounted n ss) (decode_all_samples n)
unfolding decode_all_samples
decode_all_samples-counted n = record {
  of_ok = λ b ss rest e. let c = (decode_samples-counted 0 n).of_ok b ss rest in ground (arith, c);
}

number :
    {P : Packet → Type 0} (f : ℕ → Read Packet)
    → ((n : ℕ) → Yields P (f n))
    → Yields P (read_u32 >>= f)
number f h = any-Yields read_u32 f h

decode_packet-counted : (version : ℕ) → Yields (PacketCounted version) (decode_packet version)
unfolding decode_packet
decode_packet-counted version = number _ λ v. any-Yields (decode_agent_ip v) _ λ ip. number _ λ _.
    number _ λ _. number _ λ _. number _ λ n.
      bind-Yields (decode_all_samples n) _ (decode_all_samples-counted n)
        λ ss c. pure-Yields _ (refl, (c.1.0, c.0), c.1.1)

-- Whatever the bytes are, a decoded datagram has version 5, at most 1000 samples, as many as its
-- header counts, and each sample at most 1000 records, as many as the sample counts.
pub decode_message_version-PacketCounted :
    (b : List ℕ) (p : Packet) (rest : List ℕ)
    → decode_message_version b ≡ ok (p, rest)
    → PacketCounted 5 p
unfolding decode_message_version decode_message
decode_message_version-PacketCounted b p rest e = elim (Result-cases (read_u32 b)) [
  | inl ((version, b'), q) ↦
      let e' = rw (q, decode_message_version) at e in
      elim (Bool-cases (version == 5)) [
        | inl five ↦
            let e'' = rw five at e' in
            elim (Result-cases (decode_packet version b')) [
              | inl ((p', rest'), q') ↦
                  let c = (decode_packet-counted version).of_ok b' p' rest' q' in
                  let t = rw (q', wrap) at e'' in ground arith
              | inr (x, q') ↦ absurd (let t = rw (q', wrap) at e'' in cc)
            ]
        | inr other ↦ absurd (let t = rw other at e' in cc)
      ]
  | inr (x, q) ↦ absurd (let t = rw (q, decode_message_version) at e in cc)
]
