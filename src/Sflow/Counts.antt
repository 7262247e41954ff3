-- ===== src/Sflow/Counts.antt =====
-- The counts and limits of what the decoder returns, whatever the bytes are.
use goflow.Base.{
  ℕ, zero, suc, ◌≤◌, ◌≡◌, refl, List, Result, ok, err, Read, ◌>>=◌, pure, length, length-replicate,
  arith, leb, ltb, Bool-cases, Result-cases, inl, inr, replicate, ◌==◌, take, drop,
}
use goflow.Wire.{read_u32}
use goflow.Wire.Yields.{Yields, any-Yields, bind-Yields, pure-Yields, if-Yields}
use goflow.Sflow.Types.{
  RecordHeader, FlowRecord, SampleHeader, Sample, flow_sample, counter_sample, expanded_flow_sample,
  drop_sample, raw_sample, zero_flow_record, zero_counter_record,
}
use goflow.Sflow.Decode.Flow.{decode_flow_record}
use goflow.Sflow.Decode.Counters.{decode_counter_record}
use goflow.Sflow.Decode.Samples.{
  decode_records, decode_flow_records, decode_counter_records, decode_flow_sample,
  decode_counter_sample, decode_expanded_flow_sample, decode_drop_sample, decode_body,
  decode_sample, decode_source, decode_record_header, cons_record, record_round, as_sample,
  after_sequence,
}

-- A list of records has the length that its sample counts, at most 1000.
abbrev pub Counted {ℓ} : {A : Type ℓ} → ℕ → List A → Type 0
Counted count records = (length records ≡ count) × (count ≤ 1000)

abbrev pub SampleCounted : Sample → Type 0
SampleCounted (flow_sample s) = Counted s.flow_records_count s.records
SampleCounted (counter_sample s) = Counted s.counter_records_count s.records
SampleCounted (expanded_flow_sample s) = Counted s.flow_records_count s.records
SampleCounted (drop_sample s) = Counted s.flow_records_count s.records
SampleCounted (raw_sample header bytes) = length bytes ≡ header.length

-- The loop gives as many records as its sample counts.
module _ {R : Type 0} (decode : RecordHeader → List ℕ → Result R) (zero_value : R) where
  cons-length :
      (r : Result R) (rs : Result (List R)) (n : ℕ) (out : List R)
      → ((ss : List R) → rs ≡ ok ss → length ss ≡ n)
      → cons_record decode zero_value r rs ≡ ok out
      → length out ≡ suc n
  cons-length (ok r) (ok rs) n out h e = let t = h rs refl in ground arith
  cons-length (ok r) (err x) n out h e = cc
  cons-length (err x) rs n out h e = cc

  round-length :
      (n : ℕ) (loop : List ℕ → Result (List R)) (h : Result (RecordHeader × List ℕ)) (rs : List R)
      → ((b : List ℕ) (ss : List R) → loop b ≡ ok ss → length ss ≡ n)
      → record_round decode zero_value loop (suc n) h ≡ ok rs
      → length rs ≡ suc n
  round-length n loop (err x) rs f e = cc
  round-length n loop (ok (h, b)) rs f e = elim (Bool-cases (ltb (length b) h.length)) [
    | inl cut ↦
        let l = length-replicate (suc n) zero_value in
        let same : rs ≡ replicate (suc n) zero_value = ground arith in rw same l
    | inr whole ↦
        cons-length (decode h (take h.length b)) (loop (drop h.length b)) n rs (f (drop h.length b))
          (rw (whole, record_round) at e)
  ]

  pub decode_records-length :
      (n : ℕ) (b : List ℕ) (rs : List R)
      → decode_records decode zero_value n b ≡ ok rs
      → length rs ≡ n
  unfolding decode_records
  decode_records-length zero b rs h = ground arith
  decode_records-length (suc n) b rs h = elim (Bool-cases (leb 8 (length b))) [
    | inl enough ↦
        round-length n (λ b'. decode_records decode zero_value n b') (decode_record_header b) rs
          (decode_records-length n) (rw (enough, decode_records) at h)
    | inr short ↦
        let l = length-replicate (suc n) zero_value in
        let e : rs ≡ replicate (suc n) zero_value = ground arith in rw e l
  ]

decode_flow_records-Counted : (count : ℕ) → Yields (Counted count) (decode_flow_records count)
unfolding decode_flow_records
decode_flow_records-Counted count = record {
  of_ok = λ b rs rest h.
      elim (Result-cases (decode_records decode_flow_record zero_flow_record count b)) [
        | inl (ss, e) ↦
            let l = decode_records-length decode_flow_record zero_flow_record count b ss e in
            ground (arith, e, l)
        | inr (x, e) ↦ ground (arith, e)
      ];
}

decode_counter_records-Counted : (count : ℕ) → Yields (Counted count) (decode_counter_records count)
unfolding decode_counter_records
decode_counter_records-Counted count = record {
  of_ok = λ b rs rest h.
      elim (Result-cases (decode_records decode_counter_record zero_counter_record count b)) [
        | inl (ss, e) ↦
            let l = decode_records-length decode_counter_record zero_counter_record count b ss e in
            ground (arith, e, l)
        | inr (x, e) ↦ ground (arith, e)
      ];
}

-- A read of a number, of which nothing is known.
number :
    {P : Sample → Type 0} (f : ℕ → Read Sample)
    → ((n : ℕ) → Yields P (f n))
    → Yields P (read_u32 >>= f)
number f h = any-Yields read_u32 f h

-- The end of the decoder of each sample of flow records.
end_of_flow :
    (count : ℕ) (make : List FlowRecord → Sample)
    → ((rs : List FlowRecord) → Counted count rs → SampleCounted (make rs))
    → Yields SampleCounted (decode_flow_records count >>= λ rs. pure (make rs))
end_of_flow count make h =
    bind-Yields (decode_flow_records count) _ (decode_flow_records-Counted count)
      λ rs c. pure-Yields (make rs) (h rs c)

decode_flow_sample-counted : (h : SampleHeader) → Yields SampleCounted (decode_flow_sample h)
unfolding decode_flow_sample
decode_flow_sample-counted h = number _ λ _.
    number _ λ _. number _ λ _. number _ λ _. number _ λ _. number _ λ n. end_of_flow n _ λ rs c. c

decode_expanded_flow_sample-counted :
    (h : SampleHeader) → Yields SampleCounted (decode_expanded_flow_sample h)
unfolding decode_expanded_flow_sample
decode_expanded_flow_sample-counted h = number _ λ _. number _ λ _. number _ λ _.
    number _ λ _. number _ λ _. number _ λ _. number _ λ _. number _ λ n. end_of_flow n _ λ rs c. c

decode_drop_sample-counted : (h : SampleHeader) → Yields SampleCounted (decode_drop_sample h)
unfolding decode_drop_sample
decode_drop_sample-counted h =
    number _ λ _. number _ λ _. number _ λ _. number _ λ _. number _ λ n. end_of_flow n _ λ rs c. c

decode_counter_sample-counted : (h : SampleHeader) → Yields SampleCounted (decode_counter_sample h)
unfolding decode_counter_sample
decode_counter_sample-counted h = number _ λ n.
    bind-Yields (decode_counter_records n) _ (decode_counter_records-Counted n)
      λ rs c. pure-Yields _ c

decode_body-counted : (h : SampleHeader) → Yields SampleCounted (decode_body h)
unfolding decode_body
decode_body-counted h =
    if-Yields (h.format == 1) (decode_flow_sample h) _ (decode_flow_sample-counted h) (
      if-Yields (h.format == 3) (decode_expanded_flow_sample h) _
        (decode_expanded_flow_sample-counted h)
        (if-Yields (h.format == 5) (decode_drop_sample h) _ (decode_drop_sample-counted h)
          (decode_counter_sample-counted h)))

as_sample-counted :
    (h : SampleHeader) (r : Result (Sample × List ℕ)) (s : Sample)
    → ((t : Sample) (rest : List ℕ) → r ≡ ok (t, rest) → SampleCounted t)
    → as_sample h r ≡ ok s
    → SampleCounted s
as_sample-counted h (ok (t, rest)) s f e =
    let same : t ≡ s = ground arith in rw same at (f t rest refl)
as_sample-counted h (err x) s f e = cc

after_sequence-counted :
    (h : SampleHeader) (r : Result (ℕ × List ℕ)) (s : Sample)
    → after_sequence h r ≡ ok s
    → SampleCounted s
after_sequence-counted h (ok (n, b)) s e =
    let h' = (record h { sample_sequence_number = n }) in
    as_sample-counted h' ((decode_source h' >>= decode_body) b) s
      ((any-Yields (decode_source h') decode_body decode_body-counted).of_ok b) e
after_sequence-counted h (err x) s e = cc

pub decode_sample-counted :
    (h : SampleHeader) (b : List ℕ) (s : Sample) → decode_sample h b ≡ ok s → SampleCounted s
unfolding decode_sample
decode_sample-counted h b s e = after_sequence-counted h (read_u32 b) s e
