-- ===== src/Legacy/Errors.antt =====
-- What `DecodeMessage` takes and when it fails.
use goflow.Base.{
  ℕ, zero, suc, ◌≤◌, ◌<◌, ◌≡◌, ◌⊎◌, refl, ap, List, [], ◌∷◌, replicate, length, length-replicate,
  ok, err, leb, leb→le, le_cases, Bool-cases, inl, inr, unexpected_eof, decoder_error,
}
use goflow.Wire.Reads.{Exactly, uint-Exactly, pure-Exactly}
use goflow.Legacy.{RecordNetFlowV5, PacketNetFlowV5, zero_record}
use goflow.Legacy.Decode.{decode_record, decode_records, decode_header, decode_message}

decode_record-Exactly : Exactly 48 decode_record
unfolding decode_record
decode_record-Exactly = uint-Exactly 4 44 λ _. uint-Exactly 4 40 λ _. uint-Exactly 4 36 λ _.
    uint-Exactly 2 34 λ _. uint-Exactly 2 32 λ _. uint-Exactly 4 28 λ _. uint-Exactly 4 24 λ _.
      uint-Exactly 4 20 λ _. uint-Exactly 4 16 λ _. uint-Exactly 2 14 λ _. uint-Exactly 2 12 λ _.
        uint-Exactly 1 11 λ _. uint-Exactly 1 10 λ _. uint-Exactly 1 9 λ _. uint-Exactly 1 8 λ _.
          uint-Exactly 2 6 λ _.
            uint-Exactly 2 4
              λ _. uint-Exactly 1 3 λ _. uint-Exactly 1 2 λ _. uint-Exactly 2 0 λ _. pure-Exactly _

decode_header-Exactly : (v : ℕ) → Exactly 22 (decode_header v)
unfolding decode_header
decode_header-Exactly v = uint-Exactly 2 20 λ _. uint-Exactly 4 16 λ _. uint-Exactly 4 12 λ _.
    uint-Exactly 4 8 λ _.
      uint-Exactly 4 4
        λ _. uint-Exactly 1 3 λ _. uint-Exactly 1 2 λ _. uint-Exactly 2 0 λ _. pure-Exactly _

-- The loop cannot fail, and it gives as many records as the header counts.
decode_records-length :
    (n : ℕ) (b : List ℕ)
    → (rs : List RecordNetFlowV5) × (rest : List ℕ) × (decode_records n b ≡ ok (rs, rest))
      × (length rs ≡ n)
unfolding decode_records
decode_records-length zero b = ([], b, refl, refl)
decode_records-length (suc n) b = elim (Bool-cases (leb 48 (length b))) [
  | inl enough ↦
      let (r, b', p, _) = decode_record-Exactly.run b (leb→le 48 (length b) enough) in
      let (rs, rest, q, l) = decode_records-length n b' in
      (r ∷ rs, rest, rw (enough, decode_records, p, q), ap suc l)
  | inr short ↦ (
    replicate (suc n) zero_record,
    b,
    rw (short, decode_records),
    length-replicate (suc n) zero_record,
  )
]

-- `DecodeMessage` on any payload: one of 22 bytes or more, which hold the header, gives a packet with
-- as many records as its header counts; on any other it fails for want of bytes.
pub decode_message_lem :
    (v : ℕ) (b : List ℕ)
    → ((22 ≤ length b)
        × (p : PacketNetFlowV5) × (rest : List ℕ) × (decode_message v b ≡ ok (p, rest))
        × (length p.records ≡ p.count))
      ⊎ ((length b < 22) × (decode_message v b ≡ err (decoder_error unexpected_eof)))
unfolding decode_message
decode_message_lem v b = elim (le_cases 22 (length b)) [
  | inl enough ↦
      let (p, b', q, _) = (decode_header-Exactly v).run b enough in
      let (rs, rest, s, l) = decode_records-length p.count b' in
      inl (enough, record p { records = rs }, rest, rw (q, s), l)
  | inr short ↦ inr (short, rw ((decode_header-Exactly v).short b short))
]
