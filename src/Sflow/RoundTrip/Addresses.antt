-- ===== src/Sflow/RoundTrip/Addresses.antt =====
-- `DecodeIP` on what `encodeIP` writes.
use goflow.Base.{
  ℕ, ◌%◌, ◌^◌, ◌≡◌, ◌⊎◌, inl, inr, refl, List, [], ◌++◌, append_assoc, append-nil, ok, length,
  length-append, arith,
}
use goflow.Encoding.{EncodeResult}
use goflow.Wire.{write_u32}
use goflow.Wire.RoundTrip.{read_u32-write_u32, read_exactly-append}
use goflow.Sflow.Decode.Format.{decode_ip, decode_ip_bytes}
use goflow.Sflow.Encode.Flow.{encode_ip}

-- An address as it is decoded: none, four bytes or sixteen, under the version that says so.
abbrev pub IsAddress : ℕ → List ℕ → Type 0
IsAddress version ip =
    ((version ≡ 0) × (ip ≡ []))
    ⊎ (((version ≡ 1) × (length ip ≡ 4)) ⊎ ((version ≡ 2) × (length ip ≡ 16)))

-- The bytes of such an address.
abbrev pub address_bytes : ℕ → List ℕ → List ℕ
address_bytes version ip = write_u32 version ++ ip

pub encode_ip_lem :
    (version : ℕ) (ip : List ℕ)
    → IsAddress version ip
    → encode_ip version ip ≡ EncodeResult.ok (address_bytes version ip)
unfolding encode_ip
encode_ip_lem version ip (inl (v, e)) = rw (v, e, append-nil) refl
encode_ip_lem version ip (inr (inl (v, l))) = rw (v, l) refl
encode_ip_lem version ip (inr (inr (v, l))) = rw (v, l) refl

decode_ip_bytes_lem :
    (version : ℕ) (ip rest : List ℕ)
    → IsAddress version ip
    → decode_ip_bytes version (ip ++ rest) ≡ ok ((version, ip), rest)
unfolding decode_ip_bytes
decode_ip_bytes_lem version ip rest (inl (v, e)) = rw (v, e) refl
decode_ip_bytes_lem version ip rest (inr (inl (v, l))) =
    let all = length-append ip rest in rw (v, read_exactly-append 4 ip rest l) (ground arith)
decode_ip_bytes_lem version ip rest (inr (inr (v, l))) =
    let all = length-append ip rest in rw (v, read_exactly-append 16 ip rest l) (ground arith)

pub decode_ip-encode_ip :
    (version : ℕ) (ip rest : List ℕ)
    → IsAddress version ip
    → decode_ip (address_bytes version ip ++ rest) ≡ ok ((version, ip), rest)
unfolding decode_ip
decode_ip-encode_ip version ip rest h =
    let small : version % 2 ^ 32 ≡ version = ground arith in
    simp (append_assoc, read_u32-write_u32, small) (decode_ip_bytes_lem version ip rest h)
