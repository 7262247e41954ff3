-- ===== src/Sflow/Decode/Format.antt =====
-- decoders/sflow/sflow.go: the parts of a data format, and addresses.
use goflow.Base.{
  ℕ, ◌+◌, ◌*◌, ◌/◌, ◌%◌, ◌^◌, List, [], Read, ok, err, ◌>>=◌, pure, unknown_ip_version, truncated,
  ltb, ◌==◌, if◌then◌else◌, length,
}
use goflow.Wire.{read_u32, read_exactly}

-- `enterprise << 12 | format & 0xfff`; the bits of the two do not overlap.
unfoldable pub pack_data_format : ℕ → ℕ → ℕ
pack_data_format enterprise format = enterprise * 2 ^ 12 % 2 ^ 32 + format % 2 ^ 12

unfoldable pub data_format_enterprise : ℕ → ℕ
data_format_enterprise data_format = data_format / 2 ^ 12

unfoldable pub data_format_format : ℕ → ℕ
data_format_format data_format = data_format % 2 ^ 12

-- The size of an address of a version that is known.
abbrev pub ip_size : ℕ → ℕ
ip_size version = if version == 1 then 4 else 16

-- The address after its version. The version and the address are the results.
unfoldable pub decode_ip_bytes : ℕ → Read (ℕ × List ℕ)
decode_ip_bytes version payload =
    if version == 0
    then ok ((0, []), payload)
    else if ltb 2 version
    then err (unknown_ip_version version)
    else if ltb (length payload) (ip_size version)
    then err (truncated (ip_size version) (length payload))
    else (do ip ← read_exactly (ip_size version); pure (version, ip)) payload

unfoldable pub decode_ip : Read (ℕ × List ℕ)
decode_ip = read_u32 >>= decode_ip_bytes
