-- ===== src/Sflow/RoundTrip/Flow.antt =====
-- The data of flow records on what `encodeFlowRecord` writes, for each type of data.
use goflow.Base.{
  ℕ, ◌%◌, ◌^◌, ◌≡◌, refl, List, [], ◌∷◌, ◌++◌, append_assoc, ok, length, length-append, All, arith,
  Read,
}
use goflow.Encoding.{EncodeResult}
use goflow.Wire.{write_u16, write_u32}
use goflow.Wire.RoundTrip.{read_u16-write_u16, read_u32-write_u32, read_exactly-append}
use goflow.Sflow.FlowTypes.{
  FlowData, SampledHeader, SampledEthernet, SampledIpBase, SampledIpv4, SampledIpv6, sampled_header,
  sampled_ethernet, sampled_ipv4, sampled_ipv6,
}
use goflow.Sflow.Decode.FlowCases.{
  read_header_data, decode_sampled_header, decode_sampled_ethernet, decode_ip_base,
  decode_sampled_ipv4, decode_sampled_ipv6,
}
use goflow.Sflow.Encode.Flow.{
  encode_sampled_header, encode_sampled_ethernet, encode_sampled_ip_base, encode_sampled_ipv4,
  encode_sampled_ipv6, encode_flow_data,
}
use goflow.Sflow.Xdr.{write_xdr_padding}
use goflow.Sflow.RoundTrip.Xdr.{FitsWord, read_xdr_opaque_with_length-padded}

ruleset reads_back = (append_assoc, read_u16-write_u16, read_u32-write_u32)

-- The data is encoded, and `decode` gives it back and leaves what follows it.
abbrev pub ReadsBack : Read FlowData → FlowData → Type 0
ReadsBack decode d =
    (b : List ℕ) × (encode_flow_data d ≡ EncodeResult.ok b)
    × ((rest : List ℕ) → decode (b ++ rest) ≡ ok (d, rest))

-- A sampled header whose bytes are all there.
abbrev pub HeaderFits : SampledHeader → Type 0
HeaderFits h =
    All FitsWord (h.protocol ∷ h.frame_length ∷ h.stripped ∷ h.original_length ∷ [])
    × (length h.header_data ≡ h.original_length)

read_header_data-padded :
    (n : ℕ) (bs rest : List ℕ)
    → length bs ≡ n
    → read_header_data n (bs ++ (write_xdr_padding n ++ rest)) ≡ ok (bs, rest)
unfolding read_header_data
read_header_data-padded n bs rest l =
    let all = length-append bs (write_xdr_padding n ++ rest) in
    ground (arith, all, read_xdr_opaque_with_length-padded n bs rest l)

pub sampled_header_lem :
    (h : SampledHeader) → HeaderFits h → ReadsBack decode_sampled_header (sampled_header h)
unfolding decode_sampled_header encode_flow_data encode_sampled_header
sampled_header_lem h f = (
  _,
  refl,
  λ rest.
      let small : h.original_length % 2 ^ 32 ≡ h.original_length = omega arith in
      simp (reads_back, small, read_header_data-padded h.original_length h.header_data rest f.1)
        (ground arith),
)

abbrev pub EthernetFits : SampledEthernet → Type 0
EthernetFits e =
    All FitsWord (e.length ∷ e.eth_type ∷ []) × (length e.src_mac ≡ 6) × (length e.dst_mac ≡ 6)

pub sampled_ethernet_lem :
    (e : SampledEthernet) → EthernetFits e → ReadsBack decode_sampled_ethernet (sampled_ethernet e)
unfolding decode_sampled_ethernet encode_flow_data encode_sampled_ethernet
sampled_ethernet_lem e f = (
  write_u32 e.length
      ++ (e.src_mac ++ (write_u16 0 ++ (e.dst_mac ++ (write_u16 0 ++ write_u32 e.eth_type)))),
  rw (f.1, f.2) refl,
  λ rest.
      simp
        (reads_back, read_exactly-append 6 e.src_mac _ f.1, read_exactly-append 6 e.dst_mac _ f.2)
        (ground arith),
)

-- Addresses of n bytes, and the fields of both versions of IP.
abbrev pub IpBaseFits : ℕ → SampledIpBase → Type 0
IpBaseFits n b =
    All FitsWord (b.length ∷ b.protocol ∷ b.src_port ∷ b.dst_port ∷ b.tcp_flags ∷ [])
    × (length b.src_ip ≡ n)
    × (length b.dst_ip ≡ n)

decode_ip_base-encode :
    (n : ℕ) (b : SampledIpBase) (rest : List ℕ)
    → IpBaseFits n b
    → decode_ip_base n (encode_sampled_ip_base b ++ rest) ≡ ok (b, rest)
unfolding decode_ip_base encode_sampled_ip_base
decode_ip_base-encode n b rest f =
    simp (reads_back, read_exactly-append n b.src_ip _ f.1, read_exactly-append n b.dst_ip _ f.2)
      (ground arith)

pub sampled_ipv4_lem :
    (d : SampledIpv4)
    → IpBaseFits 4 d.base
    → FitsWord d.tos
    → ReadsBack decode_sampled_ipv4 (sampled_ipv4 d)
unfolding decode_sampled_ipv4 encode_flow_data encode_sampled_ipv4
sampled_ipv4_lem d f t = (
  encode_sampled_ip_base d.base ++ write_u32 d.tos,
  rw (f.1, f.2) refl,
  λ rest. simp (reads_back, decode_ip_base-encode 4 d.base _ f) (ground arith),
)

pub sampled_ipv6_lem :
    (d : SampledIpv6)
    → IpBaseFits 16 d.base
    → FitsWord d.priority
    → ReadsBack decode_sampled_ipv6 (sampled_ipv6 d)
unfolding decode_sampled_ipv6 encode_flow_data encode_sampled_ipv6
sampled_ipv6_lem d f t = (
  encode_sampled_ip_base d.base ++ write_u32 d.priority,
  rw (f.1, f.2) refl,
  λ rest. simp (reads_back, decode_ip_base-encode 16 d.base _ f) (ground arith),
)
