-- ===== src/Sflow/RoundTrip/Gateway.antt =====
-- The case of BGP gateways: `encodeExtendedGateway` writes one AS path at most.
use goflow.Base.{
  ℕ, ◌%◌, ◌^◌, ◌≤◌, ◌≡◌, refl, List, [], ◌∷◌, ◌++◌, append_assoc, ok, length, All, arith, ◌==◌,
  if◌then◌else◌,
}
use goflow.Encoding.{EncodeResult}
use goflow.Wire.{write_u32}
use goflow.Wire.RoundTrip.{read_u32-write_u32}
use goflow.Sflow.FlowTypes.{AsPathSegment, ExtendedGateway, extended_gateway}
use goflow.Sflow.Decode.Gateway.{
  first_segment, decode_segment, decode_segments, decode_as_path, decode_extended_gateway,
}
use goflow.Sflow.Decode.FlowCases.{decode_gateway_data}
use goflow.Sflow.Encode.Flow.{
  write_u32s, encode_as_path, encode_communities, encode_extended_gateway, encode_flow_data,
}
use goflow.Sflow.Xdr.{read_checked}
use goflow.Sflow.RoundTrip.Xdr.{FitsWord, read_checked-write_u32s}
use goflow.Sflow.RoundTrip.Addresses.{IsAddress, address_bytes, encode_ip_lem, decode_ip-encode_ip}
use goflow.Sflow.RoundTrip.Flow.{ReadsBack}
use goflow.Sflow.RoundTrip.Extended.{VectorFits}

-- The fields of the AS path: none, or one path of one number at least, in both places.
abbrev pub PathFits : ℕ → ℕ → ℕ → List ℕ → List AsPathSegment → Type 0
PathFits count type n [] segments = (count ≡ 0) × (type ≡ 0) × (n ≡ 0) × (segments ≡ [])
PathFits count type n (a ∷ path) segments =
    (count ≡ 1)
    × FitsWord type
    × (n ≡ length (a ∷ path))
    × VectorFits (a ∷ path)
    × (segments ≡ record { type = type; path = a ∷ path } ∷ [])

pub record GatewayFits (g : ExtendedGateway) : Type 0 where
  pub address : IsAddress g.next_hop_ip_version g.next_hop
  pub numbers : All FitsWord (g.as_number ∷ g.src_as ∷ g.src_peer_as ∷ g.local_pref ∷ [])
  pub path : PathFits g.as_destinations g.as_path_type g.as_path_length g.as_path g.dst_as_path
  pub communities : VectorFits g.communities
  pub communities_length : g.communities_length ≡ length g.communities

ruleset reads_back = (append_assoc, read_u32-write_u32)

-- What is written of an AS path.
abbrev path_bytes : ℕ → List ℕ → List ℕ
path_bytes type [] = []
path_bytes type (a ∷ path) = write_u32s (type ∷ length (a ∷ path) ∷ []) ++ write_u32s (a ∷ path)

encode_as_path_lem :
    (count type n : ℕ) (path : List ℕ) (segments : List AsPathSegment)
    → PathFits count type n path segments
    → encode_as_path type n path ≡ EncodeResult.ok (path_bytes type path)
unfolding encode_as_path
encode_as_path_lem count type n [] segments h = ground arith
encode_as_path_lem count type n (a ∷ path) segments (c, t, l, f, s) = rw l (ground arith)

decode_segment-encode :
    (type : ℕ) (path rest : List ℕ)
    → FitsWord type
    → VectorFits path
    → decode_segment (write_u32s (type ∷ length path ∷ []) ++ (write_u32s path ++ rest))
      ≡ ok (record { type = type; path = path }, rest)
unfolding decode_segment
decode_segment-encode type path rest t f =
    let small : length path % 2 ^ 32 ≡ length path = omega arith in
    simp (reads_back, small, read_checked-write_u32s path rest f.0 f.1) (ground arith)

decode_as_path-encode :
    (count type n : ℕ) (path : List ℕ) (segments : List AsPathSegment) (rest : List ℕ)
    → PathFits count type n path segments
    → decode_as_path count (path_bytes type path ++ rest) ≡ ok (segments, rest)
unfolding decode_as_path decode_segments
decode_as_path-encode count type n [] segments rest (c, t, l, s) = rw (c, s) refl
decode_as_path-encode count type n (a ∷ path) segments rest (c, t, l, f, s) =
    rw
      (
        c,
        s,
        append_assoc (write_u32s (type ∷ length (a ∷ path) ∷ [])) (write_u32s (a ∷ path)) rest,
        decode_segment-encode type (a ∷ path) rest t f,
      )
      refl

-- The fields that the decoder takes from the only segment are those of the gateway.
first_segment_lem :
    (count type n : ℕ) (path : List ℕ) (segments : List AsPathSegment)
    → PathFits count type n path segments
    → ((if count == 1 then (first_segment segments).type else 0) ≡ type)
      × ((if count == 1 then length (first_segment segments).path else 0) ≡ n)
      × ((if count == 1 then (first_segment segments).path else []) ≡ path)
first_segment_lem count type n [] segments (c, t, l, s) = rw (c, t, l) (refl, refl, refl)
first_segment_lem count type n (a ∷ path) segments (c, t, l, f, s) = rw (c, s, l) (refl, refl, refl)

encode_communities_lem :
    (n : ℕ) (vs : List ℕ)
    → n ≡ length vs
    → length vs ≤ 1000
    → encode_communities n vs ≡ EncodeResult.ok (write_u32 n ++ write_u32s vs)
unfolding encode_communities
encode_communities_lem n vs e l = rw e (ground arith)

-- The bytes of a gateway.
abbrev gateway_bytes : ExtendedGateway → List ℕ
gateway_bytes g =
    address_bytes g.next_hop_ip_version g.next_hop
    ++ (write_u32s (g.as_number ∷ g.src_as ∷ g.src_peer_as ∷ g.as_destinations ∷ [])
        ++ (path_bytes g.as_path_type g.as_path
            ++ ((write_u32 g.communities_length ++ write_u32s g.communities)
                ++ write_u32 g.local_pref)))

encode_extended_gateway_lem :
    (g : ExtendedGateway)
    → GatewayFits g
    → encode_extended_gateway g ≡ EncodeResult.ok (gateway_bytes g)
unfolding encode_extended_gateway
encode_extended_gateway_lem g f =
    rw
      (
        encode_ip_lem g.next_hop_ip_version g.next_hop f.address,
        encode_as_path_lem g.as_destinations g.as_path_type g.as_path_length g.as_path g.dst_as_path
            f.path,
        encode_communities_lem g.communities_length g.communities f.communities_length
            f.communities.1,
      )
      refl

-- The count of a gateway whose path fits is 0 or 1.
count_small :
    (count type n : ℕ) (path : List ℕ) (segments : List AsPathSegment)
    → PathFits count type n path segments
    → count % 2 ^ 32 ≡ count
count_small count type n [] segments (c, t, l, s) = omega arith
count_small count type n (a ∷ path) segments (c, t, l, f, s) = omega arith

read_communities :
    (n : ℕ) (vs rest : List ℕ)
    → n ≡ length vs
    → VectorFits vs
    → read_checked n (write_u32s vs ++ rest) ≡ ok (vs, rest)
read_communities n vs rest e f = rw e (read_checked-write_u32s vs rest f.0 f.1)

decode_extended_gateway-encode :
    (g : ExtendedGateway) (rest : List ℕ)
    → GatewayFits g
    → decode_extended_gateway (gateway_bytes g ++ rest) ≡ ok (g, rest)
unfolding decode_extended_gateway
decode_extended_gateway-encode g rest f =
    let count = g.as_destinations in
    let n = g.as_path_length in
    let same = count_small count g.as_path_type n g.as_path g.dst_as_path f.path in
    let first = first_segment_lem count g.as_path_type n g.as_path g.dst_as_path f.path in
    let e = f.communities_length in
    let small : g.communities_length % 2 ^ 32 ≡ g.communities_length =
      let l = f.communities.1 in omega arith in
    rw
      (
        append_assoc (address_bytes g.next_hop_ip_version g.next_hop),
        decode_ip-encode_ip g.next_hop_ip_version g.next_hop _ f.address,
      )
      (simp
        (
          reads_back,
          same,
          small,
          decode_as_path-encode count g.as_path_type n g.as_path g.dst_as_path _ f.path,
          read_communities g.communities_length g.communities _ e f.communities,
        )
        (ground (arith, first)))

-- A gateway with one AS path at most is encoded and decoded back.
pub extended_gateway_lem :
    (g : ExtendedGateway) → GatewayFits g → ReadsBack decode_gateway_data (extended_gateway g)
unfolding decode_gateway_data encode_flow_data
extended_gateway_lem g f = (
  gateway_bytes g,
  encode_extended_gateway_lem g f,
  λ rest. rw (decode_extended_gateway-encode g rest f) refl,
)
