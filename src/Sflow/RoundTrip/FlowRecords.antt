-- ===== src/Sflow/RoundTrip/FlowRecords.antt =====
-- Flow records with their headers: what the data of a record must satisfy to survive, by its type and
-- the data format.
use goflow.Base.{
  ℕ, ◌/◌, ◌%◌, ◌^◌, ◌≤◌, ◌<◌, ◌≡◌, ◌≢◌, ◌⊎◌, inl, inr, refl, List, [], ◌∷◌, append-nil, ok, All,
  arith, Read,
}
use goflow.Encoding.{EncodeResult}
use goflow.Sflow.FlowTypes.{
  FlowData, no_data, sampled_header, sampled_ethernet, sampled_ipv4, sampled_ipv6, extended_switch,
  extended_router, extended_gateway, extended_mpls, extended_nat, extended_mpls_tunnel,
  extended_mpls_vc, extended_mpls_ftn, extended_mpls_ldp_fec, egress_queue, extended_acl,
  extended_function, raw_record,
}
use goflow.Sflow.Types.{RecordHeader, FlowRecord, zero_flow_record}
use goflow.Sflow.Decode.Format.{data_format_enterprise, data_format_format}
use goflow.Sflow.Decode.Flow.{decode_flow_data, decode_flow_record}
use goflow.Sflow.Encode.Flow.{encode_flow_data}
use goflow.Sflow.Encode.Samples.{encode_flow_record}
use goflow.Sflow.RoundTrip.Xdr.{FitsWord}
use goflow.Sflow.RoundTrip.Addresses.{IsAddress}
use goflow.Sflow.RoundTrip.Flow.{
  ReadsBack, HeaderFits, EthernetFits, IpBaseFits, sampled_header_lem, sampled_ethernet_lem,
  sampled_ipv4_lem, sampled_ipv6_lem,
}
use goflow.Sflow.RoundTrip.Extended.{
  StringFits, VectorFits, extended_switch_lem, extended_router_lem, extended_mpls_lem,
  extended_nat_lem, extended_mpls_tunnel_lem, extended_mpls_vc_lem, extended_mpls_ftn_lem,
  extended_mpls_ldp_fec_lem, egress_queue_lem, extended_acl_lem, extended_function_lem,
}
use goflow.Sflow.RoundTrip.Gateway.{GatewayFits, extended_gateway_lem}
use goflow.Sflow.RoundTrip.Records.{encoded_length, IsCoded, encode_with_header_lem}

-- The formats that the decoder of flow records knows.
abbrev flow_formats : List ℕ
flow_formats =
    1 ∷ 2 ∷ 3 ∷ 4 ∷ 1001 ∷ 1002 ∷ 1003 ∷ 1006 ∷ 1007 ∷ 1008 ∷ 1009 ∷ 1010 ∷ 1011 ∷ 1036 ∷ 1037
    ∷ 1038 ∷ []

-- Data that fits the wire, under its data format.
abbrev pub FlowDataFits : ℕ → FlowData → Type 0
FlowDataFits k no_data = k ≢ k
FlowDataFits k (sampled_header h) = (k ≡ 1) × HeaderFits h
FlowDataFits k (sampled_ethernet e) = (k ≡ 2) × EthernetFits e
FlowDataFits k (sampled_ipv4 d) = (k ≡ 3) × IpBaseFits 4 d.base × FitsWord d.tos
FlowDataFits k (sampled_ipv6 d) = (k ≡ 4) × IpBaseFits 16 d.base × FitsWord d.priority
FlowDataFits k (extended_switch s) =
    (k ≡ 1001) × All FitsWord (s.src_vlan ∷ s.src_priority ∷ s.dst_vlan ∷ s.dst_priority ∷ [])
FlowDataFits k (extended_router r) =
    (k ≡ 1002)
    × IsAddress r.next_hop_ip_version r.next_hop
    × All FitsWord (r.src_mask_len ∷ r.dst_mask_len ∷ [])
FlowDataFits k (extended_gateway g) = (k ≡ 1003) × GatewayFits g
FlowDataFits k (extended_mpls m) =
    (k ≡ 1006)
    × IsAddress m.next_hop_ip_version m.next_hop
    × VectorFits m.in_label_stack
    × VectorFits m.out_label_stack
FlowDataFits k (extended_nat n) =
    (k ≡ 1007)
    × IsAddress n.src_address_ip_version n.src_address
    × IsAddress n.dst_address_ip_version n.dst_address
FlowDataFits k (extended_mpls_tunnel t) =
    (k ≡ 1008) × StringFits t.tunnel_lsp_name × All FitsWord (t.tunnel_id ∷ t.tunnel_cos ∷ [])
FlowDataFits k (extended_mpls_vc v) =
    (k ≡ 1009) × StringFits v.vc_instance_name × All FitsWord (v.vll_vc_id ∷ v.vc_label_cos ∷ [])
FlowDataFits k (extended_mpls_ftn t) =
    (k ≡ 1010) × StringFits t.mpls_ftn_descr × FitsWord t.mpls_ftn_mask
FlowDataFits k (extended_mpls_ldp_fec t) = (k ≡ 1011) × FitsWord t.mpls_fec_addr_prefix_length
FlowDataFits k (egress_queue q) = (k ≡ 1036) × FitsWord q.queue
FlowDataFits k (extended_acl a) =
    (k ≡ 1037) × StringFits a.name × All FitsWord (a.number ∷ a.direction ∷ [])
FlowDataFits k (extended_function t) = (k ≡ 1038) × StringFits t.symbol
FlowDataFits k (raw_record bytes) = (0 < k) × ((2 ^ 12 ≤ k) ⊎ All (λ f. k ≢ f) flow_formats)

abbrev pub header_of : ℕ → ℕ → RecordHeader
header_of k n = record { data_format = k; length = n }

-- The data is encoded, and a record with a header of this format is decoded to it.
abbrev IsRead : ℕ → FlowData → Type 0
IsRead k d =
    (b : List ℕ) × (encode_flow_data d ≡ EncodeResult.ok b)
    × ((n : ℕ)
        → decode_flow_record (header_of k n) b
          ≡ ok (record { header = header_of k n; record_data = d }))

known_lem :
    (k f : ℕ) (d : FlowData) (decode : Read FlowData)
    → k ≡ f
    → f / 2 ^ 12 ≡ 0
    → decode_flow_data (f % 2 ^ 12) ≡ decode
    → ReadsBack decode d
    → IsRead k d
unfolding decode_flow_record data_format_enterprise data_format_format
known_lem k f d decode e low same (b, w, r) = (
  b,
  w,
  λ n. let t : decode b ≡ ok (d, []) = rw append-nil at (r []) in rw (e, low, same) (rw t refl),
)

raw_lem : (k : ℕ) (x : List ℕ) → FlowDataFits k (raw_record x) → IsRead k (raw_record x)
unfolding decode_flow_record decode_flow_data data_format_enterprise data_format_format
    encode_flow_data
raw_lem k x (p, inl big) = (x, refl, λ n. ground arith)
raw_lem k x (p, inr other) = (x, refl, λ n. ground arith)

pub flow_data_lem : (k : ℕ) (d : FlowData) → FlowDataFits k d → IsRead k d
unfolding decode_flow_data
flow_data_lem k no_data h = absurd (h refl)
flow_data_lem k (sampled_header x) (e, f) =
    known_lem k 1 (sampled_header x) _ e refl refl (sampled_header_lem x f)
flow_data_lem k (sampled_ethernet x) (e, f) =
    known_lem k 2 (sampled_ethernet x) _ e refl refl (sampled_ethernet_lem x f)
flow_data_lem k (sampled_ipv4 x) (e, f, g) =
    known_lem k 3 (sampled_ipv4 x) _ e refl refl (sampled_ipv4_lem x f g)
flow_data_lem k (sampled_ipv6 x) (e, f, g) =
    known_lem k 4 (sampled_ipv6 x) _ e refl refl (sampled_ipv6_lem x f g)
flow_data_lem k (extended_switch x) (e, f) =
    known_lem k 1001 (extended_switch x) _ e refl refl (extended_switch_lem x f)
flow_data_lem k (extended_router x) (e, f, g) =
    known_lem k 1002 (extended_router x) _ e refl refl (extended_router_lem x f g)
flow_data_lem k (extended_gateway x) (e, f) =
    known_lem k 1003 (extended_gateway x) _ e refl refl (extended_gateway_lem x f)
flow_data_lem k (extended_mpls x) (e, f, g, h) =
    known_lem k 1006 (extended_mpls x) _ e refl refl (extended_mpls_lem x f g h)
flow_data_lem k (extended_nat x) (e, f, g) =
    known_lem k 1007 (extended_nat x) _ e refl refl (extended_nat_lem x f g)
flow_data_lem k (extended_mpls_tunnel x) (e, f, g) =
    known_lem k 1008 (extended_mpls_tunnel x) _ e refl refl (extended_mpls_tunnel_lem x f g)
flow_data_lem k (extended_mpls_vc x) (e, f, g) =
    known_lem k 1009 (extended_mpls_vc x) _ e refl refl (extended_mpls_vc_lem x f g)
flow_data_lem k (extended_mpls_ftn x) (e, f, g) =
    known_lem k 1010 (extended_mpls_ftn x) _ e refl refl (extended_mpls_ftn_lem x f g)
flow_data_lem k (extended_mpls_ldp_fec x) (e, f) =
    known_lem k 1011 (extended_mpls_ldp_fec x) _ e refl refl (extended_mpls_ldp_fec_lem x f)
flow_data_lem k (egress_queue x) (e, f) =
    known_lem k 1036 (egress_queue x) _ e refl refl (egress_queue_lem x f)
flow_data_lem k (extended_acl x) (e, f, g) =
    known_lem k 1037 (extended_acl x) _ e refl refl (extended_acl_lem x f g)
flow_data_lem k (extended_function x) (e, f) =
    known_lem k 1038 (extended_function x) _ e refl refl (extended_function_lem x f)
flow_data_lem k (raw_record x) h = raw_lem k x h

-- A record whose data fits its format and whose header has the length of the encoded data.
abbrev pub FlowRecordFits : FlowRecord → Type 0
FlowRecordFits r =
    FlowDataFits r.header.data_format r.record_data
    × FitsWord r.header.data_format
    × (0 < r.header.data_format)
    × FitsWord r.header.length
    × (r.header.length ≡ encoded_length (encode_flow_data r.record_data))

pub flow_record_lem :
    (r : FlowRecord)
    → FlowRecordFits r
    → IsCoded encode_flow_record decode_flow_record zero_flow_record (λ r'. r'.header) r
unfolding encode_flow_record
flow_record_lem r (f, k, pos, n, l) =
    let (b, w, d) = flow_data_lem r.header.data_format r.record_data f in
    record {
      payload = b;
      written = rw w (encode_with_header_lem _ r.header.data_format b pos);
      counts = (k, n, rw w at l);
      read = d r.header.length;
    }
