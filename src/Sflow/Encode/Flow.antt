-- ===== src/Sflow/Encode/Flow.antt =====
-- decoders/sflow/encode.go: the payload of a flow record, with a function for each case of the switch of
-- `encodeFlowRecord` that writes more than one number.
use goflow.Base.{
  ℕ, ◌^◌, ◌%◌, List, [], ◌∷◌, ◌++◌, Bool, not, ◌&&◌, ◌||◌, ◌==◌, ltb, if◌then◌else◌, length,
  concat_map,
}
use goflow.Encoding.{
  EncodeResult, ok, err, ◌>>=◌, ◌>>◌, guard, mac_length_mismatch, ip_length_mismatch,
  as_path_mismatch, communities_mismatch, invalid_ip_length, unsupported_record,
}
use goflow.Wire.{write_u16, write_u32}
use goflow.Sflow.FlowTypes.{
  FlowData, SampledHeader, SampledEthernet, SampledIpBase, SampledIpv4, SampledIpv6, ExtendedSwitch,
  ExtendedRouter, ExtendedGateway, ExtendedMpls, ExtendedNat, ExtendedMplsTunnel, ExtendedMplsVc,
  ExtendedMplsFtn, ExtendedAcl, no_data, sampled_header, sampled_ethernet, sampled_ipv4,
  sampled_ipv6, extended_switch, extended_router, extended_gateway, extended_mpls, extended_nat,
  extended_mpls_tunnel, extended_mpls_vc, extended_mpls_ftn, extended_mpls_ldp_fec, egress_queue,
  extended_acl, extended_function, raw_record,
}
use goflow.Sflow.Xdr.{write_xdr_string, write_xdr_padding, write_u32_vector}

-- `WriteU32` of one number after the other.
abbrev pub write_u32s : List ℕ → List ℕ
write_u32s vs = concat_map write_u32 vs

-- The version of an address, guessed from its length where it is 0. There is no guess for an empty
-- address.
abbrev pub guessed_ip_version : ℕ → List ℕ → EncodeResult ℕ
guessed_ip_version version ip =
    if version == 0
    then (if length ip == 4
        then ok 1
        else if length ip == 16
        then ok 2
        else err (invalid_ip_length (length ip)))
    else ok version

-- The check of the length of an address against its version.
abbrev pub ip_length_fits : ℕ → List ℕ → Bool
ip_length_fits version ip =
    not (version == 1 && not (length ip == 4) || version == 2 && not (length ip == 16))

abbrev encode_some_ip : ℕ → List ℕ → EncodeResult (List ℕ)
encode_some_ip version ip = do
  ip_version ← guessed_ip_version version ip
  guard (ip_length_fits ip_version ip) ip_length_mismatch
  ok (write_u32 ip_version ++ ip)

unfoldable pub encode_ip : ℕ → List ℕ → EncodeResult (List ℕ)
encode_ip version ip =
    if version == 0 && length ip == 0 then ok (write_u32 0) else encode_some_ip version ip

unfoldable pub encode_sampled_header : SampledHeader → List ℕ
encode_sampled_header h =
    write_u32s (h.protocol ∷ h.frame_length ∷ h.stripped ∷ h.original_length ∷ [])
    ++ (h.header_data ++ write_xdr_padding h.original_length)

unfoldable pub encode_sampled_ethernet : SampledEthernet → EncodeResult (List ℕ)
encode_sampled_ethernet e = do
  guard (not (not (length e.src_mac == 6) || not (length e.dst_mac == 6))) mac_length_mismatch
  ok (
      write_u32 e.length
      ++ (e.src_mac ++ (write_u16 0 ++ (e.dst_mac ++ (write_u16 0 ++ write_u32 e.eth_type)))))

unfoldable pub encode_sampled_ip_base : SampledIpBase → List ℕ
encode_sampled_ip_base b =
    write_u32 b.length
    ++ (write_u32 b.protocol
        ++ (b.src_ip ++ (b.dst_ip ++ write_u32s (b.src_port ∷ b.dst_port ∷ b.tcp_flags ∷ []))))

-- `len(data.SrcIP) == n && len(data.DstIP) == n`, as the source negates it.
abbrev ip_sizes : ℕ → SampledIpBase → Bool
ip_sizes n b = not (not (length b.src_ip == n) || not (length b.dst_ip == n))

unfoldable pub encode_sampled_ipv4 : SampledIpv4 → EncodeResult (List ℕ)
encode_sampled_ipv4 d = do
  guard (ip_sizes 4 d.base) ip_length_mismatch
  ok (encode_sampled_ip_base d.base ++ write_u32 d.tos)

unfoldable pub encode_sampled_ipv6 : SampledIpv6 → EncodeResult (List ℕ)
encode_sampled_ipv6 d = do
  guard (ip_sizes 16 d.base) ip_length_mismatch
  ok (encode_sampled_ip_base d.base ++ write_u32 d.priority)

unfoldable pub encode_extended_switch : ExtendedSwitch → List ℕ
encode_extended_switch s =
    write_u32s (s.src_vlan ∷ s.src_priority ∷ s.dst_vlan ∷ s.dst_priority ∷ [])

unfoldable pub encode_extended_router : ExtendedRouter → EncodeResult (List ℕ)
encode_extended_router r = do
  next_hop ← encode_ip r.next_hop_ip_version r.next_hop
  ok (next_hop ++ write_u32s (r.src_mask_len ∷ r.dst_mask_len ∷ []))

-- A length in a header, replaced by the length of the list where it is 0.
abbrev pub length_or : ℕ → List ℕ → ℕ
length_or n vs = if n == 0 then length vs % 2 ^ 32 else n

-- The one AS path, by its type, length and numbers; it is left out where it is empty.
unfoldable pub encode_as_path : ℕ → ℕ → List ℕ → EncodeResult (List ℕ)
encode_as_path type n path = do
  let path_length = length_or n path
  if ltb 0 path_length
      then (guard (path_length == length path) as_path_mismatch
          >> ok (write_u32s (type ∷ path_length ∷ []) ++ write_u32s path))
      else ok []

-- The communities, by their length and numbers.
unfoldable pub encode_communities : ℕ → List ℕ → EncodeResult (List ℕ)
encode_communities n communities = do
  let communities_length = length_or n communities
  guard (communities_length == length communities) communities_mismatch
  ok (write_u32 communities_length ++ write_u32s communities)

unfoldable pub encode_extended_gateway : ExtendedGateway → EncodeResult (List ℕ)
encode_extended_gateway g = do
  next_hop ← encode_ip g.next_hop_ip_version g.next_hop
  as_path ← encode_as_path g.as_path_type g.as_path_length g.as_path
  communities ← encode_communities g.communities_length g.communities
  ok (
      next_hop
      ++ (write_u32s (g.as_number ∷ g.src_as ∷ g.src_peer_as ∷ g.as_destinations ∷ [])
          ++ (as_path ++ (communities ++ write_u32 g.local_pref))))

unfoldable pub encode_extended_mpls : ExtendedMpls → EncodeResult (List ℕ)
encode_extended_mpls m = do
  next_hop ← encode_ip m.next_hop_ip_version m.next_hop
  ok (next_hop ++ (write_u32_vector m.in_label_stack ++ write_u32_vector m.out_label_stack))

unfoldable pub encode_extended_nat : ExtendedNat → EncodeResult (List ℕ)
encode_extended_nat n = do
  src_address ← encode_ip n.src_address_ip_version n.src_address
  dst_address ← encode_ip n.dst_address_ip_version n.dst_address
  ok (src_address ++ dst_address)

unfoldable pub encode_extended_mpls_tunnel : ExtendedMplsTunnel → List ℕ
encode_extended_mpls_tunnel t =
    write_xdr_string t.tunnel_lsp_name ++ write_u32s (t.tunnel_id ∷ t.tunnel_cos ∷ [])

unfoldable pub encode_extended_mpls_vc : ExtendedMplsVc → List ℕ
encode_extended_mpls_vc v =
    write_xdr_string v.vc_instance_name ++ write_u32s (v.vll_vc_id ∷ v.vc_label_cos ∷ [])

unfoldable pub encode_extended_mpls_ftn : ExtendedMplsFtn → List ℕ
encode_extended_mpls_ftn f = write_xdr_string f.mpls_ftn_descr ++ write_u32 f.mpls_ftn_mask

unfoldable pub encode_extended_acl : ExtendedAcl → List ℕ
encode_extended_acl a = write_u32 a.number ++ (write_xdr_string a.name ++ write_u32 a.direction)

-- The payload of a record, by the type of its data.
unfoldable pub encode_flow_data : FlowData → EncodeResult (List ℕ)
encode_flow_data no_data = err unsupported_record
encode_flow_data (sampled_header h) = ok (encode_sampled_header h)
encode_flow_data (sampled_ethernet e) = encode_sampled_ethernet e
encode_flow_data (sampled_ipv4 d) = encode_sampled_ipv4 d
encode_flow_data (sampled_ipv6 d) = encode_sampled_ipv6 d
encode_flow_data (extended_switch s) = ok (encode_extended_switch s)
encode_flow_data (extended_router r) = encode_extended_router r
encode_flow_data (extended_gateway g) = encode_extended_gateway g
encode_flow_data (extended_mpls m) = encode_extended_mpls m
encode_flow_data (extended_nat n) = encode_extended_nat n
encode_flow_data (extended_mpls_tunnel t) = ok (encode_extended_mpls_tunnel t)
encode_flow_data (extended_mpls_vc v) = ok (encode_extended_mpls_vc v)
encode_flow_data (extended_mpls_ftn f) = ok (encode_extended_mpls_ftn f)
encode_flow_data (extended_mpls_ldp_fec f) = ok (write_u32 f.mpls_fec_addr_prefix_length)
encode_flow_data (egress_queue q) = ok (write_u32 q.queue)
encode_flow_data (extended_acl a) = ok (encode_extended_acl a)
encode_flow_data (extended_function f) = ok (write_xdr_string f.symbol)
encode_flow_data (raw_record bytes) = ok bytes

-- The data format of a record whose header has none.
unfoldable pub flow_format : FlowData → ℕ
flow_format no_data = 0
flow_format (sampled_header h) = 1
flow_format (sampled_ethernet e) = 2
flow_format (sampled_ipv4 d) = 3
flow_format (sampled_ipv6 d) = 4
flow_format (extended_switch s) = 1001
flow_format (extended_router r) = 1002
flow_format (extended_gateway g) = 1003
flow_format (extended_mpls m) = 1006
flow_format (extended_nat n) = 1007
flow_format (extended_mpls_tunnel t) = 1008
flow_format (extended_mpls_vc v) = 1009
flow_format (extended_mpls_ftn f) = 1010
flow_format (extended_mpls_ldp_fec f) = 1011
flow_format (egress_queue q) = 1036
flow_format (extended_acl a) = 1037
flow_format (extended_function f) = 1038
flow_format (raw_record bytes) = 0
