-- ===== src/Sflow/Decode/FlowCases.antt =====
-- decoders/sflow/sflow.go: the cases of the switch of `DecodeFlowRecord`, a function for each.
use goflow.Base.{ℕ, List, [], Read, ok, ◌>>=◌, pure, ltb, if◌then◌else◌, length}
use goflow.Wire.{read_u16, read_u32, read_exactly}
use goflow.Sflow.FlowTypes.{
  FlowData, SampledIpBase, sampled_header, sampled_ethernet, sampled_ipv4, sampled_ipv6,
  extended_switch, extended_router, extended_gateway, extended_mpls, extended_nat,
  extended_mpls_tunnel, extended_mpls_vc, extended_mpls_ftn, extended_mpls_ldp_fec, egress_queue,
  extended_acl, extended_function, raw_record,
}
use goflow.Sflow.Xdr.{read_xdr_opaque_with_length, read_xdr_string, decode_u32_vector}
use goflow.Sflow.Decode.Format.{decode_ip}
use goflow.Sflow.Decode.Gateway.{decode_extended_gateway}

-- The bytes of a sampled header: all that are left, with no padding, where they are fewer than the
-- length says.
unfoldable pub read_header_data : ℕ → Read (List ℕ)
read_header_data n payload =
    if ltb (length payload) n then ok (payload, []) else read_xdr_opaque_with_length n payload

unfoldable pub decode_sampled_header : Read FlowData
decode_sampled_header = do
  protocol ← read_u32
  frame_length ← read_u32
  stripped ← read_u32
  header_length ← read_u32
  header_data ← read_header_data header_length
  pure (
      sampled_header (record {
        protocol = protocol;
        frame_length = frame_length;
        stripped = stripped;
        original_length = header_length;
        header_data = header_data;
      }))

unfoldable pub decode_sampled_ethernet : Read FlowData
decode_sampled_ethernet = do
  frame_length ← read_u32
  src_mac ← read_exactly 6
  src_mac_pad ← read_u16
  dst_mac ← read_exactly 6
  dst_mac_pad ← read_u16
  eth_type ← read_u32
  pure (
      sampled_ethernet (record {
        length = frame_length;
        src_mac = src_mac;
        dst_mac = dst_mac;
        eth_type = eth_type;
      }))

-- The fields of `SampledIPBase` with addresses of n bytes.
unfoldable pub decode_ip_base : ℕ → Read SampledIpBase
decode_ip_base n = do
  packet_length ← read_u32
  protocol ← read_u32
  src_ip ← read_exactly n
  dst_ip ← read_exactly n
  src_port ← read_u32
  dst_port ← read_u32
  tcp_flags ← read_u32
  pure (record {
    length = packet_length;
    protocol = protocol;
    src_ip = src_ip;
    dst_ip = dst_ip;
    src_port = src_port;
    dst_port = dst_port;
    tcp_flags = tcp_flags;
  })

unfoldable pub decode_sampled_ipv4 : Read FlowData
decode_sampled_ipv4 = do
  base ← decode_ip_base 4
  tos ← read_u32
  pure (sampled_ipv4 (record { base = base; tos = tos }))

unfoldable pub decode_sampled_ipv6 : Read FlowData
decode_sampled_ipv6 = do
  base ← decode_ip_base 16
  priority ← read_u32
  pure (sampled_ipv6 (record { base = base; priority = priority }))

unfoldable pub decode_extended_switch : Read FlowData
decode_extended_switch = do
  src_vlan ← read_u32
  src_priority ← read_u32
  dst_vlan ← read_u32
  dst_priority ← read_u32
  pure (
      extended_switch (record {
        src_vlan = src_vlan;
        src_priority = src_priority;
        dst_vlan = dst_vlan;
        dst_priority = dst_priority;
      }))

unfoldable pub decode_extended_router : Read FlowData
decode_extended_router = do
  next_hop ← decode_ip
  src_mask_len ← read_u32
  dst_mask_len ← read_u32
  pure (
      extended_router (record {
        next_hop_ip_version = next_hop.0;
        next_hop = next_hop.1;
        src_mask_len = src_mask_len;
        dst_mask_len = dst_mask_len;
      }))

unfoldable pub decode_extended_mpls : Read FlowData
decode_extended_mpls = do
  next_hop ← decode_ip
  in_label_stack ← decode_u32_vector
  out_label_stack ← decode_u32_vector
  pure (
      extended_mpls (record {
        next_hop_ip_version = next_hop.0;
        next_hop = next_hop.1;
        in_label_stack = in_label_stack;
        out_label_stack = out_label_stack;
      }))

unfoldable pub decode_extended_nat : Read FlowData
decode_extended_nat = do
  src_address ← decode_ip
  dst_address ← decode_ip
  pure (
      extended_nat (record {
        src_address_ip_version = src_address.0;
        src_address = src_address.1;
        dst_address_ip_version = dst_address.0;
        dst_address = dst_address.1;
      }))

unfoldable pub decode_extended_mpls_tunnel : Read FlowData
decode_extended_mpls_tunnel = do
  name ← read_xdr_string
  tunnel_id ← read_u32
  tunnel_cos ← read_u32
  pure (
      extended_mpls_tunnel
        (record { tunnel_lsp_name = name; tunnel_id = tunnel_id; tunnel_cos = tunnel_cos }))

unfoldable pub decode_extended_mpls_vc : Read FlowData
decode_extended_mpls_vc = do
  name ← read_xdr_string
  vll_vc_id ← read_u32
  vc_label_cos ← read_u32
  pure (
      extended_mpls_vc
        (record { vc_instance_name = name; vll_vc_id = vll_vc_id; vc_label_cos = vc_label_cos }))

unfoldable pub decode_extended_mpls_ftn : Read FlowData
decode_extended_mpls_ftn = do
  descr ← read_xdr_string
  mask ← read_u32
  pure (extended_mpls_ftn (record { mpls_ftn_descr = descr; mpls_ftn_mask = mask }))

unfoldable pub decode_extended_mpls_ldp_fec : Read FlowData
decode_extended_mpls_ldp_fec = do
  prefix_length ← read_u32
  pure (extended_mpls_ldp_fec (record { mpls_fec_addr_prefix_length = prefix_length }))

unfoldable pub decode_egress_queue : Read FlowData
decode_egress_queue = do queue ← read_u32; pure (egress_queue (record { queue = queue }))

unfoldable pub decode_extended_acl : Read FlowData
decode_extended_acl = do
  number ← read_u32
  name ← read_xdr_string
  direction ← read_u32
  pure (extended_acl (record { number = number; name = name; direction = direction }))

unfoldable pub decode_extended_function : Read FlowData
decode_extended_function = do
  symbol ← read_xdr_string
  pure (extended_function (record { symbol = symbol }))

-- A record that is not known: the bytes are copied and stay in the buffer.
abbrev pub decode_raw_record : Read FlowData
decode_raw_record payload = ok (raw_record payload, payload)

unfoldable pub decode_gateway_data : Read FlowData
decode_gateway_data = do g ← decode_extended_gateway; pure (extended_gateway g)
