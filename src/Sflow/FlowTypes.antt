-- ===== src/Sflow/FlowTypes.antt =====
-- decoders/sflow/datastructure.go: the records of flow and counter samples. Strings, addresses and
-- other byte slices are lists of bytes; the embedded struct of `SampledIPv4` and `SampledIPv6` is
-- the field `base`, and `AS` is `as_number`. The data of a record is an `interface{}` in the source:
-- here a sum with a case for each type that the package puts there.
use goflow.Base.{ℕ, List}

pub record SampledHeader : Type 0 where
  pub protocol : ℕ
  pub frame_length : ℕ
  pub stripped : ℕ
  pub original_length : ℕ
  pub header_data : List ℕ

pub record SampledEthernet : Type 0 where
  pub length : ℕ
  pub src_mac : List ℕ
  pub dst_mac : List ℕ
  pub eth_type : ℕ

pub record SampledIpBase : Type 0 where
  pub length : ℕ
  pub protocol : ℕ
  pub src_ip : List ℕ
  pub dst_ip : List ℕ
  pub src_port : ℕ
  pub dst_port : ℕ
  pub tcp_flags : ℕ

pub record SampledIpv4 : Type 0 where
  pub base : SampledIpBase
  pub tos : ℕ

pub record SampledIpv6 : Type 0 where
  pub base : SampledIpBase
  pub priority : ℕ

pub record ExtendedSwitch : Type 0 where
  pub src_vlan : ℕ
  pub src_priority : ℕ
  pub dst_vlan : ℕ
  pub dst_priority : ℕ

pub record ExtendedRouter : Type 0 where
  pub next_hop_ip_version : ℕ
  pub next_hop : List ℕ
  pub src_mask_len : ℕ
  pub dst_mask_len : ℕ

pub record AsPathSegment : Type 0 where
  pub type : ℕ
  pub path : List ℕ

pub record ExtendedGateway : Type 0 where
  pub next_hop_ip_version : ℕ
  pub next_hop : List ℕ
  pub as_number : ℕ
  pub src_as : ℕ
  pub src_peer_as : ℕ
  pub as_destinations : ℕ
  pub as_path_type : ℕ
  pub as_path_length : ℕ
  pub as_path : List ℕ
  pub dst_as_path : List AsPathSegment
  pub communities_length : ℕ
  pub communities : List ℕ
  pub local_pref : ℕ

pub record ExtendedMpls : Type 0 where
  pub next_hop_ip_version : ℕ
  pub next_hop : List ℕ
  pub in_label_stack : List ℕ
  pub out_label_stack : List ℕ

pub record ExtendedNat : Type 0 where
  pub src_address_ip_version : ℕ
  pub src_address : List ℕ
  pub dst_address_ip_version : ℕ
  pub dst_address : List ℕ

pub record ExtendedMplsTunnel : Type 0 where
  pub tunnel_lsp_name : List ℕ
  pub tunnel_id : ℕ
  pub tunnel_cos : ℕ

pub record ExtendedMplsVc : Type 0 where
  pub vc_instance_name : List ℕ
  pub vll_vc_id : ℕ
  pub vc_label_cos : ℕ

pub record ExtendedMplsFtn : Type 0 where
  pub mpls_ftn_descr : List ℕ
  pub mpls_ftn_mask : ℕ

pub record ExtendedMplsLdpFec : Type 0 where
  pub mpls_fec_addr_prefix_length : ℕ

pub record EgressQueue : Type 0 where
  pub queue : ℕ

pub record ExtendedAcl : Type 0 where
  pub number : ℕ
  pub name : List ℕ
  pub direction : ℕ

pub record ExtendedFunction : Type 0 where
  pub symbol : List ℕ

-- `FlowRecord.Data`: `no_data` is a nil interface, the data of `FlowRecord{}`.
pub data FlowData : Type 0 where
  no_data : FlowData
  sampled_header : SampledHeader → FlowData
  sampled_ethernet : SampledEthernet → FlowData
  sampled_ipv4 : SampledIpv4 → FlowData
  sampled_ipv6 : SampledIpv6 → FlowData
  extended_switch : ExtendedSwitch → FlowData
  extended_router : ExtendedRouter → FlowData
  extended_gateway : ExtendedGateway → FlowData
  extended_mpls : ExtendedMpls → FlowData
  extended_nat : ExtendedNat → FlowData
  extended_mpls_tunnel : ExtendedMplsTunnel → FlowData
  extended_mpls_vc : ExtendedMplsVc → FlowData
  extended_mpls_ftn : ExtendedMplsFtn → FlowData
  extended_mpls_ldp_fec : ExtendedMplsLdpFec → FlowData
  egress_queue : EgressQueue → FlowData
  extended_acl : ExtendedAcl → FlowData
  extended_function : ExtendedFunction → FlowData
  raw_record : List ℕ → FlowData
