-- ===== src/Sflow/RoundTrip/Extended.antt =====
-- The data of the extended flow records on what `encodeFlowRecord` writes, but for gateways.
use goflow.Base.{ℕ, ◌^◌, ◌≤◌, ◌<◌, refl, List, [], ◌∷◌, ◌++◌, append_assoc, length, All, arith}
use goflow.Wire.RoundTrip.{read_u32-write_u32}
use goflow.Sflow.FlowTypes.{
  ExtendedSwitch, ExtendedRouter, ExtendedMpls, ExtendedNat, ExtendedMplsTunnel, ExtendedMplsVc,
  ExtendedMplsFtn, ExtendedMplsLdpFec, EgressQueue, ExtendedAcl, ExtendedFunction, extended_switch,
  extended_router, extended_mpls, extended_nat, extended_mpls_tunnel, extended_mpls_vc,
  extended_mpls_ftn, extended_mpls_ldp_fec, egress_queue, extended_acl, extended_function,
}
use goflow.Sflow.Decode.FlowCases.{
  decode_extended_switch, decode_extended_router, decode_extended_mpls, decode_extended_nat,
  decode_extended_mpls_tunnel, decode_extended_mpls_vc, decode_extended_mpls_ftn,
  decode_extended_mpls_ldp_fec, decode_egress_queue, decode_extended_acl, decode_extended_function,
}
use goflow.Sflow.Encode.Flow.{
  write_u32s, encode_extended_switch, encode_extended_router, encode_extended_mpls,
  encode_extended_nat, encode_extended_mpls_tunnel, encode_extended_mpls_vc,
  encode_extended_mpls_ftn, encode_extended_acl, encode_flow_data,
}
use goflow.Sflow.Xdr.{write_u32_vector}
use goflow.Sflow.RoundTrip.Xdr.{
  FitsWord, decode_u32_vector-write_u32_vector, read_xdr_string-write_xdr_string,
}
use goflow.Sflow.RoundTrip.Addresses.{IsAddress, address_bytes, encode_ip_lem, decode_ip-encode_ip}
use goflow.Sflow.RoundTrip.Flow.{ReadsBack}

ruleset reads_back = (append_assoc, read_u32-write_u32)

-- A string whose length fits its field, and a vector within the limit.
abbrev pub StringFits : List ℕ → Type 0
StringFits s = length s < 2 ^ 32

abbrev pub VectorFits : List ℕ → Type 0
VectorFits vs = All FitsWord vs × (length vs ≤ 1000)

pub extended_switch_lem :
    (s : ExtendedSwitch)
    → All FitsWord (s.src_vlan ∷ s.src_priority ∷ s.dst_vlan ∷ s.dst_priority ∷ [])
    → ReadsBack decode_extended_switch (extended_switch s)
unfolding decode_extended_switch encode_flow_data encode_extended_switch
extended_switch_lem s f = (_, refl, λ rest. simp reads_back (ground arith))

pub extended_router_lem :
    (r : ExtendedRouter)
    → IsAddress r.next_hop_ip_version r.next_hop
    → All FitsWord (r.src_mask_len ∷ r.dst_mask_len ∷ [])
    → ReadsBack decode_extended_router (extended_router r)
unfolding decode_extended_router encode_flow_data encode_extended_router
extended_router_lem r a f = (
  address_bytes r.next_hop_ip_version r.next_hop
      ++ write_u32s (r.src_mask_len ∷ r.dst_mask_len ∷ []),
  rw (encode_ip_lem r.next_hop_ip_version r.next_hop a) refl,
  λ rest.
      rw
        (
          append_assoc (address_bytes r.next_hop_ip_version r.next_hop),
          decode_ip-encode_ip r.next_hop_ip_version r.next_hop _ a,
        )
        (simp reads_back (ground arith)),
)

pub extended_mpls_lem :
    (m : ExtendedMpls)
    → IsAddress m.next_hop_ip_version m.next_hop
    → VectorFits m.in_label_stack
    → VectorFits m.out_label_stack
    → ReadsBack decode_extended_mpls (extended_mpls m)
unfolding decode_extended_mpls encode_flow_data encode_extended_mpls
extended_mpls_lem m a i o = (
  address_bytes m.next_hop_ip_version m.next_hop
      ++ (write_u32_vector m.in_label_stack ++ write_u32_vector m.out_label_stack),
  rw (encode_ip_lem m.next_hop_ip_version m.next_hop a) refl,
  λ rest.
      rw
        (
          append_assoc (address_bytes m.next_hop_ip_version m.next_hop),
          decode_ip-encode_ip m.next_hop_ip_version m.next_hop _ a,
          append_assoc (write_u32_vector m.in_label_stack),
          decode_u32_vector-write_u32_vector m.in_label_stack _ i.0 i.1,
          decode_u32_vector-write_u32_vector m.out_label_stack rest o.0 o.1,
        )
        refl,
)

pub extended_nat_lem :
    (n : ExtendedNat)
    → IsAddress n.src_address_ip_version n.src_address
    → IsAddress n.dst_address_ip_version n.dst_address
    → ReadsBack decode_extended_nat (extended_nat n)
unfolding decode_extended_nat encode_flow_data encode_extended_nat
extended_nat_lem n s d = (
  address_bytes n.src_address_ip_version n.src_address
      ++ address_bytes n.dst_address_ip_version n.dst_address,
  rw
      (
        encode_ip_lem n.src_address_ip_version n.src_address s,
        encode_ip_lem n.dst_address_ip_version n.dst_address d,
      )
      refl,
  λ rest.
      rw
        (
          append_assoc (address_bytes n.src_address_ip_version n.src_address),
          decode_ip-encode_ip n.src_address_ip_version n.src_address _ s,
          decode_ip-encode_ip n.dst_address_ip_version n.dst_address rest d,
        )
        refl,
)

pub extended_mpls_tunnel_lem :
    (t : ExtendedMplsTunnel)
    → StringFits t.tunnel_lsp_name
    → All FitsWord (t.tunnel_id ∷ t.tunnel_cos ∷ [])
    → ReadsBack decode_extended_mpls_tunnel (extended_mpls_tunnel t)
unfolding decode_extended_mpls_tunnel encode_flow_data encode_extended_mpls_tunnel
extended_mpls_tunnel_lem t s f = (
  _,
  refl,
  λ rest. simp (reads_back, read_xdr_string-write_xdr_string t.tunnel_lsp_name _ s) (ground arith),
)

pub extended_mpls_vc_lem :
    (v : ExtendedMplsVc)
    → StringFits v.vc_instance_name
    → All FitsWord (v.vll_vc_id ∷ v.vc_label_cos ∷ [])
    → ReadsBack decode_extended_mpls_vc (extended_mpls_vc v)
unfolding decode_extended_mpls_vc encode_flow_data encode_extended_mpls_vc
extended_mpls_vc_lem v s f = (
  _,
  refl,
  λ rest. simp (reads_back, read_xdr_string-write_xdr_string v.vc_instance_name _ s) (ground arith),
)

pub extended_mpls_ftn_lem :
    (t : ExtendedMplsFtn)
    → StringFits t.mpls_ftn_descr
    → FitsWord t.mpls_ftn_mask
    → ReadsBack decode_extended_mpls_ftn (extended_mpls_ftn t)
unfolding decode_extended_mpls_ftn encode_flow_data encode_extended_mpls_ftn
extended_mpls_ftn_lem t s f = (
  _,
  refl,
  λ rest. simp (reads_back, read_xdr_string-write_xdr_string t.mpls_ftn_descr _ s) (ground arith),
)

pub extended_mpls_ldp_fec_lem :
    (t : ExtendedMplsLdpFec)
    → FitsWord t.mpls_fec_addr_prefix_length
    → ReadsBack decode_extended_mpls_ldp_fec (extended_mpls_ldp_fec t)
unfolding decode_extended_mpls_ldp_fec encode_flow_data
extended_mpls_ldp_fec_lem t f = (_, refl, λ rest. simp reads_back (ground arith))

pub egress_queue_lem :
    (q : EgressQueue) → FitsWord q.queue → ReadsBack decode_egress_queue (egress_queue q)
unfolding decode_egress_queue encode_flow_data
egress_queue_lem q f = (_, refl, λ rest. simp reads_back (ground arith))

pub extended_acl_lem :
    (a : ExtendedAcl)
    → StringFits a.name
    → All FitsWord (a.number ∷ a.direction ∷ [])
    → ReadsBack decode_extended_acl (extended_acl a)
unfolding decode_extended_acl encode_flow_data encode_extended_acl
extended_acl_lem a s f =
    (_, refl, λ rest. simp (reads_back, read_xdr_string-write_xdr_string a.name _ s) (ground arith))

pub extended_function_lem :
    (t : ExtendedFunction)
    → StringFits t.symbol
    → ReadsBack decode_extended_function (extended_function t)
unfolding decode_extended_function encode_flow_data
extended_function_lem t s =
    (_, refl, λ rest. rw (read_xdr_string-write_xdr_string t.symbol rest s) refl)
