-- ===== src/Sflow/Decode/Flow.antt =====
-- decoders/sflow/sflow.go: `DecodeFlowRecord`.
use goflow.Base.{ℕ, List, Read, Result, ok, err, record_error, ◌==◌, if◌then◌else◌}
use goflow.Sflow.FlowTypes.{FlowData}
use goflow.Sflow.Types.{RecordHeader, FlowRecord}
use goflow.Sflow.Decode.Format.{data_format_enterprise, data_format_format}
use goflow.Sflow.Decode.FlowCases.{
  decode_sampled_header, decode_sampled_ethernet, decode_sampled_ipv4, decode_sampled_ipv6,
  decode_extended_switch, decode_extended_router, decode_gateway_data, decode_extended_mpls,
  decode_extended_nat, decode_extended_mpls_tunnel, decode_extended_mpls_vc,
  decode_extended_mpls_ftn, decode_extended_mpls_ldp_fec, decode_egress_queue, decode_extended_acl,
  decode_extended_function, decode_raw_record,
}

-- The switch on the format. The formats 1004, 1005 and 1012 have a name in the source but no case.
unfoldable pub decode_flow_data : ℕ → Read FlowData
decode_flow_data format =
    if format == 1
    then decode_sampled_header
    else if format == 2
    then decode_sampled_ethernet
    else if format == 3
    then decode_sampled_ipv4
    else if format == 4
    then decode_sampled_ipv6
    else if format == 1001
    then decode_extended_switch
    else if format == 1002
    then decode_extended_router
    else if format == 1003
    then decode_gateway_data
    else if format == 1006
    then decode_extended_mpls
    else if format == 1007
    then decode_extended_nat
    else if format == 1008
    then decode_extended_mpls_tunnel
    else if format == 1009
    then decode_extended_mpls_vc
    else if format == 1010
    then decode_extended_mpls_ftn
    else if format == 1011
    then decode_extended_mpls_ldp_fec
    else if format == 1036
    then decode_egress_queue
    else if format == 1037
    then decode_extended_acl
    else if format == 1038
    then decode_extended_function
    else decode_raw_record

abbrev as_record : RecordHeader → Result (FlowData × List ℕ) → Result FlowRecord
as_record header (ok (content, rest)) = ok (record { header = header; record_data = content })
as_record header (err e) = err (record_error header.data_format e)

-- `DecodeFlowRecord`; nothing reads what is left of the record's own buffer.
unfoldable pub decode_flow_record : RecordHeader → List ℕ → Result FlowRecord
decode_flow_record header payload =
    let format = header.data_format in
    as_record header (
      if data_format_enterprise format == 0
      then decode_flow_data (data_format_format format) payload
      else decode_raw_record payload)
