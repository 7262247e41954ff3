-- ===== src/Sflow/Decode/Gateway.antt =====
-- decoders/sflow/sflow.go: the case FLOW_TYPE_EXT_GATEWAY of `DecodeFlowRecord`.
use goflow.Base.{
  ℕ, zero, suc, List, [], ◌∷◌, Read, ok, err, ◌>>=◌, pure, too_large, ltb, ◌==◌, if◌then◌else◌,
  length,
}
use goflow.Wire.{read_u32}
use goflow.Sflow.FlowTypes.{AsPathSegment, ExtendedGateway}
use goflow.Sflow.Xdr.{read_checked}
use goflow.Sflow.Decode.Format.{decode_ip}

-- One round of the loop over the segments.
unfoldable pub decode_segment : Read AsPathSegment
decode_segment = do
  type ← read_u32
  segment_length ← read_u32
  path ← read_checked segment_length
  pure (record { type = type; path = path })

unfoldable pub decode_segments : ℕ → Read (List AsPathSegment)
decode_segments zero payload = ok ([], payload)
decode_segments (suc n) payload =
    (do s ← decode_segment; ss ← decode_segments n; pure (s ∷ ss)) payload

unfoldable pub decode_as_path : ℕ → Read (List AsPathSegment)
decode_as_path count payload =
    if ltb 1000 count then err (too_large count) else decode_segments count payload

-- `asPathSegments[0]`
abbrev pub first_segment : List AsPathSegment → AsPathSegment
first_segment [] = record { type = 0; path = [] }
first_segment (s ∷ ss) = s

unfoldable pub decode_extended_gateway : Read ExtendedGateway
decode_extended_gateway = do
  next_hop ← decode_ip
  as_number ← read_u32
  src_as ← read_u32
  src_peer_as ← read_u32
  count ← read_u32
  segments ← decode_as_path count
  communities_length ← read_u32
  communities ← read_checked communities_length
  local_pref ← read_u32
  pure (record {
    next_hop_ip_version = next_hop.0;
    next_hop = next_hop.1;
    as_number = as_number;
    src_as = src_as;
    src_peer_as = src_peer_as;
    as_destinations = count;
    as_path_type = (if count == 1 then (first_segment segments).type else 0);
    as_path_length = (if count == 1 then length (first_segment segments).path else 0);
    as_path = (if count == 1 then (first_segment segments).path else []);
    dst_as_path = segments;
    communities_length = communities_length;
    communities = communities;
    local_pref = local_pref;
  })
