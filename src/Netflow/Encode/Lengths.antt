-- ===== src/Netflow/Encode/Lengths.antt =====
-- The lengths of what the encoders of flow sets and messages write.
use goflow.Base.{
  ℕ, ◌+◌, ◌%◌, ◌≤◌, ◌≡◌, refl, List, [], ◌∷◌, ◌++◌, Bool, true, false, length, length-append,
  length-replicate, arith, ◌==◌, if◌then◌else◌, take, drop, replicate, Option,
}
use goflow.Wire.{write_u16, write_u32}
use goflow.Netflow.Types.{
  FlowSet, template_flow_set, nfv9_options_template_flow_set, FlowSetHeader, TemplateRecord,
  NFv9OptionsTemplateRecord, IpfixOptionsTemplateRecord, DataRecord, OptionsDataRecord, Template,
  ipfix_options_template_flow_set, data_flow_set, options_data_flow_set, raw_flow_set, NFv9Packet,
  IpfixPacket,
}
use goflow.Encoding.{
  EncodeResult, EncodeError, unsupported_version, ok, err, ◌>>=◌, ◌>>◌, guard, bind-eq-ok,
  guard-eq-ok,
}
use goflow.Netflow.Encode.Sets.{
  pad_flow_set_payload, padding, encode_template_flow_set, encode_nfv9_options_template_flow_set,
  encode_ipfix_options_template_flow_set,
}
use goflow.Netflow.Encode.Data.{
  encode_data_flow_set, encode_options_data_flow_set, encode_raw_flow_set,
}
use goflow.Netflow.Encode.Message.{
  Templates, encode_flow_set, append_flow_set, encode_flow_sets_from, encode_flow_sets,
  encode_nfv9_packet, encode_ipfix_packet, no_entries,
}

abbrev IsAligned : List ℕ → Type 0
IsAligned b = length b % 4 ≡ 0

pad_flow_set_payload-IsAligned : (b : List ℕ) → IsAligned (pad_flow_set_payload b)
unfolding pad_flow_set_payload
pad_flow_set_payload-IsAligned b = omega (
  arith,
  length-append b (replicate (padding (length b)) 0),
  length-replicate {0} {A = ℕ} (padding (length b)) 0,
)

-- The end of each encoder of a flow set: a test, the bytes and the padding.
padded-IsAligned :
    (c : Bool) (e : EncodeError) (m : EncodeResult (List ℕ)) (id : ℕ) (r : List ℕ × ℕ)
    → (guard c e >> (m >>= λ b. ok (pad_flow_set_payload b, id))) ≡ ok r
    → IsAligned r.0
padded-IsAligned true e (ok b) id r h = ground (arith, pad_flow_set_payload-IsAligned b)
padded-IsAligned true e (err x) id r h = cc
padded-IsAligned false e m id r h = cc

-- The step of `encodeFlowSet` after the encoder of the set.
step-IsAligned :
    (m : EncodeResult (List ℕ × ℕ)) (t : Templates) (r : List ℕ × ℕ × Templates)
    → ((a : List ℕ × ℕ) → m ≡ ok a → IsAligned a.0)
    → (m >>= λ a. ok (a.0, a.1, t)) ≡ ok r
    → IsAligned r.0
step-IsAligned (ok a) t r aligned h = let al = aligned a refl in ground arith
step-IsAligned (err x) t r aligned h = cc

module _ (header : FlowSetHeader) where
  encode_template_flow_set-IsAligned :
      (version : ℕ) (records : List TemplateRecord) (r : List ℕ × ℕ)
      → encode_template_flow_set version header records ≡ ok r
      → IsAligned r.0
  unfolding encode_template_flow_set
  encode_template_flow_set-IsAligned version records r h = padded-IsAligned _ _ _ _ r h

  encode_nfv9_options_template_flow_set-IsAligned :
      (records : List NFv9OptionsTemplateRecord) (r : List ℕ × ℕ)
      → encode_nfv9_options_template_flow_set header records ≡ ok r
      → IsAligned r.0
  unfolding encode_nfv9_options_template_flow_set
  encode_nfv9_options_template_flow_set-IsAligned records r h = padded-IsAligned _ _ _ _ r h

  encode_ipfix_options_template_flow_set-IsAligned :
      (records : List IpfixOptionsTemplateRecord) (r : List ℕ × ℕ)
      → encode_ipfix_options_template_flow_set header records ≡ ok r
      → IsAligned r.0
  unfolding encode_ipfix_options_template_flow_set
  encode_ipfix_options_template_flow_set-IsAligned records r h = padded-IsAligned _ _ _ _ r h

  encode_data_flow_set-IsAligned :
      (records : List DataRecord) (tmpl : Option Template) (r : List ℕ × ℕ)
      → encode_data_flow_set header records tmpl ≡ ok r
      → IsAligned r.0
  unfolding encode_data_flow_set
  encode_data_flow_set-IsAligned records tmpl r h = padded-IsAligned _ _ _ _ r h

  encode_options_data_flow_set-IsAligned :
      (records : List OptionsDataRecord) (tmpl : Option Template) (r : List ℕ × ℕ)
      → encode_options_data_flow_set header records tmpl ≡ ok r
      → IsAligned r.0
  unfolding encode_options_data_flow_set
  encode_options_data_flow_set-IsAligned records tmpl r h = padded-IsAligned _ _ _ _ r h

  encode_raw_flow_set-IsAligned :
      (records : List ℕ) (r : List ℕ × ℕ)
      → encode_raw_flow_set header records ≡ ok r
      → IsAligned r.0
  unfolding encode_raw_flow_set
  encode_raw_flow_set-IsAligned records r h = padded-IsAligned _ _ (ok records) _ r h

encode_flow_set-IsAligned :
    (version : ℕ) (flow_set : FlowSet) (templates : Templates) (r : List ℕ × ℕ × Templates)
    → encode_flow_set version flow_set templates ≡ ok r
    → IsAligned r.0
unfolding encode_flow_set
encode_flow_set-IsAligned version (template_flow_set header records) templates r h =
    step-IsAligned _ _ r (encode_template_flow_set-IsAligned header version records) h
encode_flow_set-IsAligned version (nfv9_options_template_flow_set header records) templates r h =
    step-IsAligned _ _ r (encode_nfv9_options_template_flow_set-IsAligned header records)
      (guard-eq-ok _ _ _ r h).1
encode_flow_set-IsAligned version (ipfix_options_template_flow_set header records) templates r h =
    step-IsAligned _ _ r (encode_ipfix_options_template_flow_set-IsAligned header records)
      (guard-eq-ok _ _ _ r h).1
encode_flow_set-IsAligned version (data_flow_set header records) templates r h =
    step-IsAligned _ _ r (encode_data_flow_set-IsAligned header records (templates header.id)) h
encode_flow_set-IsAligned version (options_data_flow_set header records) templates r h =
    step-IsAligned _ _ r
      (encode_options_data_flow_set-IsAligned header records (templates header.id)) h
encode_flow_set-IsAligned version (raw_flow_set header records) templates r h =
    step-IsAligned _ _ r (encode_raw_flow_set-IsAligned header records) h
encode_flow_set-IsAligned version FlowSet.nil templates r h = cc
encode_flow_set-IsAligned version FlowSet.other templates r h = cc

append_flow_set-IsAligned :
    (buf : List ℕ) (id : ℕ) (payload buf' : List ℕ)
    → append_flow_set buf id payload ≡ ok buf'
    → IsAligned buf
    → IsAligned payload
    → IsAligned buf'
unfolding append_flow_set write_u16
append_flow_set-IsAligned buf id payload buf' h b p =
    ground (arith, length-append buf (write_u16 id ++ (write_u16 (4 + length payload) ++ payload)))

encode_flow_sets_from-IsAligned :
    (version : ℕ) (flow_sets : List FlowSet) (templates : Templates) (buf buf' : List ℕ)
    → encode_flow_sets_from version flow_sets templates buf ≡ ok buf'
    → IsAligned buf
    → IsAligned buf'
unfolding encode_flow_sets_from
encode_flow_sets_from-IsAligned version [] templates buf buf' h b = ground arith
encode_flow_sets_from-IsAligned version (flow_set ∷ flow_sets) templates buf buf' h b =
    let (r, p, q) = bind-eq-ok (encode_flow_set version flow_set templates) _ buf' h in
    let (next, s, t) = bind-eq-ok (append_flow_set buf r.1 r.0) _ buf' q in
    encode_flow_sets_from-IsAligned version flow_sets r.2 next buf' t (
      append_flow_set-IsAligned buf r.1 r.0 next s b
        (encode_flow_set-IsAligned version flow_set templates r p))

-- The flow sets of a message together end on a multiple of four bytes.
encode_flow_sets-IsAligned :
    (version : ℕ) (flow_sets : List FlowSet) (buf : List ℕ)
    → encode_flow_sets version flow_sets ≡ ok buf
    → IsAligned buf
encode_flow_sets-IsAligned version flow_sets buf h =
    encode_flow_sets_from-IsAligned version flow_sets no_entries [] buf h refl

-- Whatever its flow sets are, an IPFIX message that is encoded has at most 65,535 bytes, a multiple of
-- four, and the length field of its header is the number of its bytes.
pub encode_ipfix_packet-length :
    (p : IpfixPacket) (buf : List ℕ)
    → encode_ipfix_packet p ≡ ok buf
    → (length buf % 4 ≡ 0) × (length buf ≤ 0xffff) × (take 2 (drop 2 buf) ≡ write_u16 (length buf))
unfolding encode_ipfix_packet write_u16 write_u32
encode_ipfix_packet-length p buf h =
    let version = if p.version == 0 then 10 else p.version in
    let (_, rest) = guard-eq-ok (version == 10) unsupported_version _ buf h in
    let (payload, made, q) = bind-eq-ok (encode_flow_sets version p.flow_sets) _ buf rest in
    let aligned = encode_flow_sets-IsAligned version p.flow_sets payload made in ground arith

-- A message of NetFlow v9 that is encoded has a multiple of four bytes.
pub encode_nfv9_packet-length :
    (p : NFv9Packet) (buf : List ℕ) → encode_nfv9_packet p ≡ ok buf → length buf % 4 ≡ 0
unfolding encode_nfv9_packet write_u16 write_u32
encode_nfv9_packet-length p buf h =
    let version = if p.version == 0 then 9 else p.version in
    let (_, rest) = guard-eq-ok (version == 9) unsupported_version _ buf h in
    let (payload, made, q) = bind-eq-ok (encode_flow_sets version p.flow_sets) _ buf rest in
    let aligned = encode_flow_sets-IsAligned version p.flow_sets payload made in ground arith
