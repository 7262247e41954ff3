-- ===== src/Netflow/Decode/Rest.antt =====
-- What a round of the loop of `DecodeMessageCommon` leaves unread.
use goflow.Base.{
  ℕ, ◌-◌, ◌≤◌, ◌<◌, ◌≡◌, refl, inl, inr, Bool-cases, List, Bool, true, false, ◌&&◌, Option, none,
  some, Result, ok, err, length, length-drop, arith, ltb, leb, ◌==◌, if◌then◌else◌, Outcome, done,
  failed, flow_error, id_error, take, drop,
}
use goflow.Wire.Reads.{Exactly, uint-Exactly, pure-Exactly}
use goflow.Netflow.Types.{
  FlowSetHeader, FlowSet, TemplateStore, Template, template_flow_set,
  nfv9_options_template_flow_set, ipfix_options_template_flow_set, template, nfv9_options,
  ipfix_options, data_flow_set, options_data_flow_set, raw_flow_set,
}
use goflow.Netflow.Decode.Templates.{
  decode_template_set, decode_nfv9_options_template_set, decode_ipfix_options_template_set,
}
use goflow.Netflow.Decode.Data.{decode_data_set, decode_options_data_set}
use goflow.Netflow.Decode.FlowSets.{
  Step, read_flow_set_header, decode_with_template, decode_data_flow_set, decode_body,
  decode_flow_set, template_step, data_step, flow_set_error,
}

read_flow_set_header-Exactly : Exactly 4 read_flow_set_header
unfolding read_flow_set_header
read_flow_set_header-Exactly = uint-Exactly 2 2 λ _. uint-Exactly 2 0 λ _. pure-Exactly _

module _ {S : Type 0} (ops : TemplateStore S) (version obs_domain_id : ℕ) where
  if-rest :
      (c : Bool) (x y : Step S) (r : List ℕ)
      → x.rest ≡ r
      → y.rest ≡ r
      → (if c then x else y).rest ≡ r
  if-rest true x y r p q = p
  if-rest false x y r p q = q

  template_step-rest :
      {A : Type 0} (header : FlowSetHeader) (flow_set : List A → FlowSet) (entry : A → ℕ × Template)
      (rest : List ℕ) (store : Option S) (o : Outcome A)
      → (template_step ops version obs_domain_id header flow_set entry rest store o).rest ≡ rest
  template_step-rest header flow_set entry rest store (done records) = refl
  template_step-rest header flow_set entry rest store (failed records e) = refl

  data_step-rest :
      {A : Type 0} (header : FlowSetHeader) (flow_set : List A → FlowSet) (raw : FlowSet)
      (rest : List ℕ) (store : Option S) (o : Outcome A)
      → (data_step ops version obs_domain_id header flow_set raw rest store o).rest ≡ rest
  data_step-rest header flow_set raw rest store (done records) = refl
  data_step-rest header flow_set raw rest store (failed records e) = refl

  decode_with_template-rest :
      (header : FlowSetHeader) (body rest : List ℕ) (store : Option S) (t : Template)
      → (decode_with_template ops version obs_domain_id header body rest store t).rest ≡ rest
  unfolding decode_with_template
  decode_with_template-rest header body rest store (template t) =
      data_step-rest header (data_flow_set header) (raw_flow_set header body) rest store
        (decode_data_set t.fields body)
  decode_with_template-rest header body rest store (ipfix_options t) =
      data_step-rest header (options_data_flow_set header) (raw_flow_set header body) rest store
        (decode_options_data_set t.scopes t.options body)
  decode_with_template-rest header body rest store (nfv9_options t) =
      data_step-rest header (options_data_flow_set header) (raw_flow_set header body) rest store
        (decode_options_data_set t.scopes t.options body)
  decode_with_template-rest header body rest store Template.other = refl

  looked_up-rest :
      (header : FlowSetHeader) (body rest : List ℕ) (store : Option S) (r : Result Template)
      → (elim r as (λ _. Step S) [
        | ok t ↦ decode_with_template ops version obs_domain_id header body rest store t
        | err e ↦ record {
          flow_set = raw_flow_set header body;
          error = some (flow_error version obs_domain_id header.id e);
          rest = rest;
          store = store;
        }
      ]).rest
        ≡ rest
  looked_up-rest header body rest store (ok t) = decode_with_template-rest header body rest store t
  looked_up-rest header body rest store (err e) = refl

  decode_data_flow_set-rest :
      (header : FlowSetHeader) (body rest : List ℕ) (store : Option S)
      → (decode_data_flow_set ops version obs_domain_id header body rest store).rest ≡ rest
  unfolding decode_data_flow_set
  decode_data_flow_set-rest header body rest none = refl
  decode_data_flow_set-rest header body rest (some s) =
      let r = ops.get_template s version obs_domain_id header.id in
      looked_up-rest header body rest (some r.1) r.0

  -- Whatever the branch, the bytes behind the set are what is left.
  decode_body-rest :
      (header : FlowSetHeader) (body rest : List ℕ) (store : Option S)
      → (decode_body ops version obs_domain_id header body rest store).rest ≡ rest
  unfolding decode_body
  decode_body-rest header body rest store =
      let missing : Step S = record {
        flow_set = FlowSet.nil;
        error = flow_set_error ops version obs_domain_id header id_error;
        rest = rest;
        store = store;
      } in
      let data_set = decode_data_flow_set ops version obs_domain_id header body rest store in
      let ipfix =
        template_step ops version obs_domain_id header (ipfix_options_template_flow_set header)
          (λ r. (r.template_id, ipfix_options r)) rest store
          (decode_ipfix_options_template_set body) in
      let templates =
        template_step ops version obs_domain_id header (template_flow_set header)
          (λ r. (r.template_id, template r)) rest store (decode_template_set version body) in
      let nfv9 =
        template_step ops version obs_domain_id header (nfv9_options_template_flow_set header)
          (λ r. (r.template_id, nfv9_options r)) rest store
          (decode_nfv9_options_template_set body) in
      let templates-rest =
        template_step-rest header (template_flow_set header) (λ r. (r.template_id, template r)) rest
          store (decode_template_set version body) in
      let s5 = if leb 256 header.id then data_set else missing in
      let s4 = if header.id == 3 && version == 10 then ipfix else s5 in
      let s3 = if header.id == 2 && version == 10 then templates else s4 in
      let s2 = if header.id == 1 && version == 9 then nfv9 else s3 in
      if-rest (header.id == 0 && version == 9) templates s2 rest templates-rest (
        if-rest (header.id == 1 && version == 9) nfv9 s3 rest
          (template_step-rest header (nfv9_options_template_flow_set header)
            (λ r. (r.template_id, nfv9_options r)) rest store
            (decode_nfv9_options_template_set body))
          (if-rest (header.id == 2 && version == 10) templates s4 rest templates-rest (
            if-rest (header.id == 3 && version == 10) ipfix s5 rest
              (template_step-rest header (ipfix_options_template_flow_set header)
                (λ r. (r.template_id, ipfix_options r)) rest store
                (decode_ipfix_options_template_set body))
              (if-rest (leb 256 header.id) data_set missing rest
                (decode_data_flow_set-rest header body rest store) refl))))

  -- A round takes a byte at least.
  pub decode_flow_set-rest :
      (payload : List ℕ) (store : Option S)
      → 4 ≤ length payload
      → length (decode_flow_set ops version obs_domain_id payload store).rest < length payload
  unfolding decode_flow_set
  decode_flow_set-rest payload store h =
      let (header, after, read, taken) = read_flow_set_header-Exactly.run payload h in
      rw (read, length, decode_flow_set)
        (elim (Bool-cases (ltb header.length 4)) [
          | inl negative ↦ rw (negative, length) (omega arith)
          | inr positive ↦
              rw
                (
                  positive,
                  decode_body-rest header (take (header.length - 4) after)
                      (drop (header.length - 4) after) store,
                  length,
                )
                (omega (arith, length-drop (header.length - 4) after))
        ])
