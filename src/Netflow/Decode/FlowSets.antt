-- ===== src/Netflow/Decode/FlowSets.antt =====
-- `DecodeMessageCommonFlowSet` and `DecodeMessageCommon`. The store of templates is a parameter, the
-- interface `TemplateStore`; `none` is a nil store.
use goflow.Base.{
  ℕ, zero, suc, ◌-◌, ◌%◌, ◌^◌, List, [], ◌∷◌, ◌++◌, Bool, true, false, ◌&&◌, ◌||◌, Option, none,
  some, Read, ◌>>=◌, pure, ok, err, Error, Outcome, done, failed, length, leb, ltb, ◌==◌,
  if◌then◌else◌, map, negative_length, no_templates, template_not_found, id_error, out_of_fuel,
  flow_error, decoder_error, joined,
}
use goflow.Wire.{next, read_u16}
use goflow.Netflow.Types.{
  FlowSetHeader, FlowSet, template_flow_set, nfv9_options_template_flow_set,
  ipfix_options_template_flow_set, data_flow_set, options_data_flow_set, raw_flow_set, Template,
  template, nfv9_options, ipfix_options, TemplateStore,
}
use goflow.Netflow.Decode.Templates.{
  decode_template_set, decode_nfv9_options_template_set, decode_ipfix_options_template_set,
}
use goflow.Netflow.Decode.Data.{decode_data_set, decode_options_data_set}

-- `errors.Is(err, ErrorTemplateNotFound)`
unfoldable pub is_template_not_found : Error → Bool
is_template_not_found template_not_found = true
is_template_not_found (flow_error v o i e) = is_template_not_found e
is_template_not_found (decoder_error e) = is_template_not_found e
is_template_not_found (joined e f) = is_template_not_found e || is_template_not_found f
is_template_not_found _ = false

-- `errors.Join(err, lerr)`
abbrev pub join : Option Error → Error → Option Error
join none e = some e
join (some e) f = some (joined e f)

-- What one flow set leaves: the results of `DecodeMessageCommonFlowSet`, the unread payload and the
-- store.
pub record Step (S : Type 0) : Type 0 where
  pub flow_set : FlowSet
  pub error : Option Error
  pub rest : List ℕ
  pub store : Option S

-- The flow sets, the error and the store of `DecodeMessageCommon`.
pub record FlowSets (S : Type 0) : Type 0 where
  pub flow_sets : List FlowSet
  pub error : Option Error
  pub store : Option S

unfoldable pub read_flow_set_header : Read FlowSetHeader
read_flow_set_header = do
  id ← read_u16
  length ← read_u16
  pure (record { id = id; length = length })

module _ {S : Type 0} (ops : TemplateStore S) (version obs_domain_id : ℕ) where
  abbrev pub flow_set_error : FlowSetHeader → Error → Option Error
  flow_set_error header e = some (flow_error version obs_domain_id header.id e)

  -- `for _, record := range records { store.AddTemplate(…) }`
  unfoldable pub add_templates : FlowSetHeader → List (ℕ × Template) → S → Option Error × S
  add_templates header [] s = (none, s)
  add_templates header ((template_id, t) ∷ ts) s =
      let (r, s') = ops.add_template s version obs_domain_id template_id t in
      let later = add_templates header ts s' in
      elim r [ ok _ ↦ later | err e ↦ (flow_set_error header e, s') ]

  -- `if store != nil`
  abbrev pub add_if_store : FlowSetHeader → List (ℕ × Template) → Option S → Option Error × Option S
  add_if_store header ts none = (none, none)
  add_if_store header ts (some s) = let (e, s') = add_templates header ts s in (e, some s')

  -- The end of the four branches for template sets: records that decode make the flow set and go to
  -- the store.
  abbrev pub template_step :
      {A : Type 0}
      → FlowSetHeader
      → (List A → FlowSet)
      → (A → ℕ × Template)
      → List ℕ
      → Option S
      → Outcome A
      → Step S
  template_step header flow_set entry rest store (done records) =
      let (e, store') = add_if_store header (map entry records) store in
      record { flow_set = flow_set records; error = e; rest = rest; store = store' }
  template_step header flow_set entry rest store (failed records e) = record {
    flow_set = FlowSet.nil;
    error = flow_set_error header e;
    rest = rest;
    store = store;
  }

  -- The end of the branches for data sets: on an error the raw flow set is kept.
  abbrev pub data_step :
      {A : Type 0}
      → FlowSetHeader
      → (List A → FlowSet)
      → FlowSet
      → List ℕ
      → Option S
      → Outcome A
      → Step S
  data_step header flow_set raw rest store (done records) = record {
    flow_set = flow_set records;
    error = none;
    rest = rest;
    store = store;
  }
  data_step header flow_set raw rest store (failed records e) = record {
    flow_set = raw;
    error = flow_set_error header e;
    rest = rest;
    store = store;
  }

  -- `switch templatec := template.(type)`
  unfoldable pub decode_with_template :
      FlowSetHeader → List ℕ → List ℕ → Option S → Template → Step S
  decode_with_template header body rest store (template t) =
      data_step header (data_flow_set header) (raw_flow_set header body) rest store
        (decode_data_set t.fields body)
  decode_with_template header body rest store (ipfix_options t) =
      data_step header (options_data_flow_set header) (raw_flow_set header body) rest store
        (decode_options_data_set t.scopes t.options body)
  decode_with_template header body rest store (nfv9_options t) =
      data_step header (options_data_flow_set header) (raw_flow_set header body) rest store
        (decode_options_data_set t.scopes t.options body)
  decode_with_template header body rest store Template.other = record {
    flow_set = raw_flow_set header body;
    error = none;
    rest = rest;
    store = store;
  }

  -- The branch for `fsheader.Id >= 256`.
  unfoldable pub decode_data_flow_set : FlowSetHeader → List ℕ → List ℕ → Option S → Step S
  decode_data_flow_set header body rest none = record {
    flow_set = raw_flow_set header body;
    error = flow_set_error header no_templates;
    rest = rest;
    store = none;
  }
  decode_data_flow_set header body rest (some s) =
      let (r, s') = ops.get_template s version obs_domain_id header.id in
      elim r [
        | ok t ↦ decode_with_template header body rest (some s') t
        | err e ↦ record {
          flow_set = raw_flow_set header body;
          error = flow_set_error header e;
          rest = rest;
          store = some s';
        }
      ]

  -- The branches of `DecodeMessageCommonFlowSet`, on the bytes of the set and those behind it.
  unfoldable pub decode_body : FlowSetHeader → List ℕ → List ℕ → Option S → Step S
  decode_body header body rest store =
      if header.id == 0 && version == 9
      then template_step header (template_flow_set header) (λ r. (r.template_id, template r)) rest
          store (decode_template_set version body)
      else if header.id == 1 && version == 9
      then template_step header (nfv9_options_template_flow_set header)
          (λ r. (r.template_id, nfv9_options r)) rest store (decode_nfv9_options_template_set body)
      else if header.id == 2 && version == 10
      then template_step header (template_flow_set header) (λ r. (r.template_id, template r)) rest
          store (decode_template_set version body)
      else if header.id == 3 && version == 10
      then template_step header (ipfix_options_template_flow_set header)
          (λ r. (r.template_id, ipfix_options r)) rest store
          (decode_ipfix_options_template_set body)
      else if leb 256 header.id
      then decode_data_flow_set header body rest store
      else record {
        flow_set = FlowSet.nil;
        error = flow_set_error header id_error;
        rest = rest;
        store = store;
      }

  -- `DecodeMessageCommonFlowSet`. A header that is cut short leaves no byte; `nextrelpos` is
  -- `header.length - 4`, and the set is cut where the payload ends before it.
  unfoldable pub decode_flow_set : List ℕ → Option S → Step S
  decode_flow_set payload store = elim (read_flow_set_header payload) [
    | ok (header, after) ↦
        if ltb header.length 4
        then record {
          flow_set = FlowSet.nil;
          error = some negative_length;
          rest = after;
          store = store;
        }
        else (let (body, rest) = next (header.length - 4) after in
            decode_body header body rest store)
    | err e ↦ record { flow_set = FlowSet.nil; error = some e; rest = []; store = store }
  ]

  -- The loop's test; `start` is `startSize`, so that `start - length payload` is `read`.
  abbrev pub more_flow_sets : ℕ → ℕ → List ℕ → Bool
  more_flow_sets size start payload =
      leb 4 (length payload) && (version == 9 || ltb ((start - length payload) % 2 ^ 16) size)

  -- What a round does with the step that it has made; the first argument is the rest of the loop.
  -- A template that is not found is noted and the loop goes on; any other error ends it, and the
  -- flow set is dropped.
  abbrev after_step :
      (List FlowSet → Option Error → List ℕ → Option S → FlowSets S)
      → List FlowSet
      → Option Error
      → Step S
      → Option Error
      → FlowSets S
  after_step loop flow_sets error step none =
      loop (flow_sets ++ step.flow_set ∷ []) error step.rest step.store
  after_step loop flow_sets error step (some e) =
      if is_template_not_found e
      then loop (flow_sets ++ step.flow_set ∷ []) (join error e) step.rest step.store
      else record { flow_sets = flow_sets; error = some e; store = step.store }

  -- The loop of `DecodeMessageCommon`. A round takes the four bytes of a header at least, so the
  -- length of the payload is enough fuel.
  unfoldable pub decode_flow_sets :
      ℕ → ℕ → ℕ → List FlowSet → Option Error → List ℕ → Option S → FlowSets S
  decode_flow_sets zero size start flow_sets error payload store =
      if more_flow_sets size start payload
      then record { flow_sets = flow_sets; error = some out_of_fuel; store = store }
      else record { flow_sets = flow_sets; error = error; store = store }
  decode_flow_sets (suc fuel) size start flow_sets error payload store =
      let step = decode_flow_set payload store in
      let next =
        after_step (λ fs e p s. decode_flow_sets fuel size start fs e p s) flow_sets error step
          step.error in
      if more_flow_sets size start payload
      then next
      else record { flow_sets = flow_sets; error = error; store = store }

  unfoldable pub decode_message_common : ℕ → List ℕ → Option S → FlowSets S
  decode_message_common size payload store =
      decode_flow_sets (length payload) size (length payload) [] none payload store
