-- ===== src/Netflow/Types.antt =====
-- The data of decoders/netflow: packet.go, template_types.go, template_store.go and the packets of
-- nfv9.go and ipfix.go.
use goflow.Base.{ℕ, List, Bool, false, Result}

-- A field of a template.
pub record Field : Type 0 where
  pub pen_provided : Bool
  pub type : ℕ
  pub length : ℕ
  pub pen : ℕ

-- The dynamic type of `DataField.Value`: `other` is a value that is neither `[]byte` nor `string`.
pub data Value : Type 0 where
  nil other : Value
  bytes text : List ℕ → Value

pub record DataField : Type 0 where
  pub pen_provided : Bool
  pub type : ℕ
  pub length : ℕ
  pub pen : ℕ
  pub value : Value

-- `DataField{}`
abbrev pub zero_field : DataField
zero_field = record { pen_provided = false; type = 0; length = 0; pen = 0; value = nil }

pub record TemplateRecord : Type 0 where
  pub template_id : ℕ
  pub field_count : ℕ
  pub fields : List Field

pub record NFv9OptionsTemplateRecord : Type 0 where
  pub template_id : ℕ
  pub scope_length : ℕ
  pub option_length : ℕ
  pub scopes : List Field
  pub options : List Field

pub record IpfixOptionsTemplateRecord : Type 0 where
  pub template_id : ℕ
  pub field_count : ℕ
  pub scope_field_count : ℕ
  pub options : List Field
  pub scopes : List Field

-- `DataRecord.Values`
pub record DataRecord : Type 0 where
  pub values : List DataField

pub record OptionsDataRecord : Type 0 where
  pub scopes_values : List DataField
  pub options_values : List DataField

pub record FlowSetHeader : Type 0 where
  pub id : ℕ
  pub length : ℕ

-- The dynamic types of a flow set; `nil` is the nil interface, and `other` any other type.
pub data FlowSet : Type 0 where
  nil other : FlowSet
  template_flow_set : FlowSetHeader → List TemplateRecord → FlowSet
  nfv9_options_template_flow_set : FlowSetHeader → List NFv9OptionsTemplateRecord → FlowSet
  ipfix_options_template_flow_set : FlowSetHeader → List IpfixOptionsTemplateRecord → FlowSet
  data_flow_set : FlowSetHeader → List DataRecord → FlowSet
  options_data_flow_set : FlowSetHeader → List OptionsDataRecord → FlowSet
  raw_flow_set : FlowSetHeader → List ℕ → FlowSet

-- The dynamic types of a stored template; `other` is any other type.
pub data Template : Type 0 where
  template : TemplateRecord → Template
  nfv9_options : NFv9OptionsTemplateRecord → Template
  ipfix_options : IpfixOptionsTemplateRecord → Template
  other : Template

pub data TemplateStatus : Type 0 where
  unchanged updated added : TemplateStatus

-- `TemplateStore`: operations on a store of type S for one router, by version, observation domain
-- and template id. A call returns the store that it leaves.
pub record TemplateStore (S : Type 0) : Type 0 where
  pub add_template : S → ℕ → ℕ → ℕ → Template → Result TemplateStatus × S
  pub get_template : S → ℕ → ℕ → ℕ → Result Template × S

pub record NFv9Packet : Type 0 where
  pub version : ℕ
  pub count : ℕ
  pub system_uptime : ℕ
  pub unix_seconds : ℕ
  pub sequence_number : ℕ
  pub source_id : ℕ
  pub flow_sets : List FlowSet

pub record IpfixPacket : Type 0 where
  pub version : ℕ
  pub length : ℕ
  pub export_time : ℕ
  pub sequence_number : ℕ
  pub observation_domain_id : ℕ
  pub flow_sets : List FlowSet
