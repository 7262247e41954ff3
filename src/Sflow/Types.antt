-- ===== src/Sflow/Types.antt =====
-- decoders/sflow/packet.go: records with their headers, samples and datagrams. A sample is an
-- `interface{}` in the source: here a sum with a case for each type of sample.
use goflow.Base.{ℕ, List}
use goflow.Sflow.FlowTypes.{FlowData, no_data}
use goflow.Sflow.CounterTypes.{CounterData, no_counters}

pub record RecordHeader : Type 0 where
  pub data_format : ℕ
  pub length : ℕ

pub record FlowRecord : Type 0 where
  pub header : RecordHeader
  pub record_data : FlowData

pub record CounterRecord : Type 0 where
  pub header : RecordHeader
  pub record_data : CounterData

-- `FlowRecord{}`
abbrev pub zero_flow_record : FlowRecord
zero_flow_record = record { header = record { data_format = 0; length = 0 }; record_data = no_data }

-- `CounterRecord{}`
abbrev pub zero_counter_record : CounterRecord
zero_counter_record = record {
  header = record { data_format = 0; length = 0 };
  record_data = no_counters;
}

pub record SampleHeader : Type 0 where
  pub format : ℕ
  pub length : ℕ
  pub sample_sequence_number : ℕ
  pub source_id_type : ℕ
  pub source_id_value : ℕ

pub record FlowSample : Type 0 where
  pub header : SampleHeader
  pub sampling_rate : ℕ
  pub sample_pool : ℕ
  pub drops : ℕ
  pub input : ℕ
  pub output : ℕ
  pub flow_records_count : ℕ
  pub records : List FlowRecord

pub record CounterSample : Type 0 where
  pub header : SampleHeader
  pub counter_records_count : ℕ
  pub records : List CounterRecord

pub record ExpandedFlowSample : Type 0 where
  pub header : SampleHeader
  pub sampling_rate : ℕ
  pub sample_pool : ℕ
  pub drops : ℕ
  pub input_if_format : ℕ
  pub input_if_value : ℕ
  pub output_if_format : ℕ
  pub output_if_value : ℕ
  pub flow_records_count : ℕ
  pub records : List FlowRecord

pub record DropSample : Type 0 where
  pub header : SampleHeader
  pub drops : ℕ
  pub input : ℕ
  pub output : ℕ
  pub reason : ℕ
  pub flow_records_count : ℕ
  pub records : List FlowRecord

pub data Sample : Type 0 where
  flow_sample : FlowSample → Sample
  counter_sample : CounterSample → Sample
  expanded_flow_sample : ExpandedFlowSample → Sample
  drop_sample : DropSample → Sample
  raw_sample : SampleHeader → List ℕ → Sample

pub record Packet : Type 0 where
  pub version : ℕ
  pub ip_version : ℕ
  pub agent_ip : List ℕ
  pub sub_agent_id : ℕ
  pub sequence_number : ℕ
  pub uptime : ℕ
  pub samples_count : ℕ
  pub samples : List Sample
