-- ===== src/Graph.antt =====
-- The graph configuration (include/rkavp/graph_config.hpp) and its validation (src/core/graph.cpp).
pub mod Acyclic
pub mod Merge
pub mod Loader
pub mod Validation
use rk_avp.Prelude.{ℕ, Bool, List, String, ℤ}
use rk_avp.Queue.{QueuePolicy}
use rk_avp.ConfigValue.{ConfigValue, Object}
use rk_avp.Node.Contract.{InputPolicy}

pub record QueueConfig : Type 0 where
  pub capacity : ℕ
  pub policy : QueuePolicy

pub record FlowControlConfig : Type 0 where
  pub input_queue : QueueConfig
  pub edge_queue : QueueConfig
  pub observer_queue : QueueConfig
  pub observe_timestamp_bounds : Bool

pub record ExecutorConfig : Type 0 where
  pub name : String
  pub threads : ℕ
  pub queue_capacity : ℕ
  pub priority : ℤ

pub record NodeConfig : Type 0 where
  pub id : String
  pub type : String
  pub executor : String
  pub options : Object
  pub has_input_policy : Bool
  pub input_policy : InputPolicy
  pub trigger_port : String

pub record EdgeConfig : Type 0 where
  pub from_node : String
  pub from_port : String
  pub to_node : String
  pub to_port : String
  pub queue : QueueConfig
  pub back_edge : Bool
  pub initial_packet : ConfigValue

pub record GraphPortConfig : Type 0 where
  pub name : String
  pub node : String
  pub port : String
  pub queue : QueueConfig

pub record SourceSlotConfig : Type 0 where
  pub name : String
  pub input_stream : String
  pub subgraph_template : String
  pub output_stream : String

pub record GraphConfig : Type 0 where
  pub version : ℤ
  pub name : String
  pub executors : List ExecutorConfig
  pub nodes : List NodeConfig
  pub edges : List EdgeConfig
  pub inputs : List GraphPortConfig
  pub outputs : List GraphPortConfig
  pub source_slots : List SourceSlotConfig
  pub side_packets : Object
  pub flow_control : FlowControlConfig
