-- ===== src/Engine/Config.antt =====
-- internal/engine/config.go and engine.go: the configuration of a workflow. A node's `config` is raw
-- JSON that only its plugin reads; its metadata, which the engine never reads, is left out. A number of
-- workers below one is as good as zero to NewWorkflow, so that it is natural here.
use voce.Prelude.{ℕ, String, List}
use voce.Prelude.Int.{ℤ}
use voce.Engine.Property.{Property}

pub data EventType : Type 0 where
  signal payload audio video : EventType
  other : ℕ → EventType

pub data SchedulerMode : Type 0 where
  thread_per_node worker_pool : SchedulerMode

pub record NodeConfig : Type 0 where
  pub id : String
  pub name : String
  pub namespace : String
  pub plugin : String
  pub config : String

pub record EdgeConfig : Type 0 where
  pub source : String
  pub source_port : ℤ
  pub target : String
  pub type : EventType

pub record WorkflowConfig : Type 0 where
  pub id : String
  pub name : String
  pub head : String
  pub nodes : List NodeConfig
  pub edges : List EdgeConfig
  pub scheduler_mode : SchedulerMode
  pub scheduler_workers : ℕ

-- What BuildGraph asks of a PluginBuilder.
pub record Builder : Type 0 where
  pub inputs : List Property
  pub outputs : List Property
