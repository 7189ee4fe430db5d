-- ===== src/Derive/Attrs.antt =====
-- zizq-derive/src/attrs.rs: what `#[zizq(…)]` attributes say, and the locals of the parsers of their bodies.
pub mod Policies
pub mod Keys
pub mod Container
pub mod Written
pub mod RoundTrip
use zizq_rust.Prelude.{String, Bool, Option, List}

pub record BackoffAttr (E : Type 0) : Type 0 where
  pub base_ms : E
  pub exponent : E
  pub jitter_ms : E

pub record RetentionAttr (E : Type 0) : Type 0 where
  pub completed_ms : Option E
  pub dead_ms : Option E

pub data BudgetStrategyAttr (E : Type 0) : Type 0 where
  while_in_flight : BudgetStrategyAttr E
  time_based : E → Option E → BudgetStrategyAttr E

pub record BudgetPolicyAttr (E : Type 0) : Type 0 where
  pub allocation : E
  pub strategy : BudgetStrategyAttr E

pub record BudgetAttr (E : Type 0) : Type 0 where
  pub key : String
  pub cost : Option E
  pub create_with : Option (BudgetPolicyAttr E)

pub data UniqueSelection : Type 0 where
  only except : List String → UniqueSelection

pub data UniqueScopeAttr : Type 0 where
  queued active exists : UniqueScopeAttr

pub record UniqueAttr : Type 0 where
  pub selection : Option UniqueSelection
  pub scope : Option UniqueScopeAttr
  pub prefix : Option Bool

pub record BatchKeyConfig : Type 0 where
  pub selection : Option UniqueSelection
  pub prefix : Option Bool

pub data BatchFoldMode : Type 0 where
  append dedup sorted : BatchFoldMode

pub record BatchAttr (E : Type 0) : Type 0 where
  pub path : String
  pub limit : E
  pub fold : BatchFoldMode
  pub key : Option BatchKeyConfig

-- The locals of the parsers, which their loops fill.
pub record BackoffFields (E : Type 0) : Type 0 where
  pub base_ms : Option E
  pub exponent : Option E
  pub jitter_ms : Option E

pub record TimeFields (E : Type 0) : Type 0 where
  pub duration_ms : Option E
  pub burst : Option E

pub record PolicyFields (E : Type 0) : Type 0 where
  pub allocation : Option E
  pub strategy : Option (BudgetStrategyAttr E)

pub record BudgetFields (E : Type 0) : Type 0 where
  pub key : Option String
  pub cost : Option E
  pub create_with : Option (BudgetPolicyAttr E)

pub record UniqueFields : Type 0 where
  pub only_paths : Option (List String)
  pub except_paths : Option (List String)
  pub scope : Option UniqueScopeAttr
  pub prefix : Option Bool

pub record BatchFields (E : Type 0) : Type 0 where
  pub path : Option String
  pub limit : Option E
  pub fold : BatchFoldMode
  pub key : Option BatchKeyConfig
