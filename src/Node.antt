-- ===== src/Node.antt =====
-- The parts of `corev1.Node` that the program reads.
use node_reaper.Base.{ℕ, Bool, List, Bytes}
use node_reaper.Base.Table.{Table}

pub record Condition : Type 0 where
  pub type : Bytes
  pub status : Bytes

pub record Node : Type 0 where
  pub name : Bytes
  pub creation_timestamp : ℕ
  -- `Spec`
  pub unschedulable : Bool
  pub provider_id : Bytes
  pub external_id : Bytes
  -- `Labels` and `Status.Conditions`
  pub labels : Table Bytes
  pub conditions : List Condition
