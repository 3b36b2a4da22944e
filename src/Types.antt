-- ===== src/Types.antt =====
-- armin-core/graph/src/types.rs: the durable graph's data, and the session scratch.
-- A time stamp, an `f64` that the code only compares, is a count of some fixed unit; a confidence,
-- an `f32` in [0, 1], is a count of ten-thousandths.
pub mod Scratch
use armin.Prelude.{ℕ, ◌≡◌, ◌↔◌, String, Bool, true, false, Option, List, arith, Eq}

pub data NodeType : Type 0 where
  rule decision open_item : NodeType

pub data NodeStatus : Type 0 where
  active invalidated : NodeStatus

pub data EdgeType : Type 0 where
  supersedes refutes resolves relates_to : EdgeType

abbrev pub node_type_eq : NodeType → NodeType → Bool
node_type_eq NodeType.rule NodeType.rule = true
node_type_eq NodeType.decision NodeType.decision = true
node_type_eq NodeType.open_item NodeType.open_item = true
node_type_eq _ _ = false

pub node_type_eq_iff : (a b : NodeType) → (node_type_eq a b ≡ true) ↔ (a ≡ b)
node_type_eq_iff a b = ground arith

abbrev pub node_status_eq : NodeStatus → NodeStatus → Bool
node_status_eq NodeStatus.active NodeStatus.active = true
node_status_eq NodeStatus.invalidated NodeStatus.invalidated = true
node_status_eq _ _ = false

pub node_status_eq_iff : (a b : NodeStatus) → (node_status_eq a b ≡ true) ↔ (a ≡ b)
node_status_eq_iff a b = ground arith

abbrev pub edge_type_eq : EdgeType → EdgeType → Bool
edge_type_eq EdgeType.supersedes EdgeType.supersedes = true
edge_type_eq EdgeType.refutes EdgeType.refutes = true
edge_type_eq EdgeType.resolves EdgeType.resolves = true
edge_type_eq EdgeType.relates_to EdgeType.relates_to = true
edge_type_eq _ _ = false

pub edge_type_eq_iff : (a b : EdgeType) → (edge_type_eq a b ≡ true) ↔ (a ≡ b)
edge_type_eq_iff a b = ground arith

instance abbrev pub NodeType_Eq : Eq NodeType
NodeType_Eq = record { beq = node_type_eq; beq_iff = node_type_eq_iff }

instance abbrev pub NodeStatus_Eq : Eq NodeStatus
NodeStatus_Eq = record { beq = node_status_eq; beq_iff = node_status_eq_iff }

instance abbrev pub EdgeType_Eq : Eq EdgeType
EdgeType_Eq = record { beq = edge_type_eq; beq_iff = edge_type_eq_iff }

pub preference_order : EdgeType → ℕ
preference_order EdgeType.relates_to = 0
preference_order EdgeType.resolves = 1
preference_order EdgeType.refutes = 2
preference_order EdgeType.supersedes = 3

pub record ArgumentNode : Type 0 where
  pub id : String
  pub node_type : NodeType
  pub label : String
  pub description : String
  pub event_id : String
  pub agent_id : String
  pub session_id : String
  pub timestamp : ℕ
  pub confidence : ℕ
  pub files : List String
  pub commit : Option String
  pub mention_count : ℕ
  pub status : NodeStatus

pub data EdgeProvenance : Type 0 where
  extracted : EdgeProvenance
  inferred : (confidence : ℕ) → EdgeProvenance
  ambiguous : EdgeProvenance

pub record ArgumentEdge : Type 0 where
  pub id : String
  pub edge_type : EdgeType
  pub source_node_id : String
  pub target_node_id : String
  pub reasoning : String
  pub timestamp : ℕ
  pub evidence_score : Option ℕ
  pub provenance : EdgeProvenance

pub record GraphSnapshot : Type 0 where
  pub nodes : List ArgumentNode
  pub edges : List ArgumentEdge
