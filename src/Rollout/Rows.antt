-- ===== src/Rollout/Rows.antt =====
-- The rows of internal/server/store that a rollout reads and writes. Identifiers are numbers, and
-- times are seconds.
use retune.Base.{Bool, List, Option, String, false, true, ℕ}

pub data State : Type 0 where
  pilot promoting promoted halted superseded : State

pub record Rollout : Type 0 where
  pub id : ℕ
  pub agent_version_id : ℕ
  pub state : State
  pub pilot_group_id : Option ℕ
  pub delay_hours : ℕ
  pub pilot_assignment_id : Option ℕ
  pub pilot_approval_id : Option ℕ
  pub pilot_started_at : Option ℕ
  pub exclude_assignment_id : Option ℕ
  pub fleet_assignment_id : Option ℕ
  pub fleet_approval_id : Option ℕ
  pub promoted_at : Option ℕ
  pub detail : String
  pub updated_at : ℕ
  pub version : String

pub data ApprovalStatus : Type 0 where
  pending approved rejected expired failed : ApprovalStatus

-- An approval of an assignment of a build to a group.
pub record Approval : Type 0 where
  pub id : ℕ
  pub status : ApprovalStatus
  pub expires_at : ℕ
  pub item_id : ℕ
  pub group_id : ℕ

pub data Mode : Type 0 where
  include exclude : Mode

pub record Assignment : Type 0 where
  pub id : ℕ
  pub item_id : ℕ
  pub group_id : ℕ
  pub mode : Mode

pub record Audit : Type 0 where
  pub actor : String
  pub action : String
  pub target_id : ℕ

pub record Group : Type 0 where
  pub id : ℕ
  pub is_static : Bool
  pub members : ℕ

-- AgentBuildHealth on a group, read from what its devices report.
pub record Health : Type 0 where
  pub succeeded : ℕ
  pub failed_devices : ℕ
  pub failures : List String

pub record Policy : Type 0 where
  pub enabled : Bool
  pub pilot_group_id : Option ℕ
  pub delay_hours : ℕ

pub record Db : Type 0 where
  pub policy : Policy
  pub rollouts : List Rollout
  pub approvals : List Approval
  pub assignments : List Assignment
  pub groups : List Group
  pub health : ℕ → ℕ → Health
  pub audit : List Audit
  pub next_id : ℕ

abbrev pub same_state : State → State → Bool
same_state pilot pilot = true
same_state promoting promoting = true
same_state promoted promoted = true
same_state halted halted = true
same_state superseded superseded = true
same_state _ _ = false

abbrev pub same_mode : Mode → Mode → Bool
same_mode include include = true
same_mode exclude exclude = true
same_mode _ _ = false
