-- ===== src/SelfUpdate/Record.antt =====
-- The update record of internal/agent/selfupdate/record.go.
use retune.Base.{ℕ, String, Bool, List}

-- The status strings of record.go. A record is read from a file, so any other text may stand there.
pub data Status : Type 0 where
  pending succeeded rolled_back refused : Status
  other : String → Status

-- Times are instants counted in any fixed unit.
pub record Record : Type 0 where
  pub item_id : String
  pub from_version : String
  pub from_bin_path : String
  pub from_args : List String
  pub to_version : String
  pub to_bin_path : String
  pub started_at : ℕ
  pub deadline : ℕ
  pub status : Status
  pub detail : String
  pub reported : Bool
