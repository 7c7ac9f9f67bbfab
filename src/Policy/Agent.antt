-- ===== src/Policy/Agent.antt =====
-- What the reconciler of internal/agent/policy/reconcile.go keeps and calls: handlers over a machine,
-- the recorded states, and the records of applied profiles. Errors of the agent's own store are only
-- logged by the source, and are left out.
use retune.Base.{Bool, List, Option, String, [], if◌then◌else◌, none, some, str_eq, ℕ, ◌∷◌}

-- How a call of a handler ends; a panic is recovered by the caller.
pub data Called (A : Type 0) : Type 0 where
  returns : A → Called A
  errs not_applicable panics : String → Called A

pub data SettingStatus : Type 0 where
  compliant remediated error conflict not_applicable : SettingStatus

pub record SettingResult : Type 0 where
  pub identity : String
  pub status : SettingStatus
  pub detail : String

pub record Prior (S T : Type 0) : Type 0 where
  pub kind : String
  pub setting : S
  pub found : T

-- What was applied for a profile.
pub record Applied : Type 0 where
  pub identities : List String
  pub revert_on_removal : Bool
  pub version : ℕ

-- A handler of settings `S` over a machine `W`, whose settings have states `T`.
pub record Handler (S T W : Type 0) : Type 0 where
  pub kind : String
  pub get : S → W → Called T × W
  pub test : S → W → Called Bool × W
  pub set : S → W → Called (Unit {0}) × W
  -- Its error; `none` is nil.
  pub revert : Option (S → T → W → Option String × W)

pub record Agent (S T W : Type 0) : Type 0 where
  pub machine : W
  pub priors : List (String × Prior S T)
  pub applied : List (String × Applied)
  pub sent : List (String × List SettingResult)

module _ {A : Type 0} where
  unfoldable pub get_key : String → List (String × A) → Option A
  get_key key [] = none
  get_key key ((k, a) ∷ rows) = if str_eq k key then some a else get_key key rows

  unfoldable pub put_key : String → A → List (String × A) → List (String × A)
  put_key key a [] = (key, a) ∷ []
  put_key key a ((k, b) ∷ rows) =
      let rest = put_key key a rows in if str_eq k key then (k, a) ∷ rows else (k, b) ∷ rest

  unfoldable pub delete_key : String → List (String × A) → List (String × A)
  delete_key key [] = []
  delete_key key ((k, b) ∷ rows) =
      let rest = delete_key key rows in if str_eq k key then rest else (k, b) ∷ rest
