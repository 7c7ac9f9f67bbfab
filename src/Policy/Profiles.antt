-- ===== src/Policy/Profiles.antt =====
-- What internal/agent/policy/reconcile.go reads off the assigned profiles, and the results it
-- collects for each.
use retune.Base.{
  Bool, List, Option, String, [], any, false, if◌then◌else◌, none, not, some, str_eq, ◌++◌, ◌||◌,
  ◌∷◌,
}
use retune.Policy.Plan.{Assigned, Settings}
use retune.Policy.Agent.{Applied, SettingResult, error, get_key, put_key}

abbrev or_empty : Option (List SettingResult) → List SettingResult
or_empty none = []
or_empty (some rs) = rs

-- One result to every profile that claims the setting.
unfoldable pub add_result :
    SettingResult
    → List String
    → List (String × List SettingResult)
    → List (String × List SettingResult)
add_result r [] results = results
add_result r (p ∷ ps) results =
    add_result r ps (put_key p (or_empty (get_key p results) ++ r ∷ []) results)

module _ {S : Type 0} where
  unfoldable pub is_held : Assigned S → Bool
  is_held a = not (str_eq a.held "")

  unfoldable pub active : List (Assigned S) → List (Assigned S)
  unfolding is_held
  active [] = []
  active (a ∷ as') = let rest = active as' in if is_held a then rest else a ∷ rest

  unfoldable pub is_current : String → List (Assigned S) → Bool
  is_current id = any (λ a. str_eq a.profile_id id)

  unfoldable pub send_all :
      List (Assigned S)
      → List (String × List SettingResult)
      → List (String × List SettingResult)
      → List (String × List SettingResult)
  send_all [] results sent = sent
  send_all (a ∷ as') results sent = send_all as' results (
      sent ++ (a.profile_id, elim (get_key a.profile_id results) [ none ↦ [] | some rs ↦ rs ]) ∷ [])

module _ {S : Type 0} (io : Settings S) where
  unfoldable pub held_results : String → List S → List SettingResult
  held_results why [] = []
  held_results why (s ∷ ss) =
      record { identity = io.identity s; status = error; detail = why } ∷ held_results why ss

  -- Each profile's results before anything is applied.
  unfoldable pub first_results :
      List (Assigned S) → List (String × List SettingResult) → List (String × List SettingResult)
  unfolding held_results is_held
  first_results [] results = results
  first_results (a ∷ as') results =
      first_results as'
        (put_key a.profile_id (if is_held a then held_results a.held a.settings else []) results)

  unfoldable pub claims_identity : String → List S → Bool
  claims_identity id = any (λ s. str_eq (io.identity s) id)

  -- stillClaimed: some assigned profile, held or not, has the setting.
  unfoldable pub still_claimed : List (Assigned S) → String → Bool
  unfolding claims_identity
  still_claimed [] id = false
  still_claimed (a ∷ as') id = claims_identity id a.settings || still_claimed as' id

  unfoldable pub identities : List S → List String
  identities [] = []
  identities (s ∷ ss) = io.identity s ∷ identities ss

  unfoldable pub record_applied :
      List (Assigned S) → List (String × Applied) → List (String × Applied)
  unfolding identities
  record_applied [] m = m
  record_applied (a ∷ as') m = record_applied as' (
      put_key a.profile_id
        (record {
          identities = identities a.settings;
          revert_on_removal = a.revert_on_removal;
          version = a.version;
        })
        m)
