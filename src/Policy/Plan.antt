-- ===== src/Policy/Plan.antt =====
-- internal/agent/policy/engine.go: which settings of the assigned profiles can be applied.
-- A setting is any type `S` with an identity, a kind and a JSON form: the plan reads nothing else.
use Prim.Native.String.{compare}
use Prim.Native.Nat.{Ordering}
use retune.Base.{
  Bool, List, Option, String, Text, [], false, if◌then◌else◌, none, not, some, str_append, str_eq,
  text_eq, true, ℕ, ◌++◌, ◌||◌, ◌∷◌,
}

-- The part of protocol.Setting that the engine uses; json.Marshal may fail.
pub record Settings (S : Type 0) : Type 0 where
  pub identity : S → String
  pub kind : S → String
  pub marshal : S → Option Text

pub record Assigned (S : Type 0) : Type 0 where
  pub profile_id : String
  pub version : ℕ
  pub settings : List S
  pub revert_on_removal : Bool
  -- Why this agent won't apply this version, or "".
  pub held : String

pub record Claim (S : Type 0) : Type 0 where
  pub profile_id : String
  pub setting : S

pub record Action (S : Type 0) : Type 0 where
  pub identity : String
  pub setting : S
  pub profiles : List String
  pub conflict : Bool
  pub detail : String

-- The claims on one identity: the first, and the others in order.
pub record Claims (S : Type 0) : Type 0 where
  pub identity : String
  pub first : Claim S
  pub others : List (Claim S)

insert : String → List String → List String
insert s [] = s ∷ []
insert s (x ∷ xs) =
    let rest = insert s xs in elim (compare x s) [ Ordering.gt ↦ s ∷ x ∷ xs | _ ↦ x ∷ rest ]

-- sort.Strings
sort : List String → List String
unfolding insert
sort [] = []
sort (x ∷ xs) = insert x (sort xs)

has_name : String → List String → Bool
has_name s [] = false
has_name s (x ∷ xs) = str_eq x s || has_name s xs

-- The names in the order of their first occurrence; `seen` are those met so far.
unique : List String → List String → List String
unfolding has_name
unique seen [] = []
unique seen (x ∷ xs) =
    let rest = unique (x ∷ seen) xs in
    let again = unique seen xs in if has_name x seen then again else x ∷ rest

joined : List String → String
joined [] = ""
joined (x ∷ []) = x
joined (x ∷ y ∷ xs) = str_append x (str_append " " (joined (y ∷ xs)))

pub conflict_detail : List String → String
unfolding sort unique joined
conflict_detail ids =
    str_append "profiles disagree about this setting: ["
      (str_append (joined (sort (unique [] ids))) "]")

module _ {S : Type 0} where
  -- claims[id] = append(claims[id], c), new identities at the end of the order.
  unfoldable pub add_claim : String → Claim S → List (Claims S) → List (Claims S)
  add_claim id c [] = record { identity = id; first = c; others = [] } ∷ []
  add_claim id c (cs ∷ rest) =
      let later = add_claim id c rest in
      if str_eq cs.identity id
      then record cs { others = cs.others ++ c ∷ [] } ∷ rest
      else cs ∷ later

  profile_ids : List (Claim S) → List String
  profile_ids [] = []
  profile_ids (c ∷ cs) = c.profile_id ∷ profile_ids cs

  unfoldable pub claimants : Claims S → List String
  unfolding profile_ids
  claimants cs = cs.first.profile_id ∷ profile_ids cs.others

module _ {S : Type 0} (io : Settings S) where
  claim_settings : String → List S → List (Claims S) → List (Claims S)
  unfolding add_claim
  claim_settings profile [] m = m
  claim_settings profile (s ∷ ss) m =
      claim_settings profile ss
        (add_claim (io.identity s) (record { profile_id = profile; setting = s }) m)

  pub claims_of : List (Assigned S) → List (Claims S) → List (Claims S)
  unfolding claim_settings
  claims_of [] m = m
  claims_of (a ∷ as') m = claims_of as' (claim_settings a.profile_id a.settings m)

  -- One more claim: `none` where it cannot be marshalled.
  same_as : Text → Option Text → Option Bool → Option Bool
  same_as first none rest = none
  same_as first (some raw) rest = if text_eq raw first then rest else some false

  others_same : Text → List (Claim S) → Option Bool
  unfolding same_as
  others_same first [] = some true
  others_same first (c ∷ cs) = same_as first (io.marshal c.setting) (others_same first cs)

  same_from : Option Text → List (Claim S) → Option Bool
  unfolding others_same
  same_from none cs = none
  same_from (some first) cs = others_same first cs

  pub all_same : Claims S → Option Bool
  unfolding same_from
  all_same cs = same_from (io.marshal cs.first.setting) cs.others

  -- The action for one identity, from whether its claims agree.
  action_for : Claims S → Bool → Action S
  action_for cs same = record {
    identity = cs.identity;
    setting = cs.first.setting;
    profiles = claimants cs;
    conflict = not same;
    detail = if same then "" else conflict_detail (claimants cs);
  }

  add_action : Claims S → Option Bool → Option (List (Action S)) → Option (List (Action S))
  unfolding action_for
  add_action cs none rest = none
  add_action cs (some same) none = none
  add_action cs (some same) (some actions) = some (action_for cs same ∷ actions)

  pub actions_for : List (Claims S) → Option (List (Action S))
  unfolding add_action all_same
  actions_for [] = some []
  actions_for (cs ∷ rest) = add_action cs (all_same cs) (actions_for rest)

  -- `none` where a setting cannot be marshalled.
  unfoldable pub plan : List (Assigned S) → Option (List (Action S))
  unfolding claims_of actions_for
  plan assigned = actions_for (claims_of assigned [])
