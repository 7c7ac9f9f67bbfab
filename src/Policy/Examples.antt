-- ===== src/Policy/Examples.antt =====
-- Settings applied to a machine that is one flag.
use retune.Base.{
  Bool, List, String, [], bytes, false, if◌then◌else◌, none, not, refl, some, true, ◌∷◌, ◌≡◌,
}
use retune.Policy.Plan.{Action, Assigned, Settings}
use retune.Policy.Agent.{Agent, Applied, Handler, Prior, get_key, returns}
use retune.Policy.Apply.{apply}
use retune.Policy.Profiles.{claims_identity, still_claimed}
use retune.Policy.Reconcile.{forget_removed}
use retune.Policy.Reconcile.Claimed.{forget_removed-prior, prior_of}
use retune.Policy.Apply.Evidence.{Evident, Holding, apply-Evident, apply-priors}

-- A setting is the value that the flag is to have.
abbrev flags : Settings Bool
flags = record {
  identity = λ s. "flag";
  kind = λ s. "flag";
  marshal = λ s. some (bytes (if s then "true" else "false"));
}

abbrev same : Bool → Bool → Bool
same true b = b
same false b = not b

abbrev flag_handler : Handler Bool Bool Bool
flag_handler = record {
  kind = "flag";
  get = λ s w. (returns w, w);
  test = λ s w. (returns (same s w), w);
  set = λ s w. (returns tt, s);
  revert = some λ s found w. (none, found);
}

abbrev set_flag : Action Bool
set_flag = record {
  identity = "flag";
  setting = true;
  profiles = "p" ∷ [];
  conflict = false;
  detail = "";
}

abbrev off : Agent Bool Bool Bool
off = record { machine = false; priors = []; applied = []; sent = [] }

abbrev first_state : Prior Bool Bool
first_state = record { kind = "flag"; setting = true; found = false }

abbrev drifted : Agent Bool Bool Bool
drifted = record off { priors = ("flag", first_state) ∷ [] }

holds_after : Holding (apply flags (flag_handler ∷ []) set_flag off).0.0
unfolding apply get_key
holds_after = tt

apply-Evident_example :
    Evident flags set_flag (flag_handler ∷ []) (apply flags (flag_handler ∷ []) set_flag off).1
apply-Evident_example = apply-Evident flags set_flag (flag_handler ∷ []) off holds_after

was_recorded : get_key "flag" drifted.priors ≡ some first_state
unfolding get_key
was_recorded = refl

apply-priors_example : (apply flags (flag_handler ∷ []) set_flag drifted).1.priors ≡ drifted.priors
apply-priors_example =
    apply-priors flags set_flag (flag_handler ∷ []) first_state drifted was_recorded

abbrev still_assigned : List (Assigned Bool)
still_assigned =
    record {
      profile_id = "q";
      version = 1;
      settings = true ∷ [];
      revert_on_removal = true;
      held = "";
    }
    ∷ []

abbrev gone_profile : List (String × Applied)
gone_profile =
    ("p", record { identities = "flag" ∷ []; revert_on_removal = true; version = 1 }) ∷ []

flag_claimed : still_claimed flags still_assigned "flag" ≡ true
unfolding still_claimed claims_identity
flag_claimed = refl

forget_removed-prior_example :
    prior_of flags "flag"
      (forget_removed flags (flag_handler ∷ []) still_assigned gone_profile drifted)
    ≡ prior_of flags "flag" drifted
forget_removed-prior_example =
    forget_removed-prior flags "flag" (flag_handler ∷ []) still_assigned gone_profile drifted
      flag_claimed
