-- ===== src/Rollout/Builds.antt =====
-- One rollout for each build, and none for a build that is not newer than every promoted one.
use retune.Base.{
  Bool, Bool-cases, List, Option, String, [], ap, arith, false, if◌then◌else◌, inl, inr, none, not,
  refl, some, subst, sym, true, ℕ, ◌++◌, ◌==◌, ◌||◌, ◌∙◌, ◌∷◌, ◌≡◌, ◌⊎◌,
}
use retune.Rollout.Rows.{Db, Rollout, promoted}
use retune.Rollout.Db.{
  M, Res, continue, create_rollout, err, get_policy, has_version, in_state, list_in_state, ok,
  ◌>>=◌,
}
use retune.Rollout.Db.Keeps.{
  Columns, Keeps, Keeps-pure, columns, columns_rules, fixed, fixed_rows, list_in_state-columns,
  new_id-columns,
}
use retune.Rollout.Moves.{Setting, is_promoted}
use retune.Rollout.Engine.{begin_rollout, overtakes_all, start, with_policy}
use retune.Rollout.Identity.{step-Keeps, supersede_others-columns}

abbrev has_build : ℕ → List Columns → Bool
has_build build [] = false
has_build build (((id, b), rest) ∷ cs) = (b == build) || has_build build cs

-- No two rollouts are of the same build.
abbrev pub OncePerBuild : List Columns → Type 0
OncePerBuild [] = Unit
OncePerBuild (((id, b), rest) ∷ cs) = (has_build b cs ≡ false) × OncePerBuild cs

has_build-append :
    (v : ℕ) (cs : List Columns) (c : Columns)
    → has_build v cs ≡ false
    → (c.0.1 == v) ≡ false
    → has_build v (cs ++ c ∷ []) ≡ false
has_build-append v [] ((id, b), rest) h k = ground (arith)
has_build-append v (((id', b'), rest') ∷ cs) c h k = elim (Bool-cases (b' == v)) [
  | inl e ↦ absurd (ground (arith))
  | inr e ↦ rw e (has_build-append v cs c (subst (λ x. (x || has_build v cs) ≡ false) e h) k)
]

append-OncePerBuild :
    (cs : List Columns) (c : Columns)
    → OncePerBuild cs
    → has_build c.0.1 cs ≡ false
    → OncePerBuild (cs ++ c ∷ [])
append-OncePerBuild [] ((id, b), rest) h k = (refl, tt)
append-OncePerBuild (((id', b'), rest') ∷ cs) ((id, b), rest) h k = (
  has_build-append b' cs ((id, b), rest) h.0 (ground arith),
  append-OncePerBuild cs ((id, b), rest) h.1 (ground arith),
)

has_version-build : (v : ℕ) (rs : List Rollout) → has_version v rs ≡ has_build v (fixed_rows rs)
unfolding has_version
has_version-build v [] = refl
has_version-build v (r ∷ rs) = ap (λ b. (r.agent_version_id == v) || b) (has_version-build v rs)

fixed_rows-append :
    (rs : List Rollout) (r : Rollout) → fixed_rows (rs ++ r ∷ []) ≡ fixed_rows rs ++ fixed r ∷ []
fixed_rows-append [] r = refl
fixed_rows-append (x ∷ rs) r = cc (fixed_rows-append rs r)

record Once {ℓ} {A : Type ℓ} (m : M A) : Type ℓ where
  at : (db : Db) → OncePerBuild (columns db) → OncePerBuild (columns (m db).1)

Once-Keeps {ℓ} : {A : Type ℓ} (m : M A) → Keeps columns m → Once m
Once-Keeps m k = record { at = λ db h. subst OncePerBuild (sym (k.at db)) h }

continue-Once {ℓ κ} :
    {A : Type ℓ} {B : Type κ} (r : Res A) (f : A → M B) (db : Db)
    → ((a : A) → Once (f a))
    → OncePerBuild (columns db)
    → OncePerBuild (columns (continue r f db).1)
continue-Once (ok a) f db k h = (k a).at db h
continue-Once (err e) f db k h = h

Once-bind {ℓ κ} :
    {A : Type ℓ} {B : Type κ} (m : M A) (f : A → M B)
    → Once m
    → ((a : A) → Once (f a))
    → Once (m >>= f)
unfolding ◌>>=◌
Once-bind m f h k = record { at = λ db p. continue-Once (m db).0 f (m db).1 k (h.at db p) }

Once-if {ℓ} : {A : Type ℓ} (b : Bool) (m n : M A) → Once m → Once n → Once (if b then m else n)
Once-if true m n h k = h
Once-if false m n h k = k

abbrev created_if : Bool → Rollout → Db → Res Bool × Db
created_if b r db =
    if b then (ok false, db) else (ok true, record db { rollouts = db.rollouts ++ r ∷ [] })

create_if-OncePerBuild :
    (b : Bool) (r : Rollout) (db : Db)
    → has_version r.agent_version_id db.rollouts ≡ b
    → OncePerBuild (columns db)
    → OncePerBuild (columns (created_if b r db).1)
create_if-OncePerBuild true r db e h = h
create_if-OncePerBuild false r db e h = subst OncePerBuild (sym (fixed_rows-append db.rollouts r)) (
    append-OncePerBuild (columns db) (fixed r) h
      (sym (has_version-build r.agent_version_id db.rollouts) ∙ e))

create_rollout-Once : (r : Rollout) → Once (create_rollout r)
unfolding create_rollout
create_rollout-Once r = record { at = λ db h. create_if-OncePerBuild _ r db refl h }

module _ (env : Setting) where
  begin_rollout-Once :
      (id build : ℕ) (version : String) (created : Bool)
      → Once (begin_rollout env id build version created)
  unfolding begin_rollout
  begin_rollout-Once id build version false = Once-Keeps _ (Keeps-pure _ tt)
  begin_rollout-Once id build version true =
      Once-Keeps _ (search (columns_rules, supersede_others-columns, step-Keeps) depth 10)

  with_policy-Once :
      (enabled : Bool) (group : Option ℕ) (delay build : ℕ) (version : String)
      → Once (with_policy env enabled group delay build version)
  unfolding with_policy
  with_policy-Once true (some group) delay build version =
      Once-bind _ _ (Once-Keeps _ (list_in_state-columns is_promoted)) λ promoted_builds.
        Once-if (not (overtakes_all env version promoted_builds)) _ _
          (Once-Keeps _ (Keeps-pure _ tt))
          (Once-bind _ _ (Once-Keeps _ new_id-columns) λ id.
            Once-bind _ _ (create_rollout-Once _)
              λ created. begin_rollout-Once id build version created)
  with_policy-Once true none delay build version = Once-Keeps _ (Keeps-pure _ tt)
  with_policy-Once false group delay build version = Once-Keeps _ (Keeps-pure _ tt)

  start-Once : (build : ℕ) (version : String) → Once (start env build version)
  unfolding start get_policy
  start-Once build version =
      Once-bind _ _ (record { at = λ db h. h })
        λ p. with_policy-Once p.enabled p.pilot_group_id p.delay_hours build version

  -- Where no two rollouts are of the same build, starting a rollout keeps it so, however it ends: a
  -- build that has one gets no second.
  pub start-OncePerBuild :
      (build : ℕ) (version : String) (db : Db)
      → OncePerBuild (columns db)
      → OncePerBuild (columns (start env build version db).1)
  start-OncePerBuild build version db h = (start-Once build version).at db h

  -- A promoted rollout that the version does not overtake stands in the list.
  abbrev pub HasNewer : String → List Rollout → Type 0
  HasNewer version [] = ⊥
  HasNewer version (r ∷ rs) =
      ((r.state ≡ promoted) × (env.newer version r.version ≡ false)) ⊎ HasNewer version rs

  HasNewer-overtaken :
      (version : String) (rs : List Rollout)
      → HasNewer version rs
      → overtakes_all env version (in_state is_promoted rs) ≡ false
  unfolding overtakes_all in_state
  HasNewer-overtaken version [] h = absurd h
  HasNewer-overtaken version (r ∷ rs) (inl (p, n)) = rw (ap is_promoted p, n) refl
  HasNewer-overtaken version (r ∷ rs) (inr h) = elim (Bool-cases (is_promoted r.state)) [
    | inl e ↦ rw e (elim (Bool-cases (env.newer version r.version)) [
      | inl k ↦ rw k (HasNewer-overtaken version rs h)
      | inr k ↦ rw k refl
    ])
    | inr e ↦ rw e (HasNewer-overtaken version rs h)
  ]

  with_policy-older :
      (enabled : Bool) (group : Option ℕ) (delay build : ℕ) (version : String) (db : Db)
      → overtakes_all env version (in_state is_promoted db.rollouts) ≡ false
      → with_policy env enabled group delay build version db ≡ (ok tt, db)
  unfolding with_policy ◌>>=◌ list_in_state
  with_policy-older true (some group) delay build version db h = rw h refl
  with_policy-older true none delay build version db h = refl
  with_policy-older false group delay build version db h = refl

  -- A build that does not overtake some promoted one is not rolled out, whatever the policy: starting
  -- it succeeds and leaves the database as it was.
  pub start-older :
      (build : ℕ) (version : String) (db : Db)
      → HasNewer version db.rollouts
      → start env build version db ≡ (ok tt, db)
  unfolding start get_policy ◌>>=◌
  start-older build version db h =
      with_policy-older db.policy.enabled db.policy.pilot_group_id db.policy.delay_hours build
        version db (HasNewer-overtaken version db.rollouts h)
