-- ===== src/Policy/Reconcile/Claimed.antt =====
-- Undoing profiles that are gone leaves the settings that another profile still claims.
use retune.Base.{
  Bool, Bool-cases, List, Option, String, [], ap, eq_iff, false, if◌then◌else◌, inl, inr, none,
  refl, some, str_eq, sym, true, ◌∙◌, ◌∷◌, ◌≡◌, ◌≢◌,
}
use retune.Policy.Plan.{Assigned, Settings}
use retune.Policy.Agent.{Agent, Applied, Handler, Prior, delete_key, get_key}
use retune.Policy.Apply.{handler_for}
use retune.Policy.Profiles.{is_current, still_claimed}
use retune.Policy.Reconcile.{
  forget_removed, revert_all, revert_by, revert_one, revert_with, reverted,
}

get_key-delete_key :
    {A : Type 0} (key gone : String) (rows : List (String × A))
    → key ≢ gone
    → get_key key (delete_key gone rows) ≡ get_key key rows
unfolding get_key delete_key
get_key-delete_key key gone [] n = refl
get_key-delete_key key gone ((k, b) ∷ rows) n = elim (Bool-cases (str_eq k gone)) [
  | inl e ↦ elim (Bool-cases (str_eq k key)) [
    | inl e' ↦ absurd (n (sym ((eq_iff k key).0 e') ∙ (eq_iff k gone).0 e))
    | inr e' ↦ rw (e, e') (get_key-delete_key key gone rows n)
  ]
  | inr e ↦ elim (Bool-cases (str_eq k key)) [
    | inl e' ↦ rw (e, e') refl
    | inr e' ↦ rw (e, e') (get_key-delete_key key gone rows n)
  ]
]

module _ {S T W : Type 0} (io : Settings S) (id : String) where
  -- The recorded state of the setting, if there is one.
  abbrev pub prior_of : Agent S T W → Option (Prior S T)
  prior_of st = get_key id st.priors

  reverted-prior :
      (gone : String) (r : Option String) (st : Agent S T W)
      → id ≢ gone
      → prior_of (reverted io gone r st) ≡ prior_of st
  unfolding reverted
  reverted-prior gone none st n = get_key-delete_key id gone st.priors n
  reverted-prior gone (some e) st n = refl

  revert_by-prior :
      (gone : String) (p : Prior S T) (undo : Option (S → T → W → Option String × W))
      (st : Agent S T W)
      → id ≢ gone
      → prior_of (revert_by io gone p undo st) ≡ prior_of st
  unfolding revert_by
  revert_by-prior gone p none st n = refl
  revert_by-prior gone p (some undo) st n =
      reverted-prior gone _ (record st { machine = (undo p.setting p.found st.machine).1 }) n

  revert_with-prior :
      (gone : String) (p : Prior S T) (h : Option (Handler S T W)) (st : Agent S T W)
      → id ≢ gone
      → prior_of (revert_with io gone p h st) ≡ prior_of st
  unfolding revert_with
  revert_with-prior gone p none st n = refl
  revert_with-prior gone p (some h) st n = revert_by-prior gone p h.revert st n

  revert_one-prior :
      (handlers : List (Handler S T W)) (gone : String) (p : Option (Prior S T)) (st : Agent S T W)
      → id ≢ gone
      → prior_of (revert_one io handlers gone p st) ≡ prior_of st
  unfolding revert_one
  revert_one-prior handlers gone none st n = refl
  revert_one-prior handlers gone (some p) st n =
      revert_with-prior gone p (handler_for handlers p.kind) st n

  -- The two sides of a test, of which one may be ruled out.
  if-prior :
      (b : Bool) (st x y : Agent S T W)
      → (b ≡ true → prior_of x ≡ prior_of st)
      → (b ≡ false → prior_of y ≡ prior_of st)
      → prior_of (if b then x else y) ≡ prior_of st
  if-prior true st x y h k = h refl
  if-prior false st x y h k = k refl

  revert_all-prior :
      (handlers : List (Handler S T W)) (claimed : String → Bool) (ids : List String)
      (st : Agent S T W)
      → claimed id ≡ true
      → prior_of (revert_all io handlers claimed ids st) ≡ prior_of st
  unfolding revert_all
  revert_all-prior handlers claimed [] st c = refl
  revert_all-prior handlers claimed (x ∷ ids) st c =
      revert_all-prior handlers claimed ids _ c
      ∙ if-prior (claimed x) st _ _ (λ e. refl)
          (λ e. revert_one-prior handlers x _ st λ same. absurd (cc (sym c ∙ ap claimed same ∙ e)))

  -- Forgetting the profiles that are no longer assigned leaves the recorded state of every setting that
  -- an assigned profile, held or not, still claims, whatever the handlers do.
  pub forget_removed-prior :
      (handlers : List (Handler S T W)) (assigned : List (Assigned S))
      (gone : List (String × Applied)) (st : Agent S T W)
      → still_claimed io assigned id ≡ true
      → prior_of (forget_removed io handlers assigned gone st) ≡ prior_of st
  unfolding forget_removed
  forget_removed-prior handlers assigned [] st c = refl
  forget_removed-prior handlers assigned ((p, rec) ∷ rest) st c =
      forget_removed-prior handlers assigned rest _ c
      ∙ if-prior (is_current p assigned) st _ _ (λ e. refl)
          (λ e.
            if-prior rec.revert_on_removal st _ _
              (λ e'. revert_all-prior handlers (still_claimed io assigned) rec.identities st c)
              (λ e'. refl))
