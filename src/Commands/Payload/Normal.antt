-- ===== src/Commands/Payload/Normal.antt =====
-- What a queued payload is: within the bounds, and unchanged by a second normalisation.
use retune.Base.{
  Bool, Option, Text, [], ap, bytes, false, if◌then◌else◌, is_blank, leb, length, ltb, none, not,
  refl, some, subst, suc, sym, text_eq, trim_space, trim_space-trim_space, true, zero, ℕ, ◌&&◌,
  ◌||◌, ◌∙◌, ◌∷◌, ◌≡◌,
}
use retune.Release.Version.{negsuc, pos, ℤ}
use retune.Commands.Payload.{
  Json, Kind, PayloadOf, accept_if, account_excluded, check, check_logs, check_read, check_rename,
  check_restart, check_rotate, check_run, check_updates, collect_logs, contains_any, decode_payload,
  install_updates, lock, never, normalize, or_default, or_text, refresh_inventory, rename_computer,
  restart, rotate_admin_password, run_powershell, security, takes_none, valid_computer_name, wipe,
  within, write,
}

accept_if-some : {A : Type 0} (b : Bool) (p q : A) → accept_if b p ≡ some q → (b ≡ true) × (p ≡ q)
accept_if-some true p q h = (refl, cc h)
accept_if-some false p q h = absurd (cc h)

or_default-again : (z : ℤ) (d : ℕ) → or_default (or_default z d) d ≡ or_default z d
or_default-again (pos zero) zero = refl
or_default-again (pos zero) (suc d) = refl
or_default-again (pos (suc n)) d = refl
or_default-again (negsuc n) d = refl

or_text-again : (s d : Text) → or_text (or_text s d) d ≡ or_text s d
or_text-again [] [] = refl
or_text-again [] (c ∷ d) = refl
or_text-again (c ∷ s) d = refl

-- Twice accepted: the second time the checks see what the first time has accepted.
again :
    {A : Type 0} (check_it : A → Option A) (fill : A → A) (test : A → Bool)
    → ((p : A) → check_it p ≡ accept_if (test (fill p)) (fill p))
    → ((p : A) → fill (fill p) ≡ fill p)
    → (p q : A) → check_it p ≡ some q
    → (test q ≡ true) × (check_it q ≡ some q)
again check_it fill test form twice p q h =
    let (t, same) = accept_if-some (test (fill p)) (fill p) q (sym (form p) ∙ h) in
    let filled : fill q ≡ q = ap fill (sym same) ∙ twice p ∙ same in
    let ok : test q ≡ true = subst (λ x. test x ≡ true) same t in
    (ok, form q ∙ ap (λ x. accept_if (test x) x) filled ∙ rw ok refl)

-- The bounds on an accepted payload.
abbrev pub in_bounds : (k : Kind) → PayloadOf k → Bool
in_bounds run_powershell p =
    not (is_blank (trim_space p.script)) && within 1 86400 p.timeout_seconds
in_bounds restart p = within 0 86400 p.delay_seconds && leb (length p.message) 512
in_bounds refresh_inventory p = true
in_bounds lock p = true
in_bounds collect_logs p = within 1 168 p.hours
in_bounds wipe p = true
in_bounds install_updates p =
    (text_eq p.scope security || text_eq p.scope (bytes "all"))
    && (text_eq p.restart never || text_eq p.restart (bytes "if_required"))
in_bounds rename_computer p = valid_computer_name p.name
in_bounds rotate_admin_password p =
    not (ltb 20 (length p.account) || contains_any p.account account_excluded)
    && within 20 64 p.length

-- A checked payload is in bounds, and passes the checks unchanged.
pub check-again :
    (k : Kind) (p q : PayloadOf k)
    → check k p ≡ some q
    → (in_bounds k q ≡ true) × (check k q ≡ some q)
unfolding check_run check_restart check_logs check_updates check_rename check_rotate
check-again run_powershell p q h =
    again check_run (λ p. record p { timeout_seconds = or_default p.timeout_seconds 600 })
      (in_bounds run_powershell) (λ p. refl)
      (λ p. ap (λ z. record p { timeout_seconds = z }) (or_default-again p.timeout_seconds 600)) p q
      h
check-again restart p q h =
    again check_restart (λ p. p) (in_bounds restart) (λ p. refl) (λ p. refl) p q h
check-again refresh_inventory p q h = (refl, refl)
check-again lock p q h = (refl, refl)
check-again collect_logs p q h =
    again check_logs (λ p. record p { hours = or_default p.hours 24 }) (in_bounds collect_logs)
      (λ p. refl) (λ p. ap (λ z. record p { hours = z }) (or_default-again p.hours 24)) p q h
check-again wipe p q h = (refl, refl)
check-again install_updates p q h =
    again check_updates
      (λ p. record p { scope = or_text p.scope security; restart = or_text p.restart never })
      (in_bounds install_updates) (λ p. refl)
      (λ p. cc (or_text-again p.scope security, or_text-again p.restart never)) p q h
check-again rename_computer p q h =
    again check_rename (λ p. record p { name = trim_space p.name }) (in_bounds rename_computer)
      (λ p. refl) (λ p. ap (λ s. record p { name = s }) (trim_space-trim_space p.name)) p q h
check-again rotate_admin_password p q h =
    again check_rotate
      (λ p. record p { account = trim_space p.account; length = or_default p.length 24 })
      (in_bounds rotate_admin_password) (λ p. refl)
      (λ p. cc (trim_space-trim_space p.account, or_default-again p.length 24)) p q h

-- encoding/json reads back what it wrote of a payload that was read and checked, and writes no payload
-- as nothing or as null.
pub record ReadsBack (json : Json) : Type 0 where
  pub reads_back :
      (k : Kind) (raw : Text) (p q : PayloadOf k)
      → decode_payload json k raw ≡ some p
      → check k p ≡ some q
      → json.unmarshal k (json.marshal k q) ≡ some q
  pub writes_object :
      (k : Kind) (p : PayloadOf k)
      → (is_blank (json.marshal k p) || text_eq (json.marshal k p) (bytes "null")) ≡ false

module _ (json : Json) (laws : ReadsBack json) where
  decode-written :
      (k : Kind) (raw : Text) (p q : PayloadOf k)
      → decode_payload json k raw ≡ some p
      → check k p ≡ some q
      → decode_payload json k (json.marshal k q) ≡ some q
  decode-written k raw p q d c = behind ∙ laws.reads_back k raw p q d c
    where
      behind : decode_payload json k (json.marshal k q) ≡ json.unmarshal k (json.marshal k q)
      behind = unfold decode_payload in rw (laws.writes_object k q) refl

  written-again :
      (k : Kind) (raw s : Text) (d : Option (PayloadOf k))
      → decode_payload json k raw ≡ d
      → write json k (check_read json k d) ≡ some s
      → write json k (check_read json k (decode_payload json k s)) ≡ some s
  written-again k raw s none e h = absurd (cc h)
  written-again k raw s (some p) e h = checked (check k p) refl h
    where
      checked :
          (o : Option (PayloadOf k))
          → check k p ≡ o
          → write json k o ≡ some s
          → write json k (check_read json k (decode_payload json k s)) ≡ some s
      checked none c w = absurd (cc w)
      checked (some q) c w =
          let same : json.marshal k q ≡ s = cc w in
          subst (λ t. write json k (check_read json k (decode_payload json k t)) ≡ some t) same
            (ap (λ o. write json k (check_read json k o)) (decode-written k raw p q e c)
              ∙ ap (write json k) (check-again k p q c).1)

  -- A payload that was normalised is its own normal form.
  pub normalize-normalize :
      (k : Kind) (raw s : Text) → normalize json k raw ≡ some s → normalize json k s ≡ some s
  unfolding normalize
  normalize-normalize k raw s h = turn_of (takes_none k) h
    where
      turn_of :
          (b : Bool)
          → (if b
              then some (bytes "{}")
              else write json k (check_read json k (decode_payload json k raw)))
            ≡ some s
          → (if b
              then some (bytes "{}")
              else write json k (check_read json k (decode_payload json k s)))
            ≡ some s
      turn_of true e = e
      turn_of false e = written-again k raw s (decode_payload json k raw) refl e
