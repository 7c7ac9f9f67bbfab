-- ===== src/Commands/Queue/Wipes.antt =====
-- What a queued wipe has passed.
use retune.Base.{
  Bool, Option, Text, arith, equal_fold, false, if◌then◌else◌, is_blank, leb, length, ltb, none,
  not, refl, some, subst, trim_space, true, ℕ, ◌+◌, ◌-◌, ◌<◌, ◌≡◌, ◌≤◌,
}
use retune.Opsign.{wipe_manifest}
use retune.Opsign.Sound.{SignedBy, verify_wipe-SignedBy}
use retune.Commands.Rows.{Command, Db, Device, is_active}
use retune.Commands.Store.{find_device}
use retune.Commands.Service.{Error, bad_request, device_not_active, not_found, refused}
use retune.Commands.Payload.{Wipe, kind_of, normalize, wipe}
use retune.Commands.Queue.{
  Answer, QueueOptions, Setting, admit, asked_ttl, cap_ttl, check_signature, done, fail, found,
  has_keys, max_wipe_reason, max_wipe_validity, new_command, no_error, order_signed, queue, require,
  shorten, signed_ttl, wipe_ttl, ◌>>=◌,
}

pub bind-done :
    {A B : Type 0} (a : Answer A) (f : A → Answer B) (b : B)
    → (a >>= f) ≡ done b
    → (x : A) × (a ≡ done x) × (f x ≡ done b)
bind-done (done x) f b h = (x, refl, h)
bind-done (fail e) f b h = absurd (cc h)

pub require-done :
    {B : Type 0} (e : Error) (t : Bool) (f : Unit → Answer B) (b : B)
    → (require e t >>= f) ≡ done b
    → (t ≡ true) × (f tt ≡ done b)
require-done e true f b h = (refl, h)
require-done e false f b h = absurd (cc h)

pub found-done :
    {A B : Type 0} (e : Error) (o : Option A) (f : A → Answer B) (b : B)
    → (found e o >>= f) ≡ done b
    → (x : A) × (o ≡ some x) × (f x ≡ done b)
found-done e (some x) f b h = (x, refl, h)
found-done e none f b h = absurd (cc h)

no_error-done :
    {A E : Type 0} (o : Option E) (a b : A) → no_error o a ≡ done b → (o ≡ none) × (a ≡ b)
no_error-done none a b h = (refl, cc h)
no_error-done (some e) a b h = absurd (cc h)

if_true : {A : Type 0} (b : Bool) (x y z : A) → b ≡ true → (if b then x else y) ≡ z → x ≡ z
if_true true x y z k h = h
if_true false x y z k h = absurd (cc k)

module _ (setting : Setting) where
  -- The payload is an order for this device that an operations key signed, it is valid for a day at
  -- most, and the command lapses with it at the latest.
  pub record SignedOrder (now device : ℕ) (payload : Text) (lapses : ℕ) : Type 0 where
    pub order : Wipe
    pub expires : ℕ
    pub reads : setting.json.unmarshal wipe payload ≡ some order
    pub has_expiry : order.expires ≡ some expires
    pub signed :
        SignedBy setting.crypto setting.base64 setting.operations_keys
          (wipe_manifest setting.clock (setting.device_text device) order.is_protected expires)
          order.signature
    pub not_expired : now < expires
    pub short : expires ≤ now + max_wipe_validity
    pub in_time : lapses ≤ expires

  order_signed-done :
      (device now : ℕ) (payload : Text) (p : Wipe) (expires ttl signed : ℕ)
      → setting.json.unmarshal wipe payload ≡ some p
      → p.expires ≡ some expires
      → order_signed setting device now p expires ≡ done signed
      → SignedOrder now device payload (now + shorten setting ttl signed)
  order_signed-done device now payload p expires ttl signed r x h =
      let (short, rest) = not_longer (ltb (now + max_wipe_validity) expires) _ h in
      let (valid, left) = no_error-done _ (expires - now) signed rest in
      let (by_key, live) =
        verify_wipe-SignedBy setting.crypto setting.base64 setting.clock setting.operations_keys
          (setting.device_text device) p.is_protected expires now p.signature valid in
      record {
        order = p;
        expires = expires;
        reads = r;
        has_expiry = x;
        signed = by_key;
        not_expired = live;
        short = ground arith;
        in_time = ground arith;
      }
    where
      not_longer :
          (b : Bool) (a : Answer ℕ)
          → (if b then fail bad_request else a) ≡ done signed
          → (b ≡ false) × (a ≡ done signed)
      not_longer true a e = absurd (cc e)
      not_longer false a e = (refl, e)

  signed_ttl-SignedOrder :
      (device now ttl short : ℕ) (payload : Text)
      → has_keys setting setting.operations_keys ≡ true
      → signed_ttl setting wipe device payload now ttl ≡ done short
      → SignedOrder now device payload (now + short)
  unfolding signed_ttl check_signature
  signed_ttl-SignedOrder device now ttl short payload k h =
      let (signed, checked, same) =
        bind-done (check_signature setting wipe device payload now)
          (λ s. done (shorten setting ttl s)) short
          (if_true (has_keys setting setting.operations_keys) _ _ (done short) k h) in
      let (p, r, rest) =
        found-done refused (setting.json.unmarshal wipe payload) _ signed checked in
      let (expires, x, last) = found-done bad_request p.expires _ signed rest in
      subst (λ t. SignedOrder now device payload (now + t)) (cc same)
        (order_signed-done device now payload p expires ttl signed r x last)

  signed_ttl-shorter :
      (device now ttl short : ℕ) (payload : Text)
      → signed_ttl setting wipe device payload now ttl ≡ done short
      → short ≤ ttl
  unfolding signed_ttl
  signed_ttl-shorter device now ttl short payload h =
      shorter (has_keys setting setting.operations_keys) h
    where
      shorter :
          (b : Bool)
          → (if b
              then (check_signature setting wipe device payload now >>= λ signed.
                  done (shorten setting ttl signed))
              else done ttl)
            ≡ done short
          → short ≤ ttl
      shorter false e = let same : ttl ≡ short = cc e in ground arith
      shorter true e =
          let (signed, c, same) =
            bind-done (check_signature setting wipe device payload now)
              (λ s. done (shorten setting ttl s)) short e in
          let pick : shorten setting ttl signed ≡ short = cc same in ground (arith, pick)

  pub record Confirmed (now : ℕ) (o : QueueOptions) (db : Db) (c : Command) : Type 0 where
    pub device : Device
    pub known : find_device o.device_id db.devices ≡ some device
    pub device_active : is_active device.status ≡ true
    pub hostname : equal_fold (trim_space o.confirm_hostname) device.hostname ≡ true
    pub has_reason : is_blank (trim_space o.reason) ≡ false
    pub short_reason : length (trim_space o.reason) ≤ max_wipe_reason
    pub for_device : c.device_id ≡ o.device_id
    pub within_day : c.expires_at ≤ now + wipe_ttl
    pub by_order :
        has_keys setting setting.operations_keys ≡ true
        → SignedOrder now o.device_id c.payload c.expires_at

  not_blank : (b : Bool) → not b ≡ true → b ≡ false
  not_blank false h = refl
  not_blank true h = absurd (cc h)

  capped : (n : ℕ) → cap_ttl wipe n ≤ wipe_ttl
  capped n = ground arith

  admit-Confirmed :
      (payload : Text) (now id : ℕ) (o : QueueOptions) (db after : Db) (c : Command)
      → admit setting wipe payload now id o false db ≡ done (some (c, after))
      → Confirmed now o db c
  unfolding admit
  admit-Confirmed payload now id o db after c h =
      let (a, h1) = require-done bad_request (not (is_blank (trim_space o.reason))) _ _ h in
      let (b, h2) =
        require-done bad_request (leb (length (trim_space o.reason)) max_wipe_reason) _ _ h1 in
      let (ttl, t, h3) =
        bind-done (signed_ttl setting wipe o.device_id payload now (cap_ttl wipe (asked_ttl o.ttl)))
          _ _ h2 in
      let (d, f, h4) = found-done not_found (find_device o.device_id db.devices) _ _ h3 in
      let (act, h5) = require-done device_not_active (is_active d.status) _ _ h4 in
      let (host, h6) =
        require-done bad_request (equal_fold (trim_space o.confirm_hostname) d.hostname) _ _ h5 in
      let same : new_command setting now id payload ttl o ≡ c = cc h6 in
      let shorter =
        signed_ttl-shorter o.device_id now (cap_ttl wipe (asked_ttl o.ttl)) ttl payload t in
      let small = capped (asked_ttl o.ttl) in
      let fits : now + ttl ≤ now + wipe_ttl = omega (arith, shorter, small) in
      subst (Confirmed now o db) same (record {
        device = d;
        known = f;
        device_active = act;
        hostname = host;
        has_reason = not_blank _ a;
        short_reason = ground (arith, b);
        for_device = refl;
        within_day = fits;
        by_order = λ k. signed_ttl-SignedOrder o.device_id now _ ttl payload k t;
      })

  -- A wipe is queued only for an active device whose hostname was typed, up to letter case, with a
  -- reason of 1 to 500 bytes, and lapses within 24 hours; where operations keys are set, its payload is
  -- an order for that device that one of them signed, and the command lapses with it at the latest.
  pub queue-Confirmed :
      (now id : ℕ) (o : QueueOptions) (db after : Db) (c : Command)
      → kind_of o.kind ≡ some wipe
      → queue setting now id o false db ≡ done (some (c, after))
      → Confirmed now o db c
  unfolding queue
  queue-Confirmed now id o db after c k h =
      let (kind, e, h1) = found-done bad_request (kind_of o.kind) _ _ h in
      let (payload, n, h2) =
        found-done bad_request (normalize setting.json kind o.payload) _ _ h1 in
      let same : kind ≡ wipe = cc (e, k) in
      admit-Confirmed payload now id o db after c
        (subst (λ w. admit setting w payload now id o false db ≡ done (some (c, after))) same h2)
