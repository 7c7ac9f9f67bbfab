-- ===== src/SelfUpdate/Device/Ensures.antt =====
-- What an action leaves behind, however the script ends its calls: a rule for each way to build one.
use retune.Base.{List, String, [], false, none, some, true, ◌∷◌}
use retune.SelfUpdate.Device.{
  Act, Device, Err, Outcome, World, answer, atomic, branch, call, done, failed, ignore, pure, try,
  bind,
}

-- From a device with `P`, the action ends in a result and a device with `Q`.
pub record Ensures {ℓ} {A : Type ℓ} (P : Device → Type 0) (m : Act A) (Q : A → Device → Type 0)
    : Type ℓ where
  pub at : (w : World) → P w.device → Q (m w).0 (m w).1.device

branch-at {ℓ} :
    {A : Type ℓ} {Q : A → Device → Type 0} (R : Err → Device → Type 0) (e : Err)
    (on_error : String → Act A) (next : Act A) (w : World)
    → R e w.device
    → ((x : String) → Ensures (R (some x)) (on_error x) Q)
    → Ensures (R none) next Q
    → Q (branch e on_error next w).0 (branch e on_error next w).1.device
branch-at R none on_error next w r h k = k.at w r
branch-at R (some x) on_error next w r h k = (h x).at w r

module _ {ℓ} {A : Type ℓ} {P : Device → Type 0} {Q : A → Device → Type 0} where
  pub Ensures-pure : (a : A) → ((d : Device) → P d → Q a d) → Ensures P (pure a) Q
  Ensures-pure a h = record { at = λ w p. h w.device p }

  -- A middle condition between a call and what follows its failure and its success.
  pub Ensures-try :
      (m : Act Err) (on_error : String → Act A) (next : Act A) (R : Err → Device → Type 0)
      → Ensures P m R
      → ((x : String) → Ensures (R (some x)) (on_error x) Q)
      → Ensures (R none) next Q
      → Ensures P (try m on_error next) Q
  unfolding try
  Ensures-try m on_error next R hm h k = record {
    at = λ w p. branch-at R (m w).0 on_error next (m w).1 (hm.at w p) h k;
  }

  pub Ensures-ignore :
      {m : Act Err} {next : Act A} (R : Device → Type 0)
      → Ensures P m (λ _. R)
      → Ensures R next Q
      → Ensures P (ignore m next) Q
  unfolding ignore
  Ensures-ignore {m} R hm k = record { at = λ w p. k.at (m w).1 (hm.at w p) }

-- A call that ends as the script says: it succeeds with its effect, or fails with or without it.
module _ (effect : Device → Device) (Q : Err → Device → Type 0) where
  answer-at :
      (partial : Device → Device) (script : List Outcome) (d : Device)
      → Q none (effect d)
      → ((e : String) → Q (some e) d)
      → ((e : String) → Q (some e) (partial d))
      → Q (answer script effect partial d).0 (answer script effect partial d).1.device
  unfolding answer
  answer-at partial [] d ok untouched touched = ok
  answer-at partial (done ∷ rest) d ok untouched touched = ok
  answer-at partial (failed true e ∷ rest) d ok untouched touched = touched e
  answer-at partial (failed false e ∷ rest) d ok untouched touched = untouched e

  pub Ensures-call :
      {P : Device → Type 0}
      → ((d : Device) → P d → Q none (effect d))
      → ((d : Device) (e : String) → P d → Q (some e) d)
      → ((d : Device) (e : String) → P d → Q (some e) (effect d))
      → Ensures P (call effect) Q
  unfolding call
  Ensures-call ok untouched touched = record {
    at = λ w p.
        answer-at effect w.script w.device (ok w.device p) (λ e. untouched w.device e p)
          (λ e. touched w.device e p);
  }

  pub Ensures-atomic :
      {P : Device → Type 0}
      → ((d : Device) → P d → Q none (effect d))
      → ((d : Device) (e : String) → P d → Q (some e) d)
      → Ensures P (atomic effect) Q
  unfolding atomic
  Ensures-atomic ok untouched = record {
    at = λ w p.
        answer-at (λ d. d) w.script w.device (ok w.device p) (λ e. untouched w.device e p)
          (λ e. untouched w.device e p);
  }

pub Ensures-weaken {ℓ} :
    {A : Type ℓ} {P P' : Device → Type 0} {Q Q' : A → Device → Type 0} {m : Act A}
    → Ensures P m Q
    → ((d : Device) → P' d → P d)
    → ((a : A) (d : Device) → Q a d → Q' a d)
    → Ensures P' m Q'
Ensures-weaken {m} h before after = record {
  at = λ w p. after (m w).0 (m w).1.device (h.at w (before w.device p));
}

pub Ensures-bind {ℓ κ} :
    {A : Type ℓ} {B : Type κ} {P : Device → Type 0} {Q : B → Device → Type 0} (m : Act A)
    (f : A → Act B) (R : A → Device → Type 0)
    → Ensures P m R
    → ((a : A) → Ensures (R a) (f a) Q)
    → Ensures P (bind m f) Q
unfolding bind
Ensures-bind m f R hm hf = record { at = λ w p. (hf (m w).0).at (m w).1 (hm.at w p) }
