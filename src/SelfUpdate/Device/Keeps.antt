-- ===== src/SelfUpdate/Device/Keeps.antt =====
-- Properties of the device that an action keeps, however the script ends its calls.
use retune.Base.{Bool, String, false, if◌then◌else◌, none, some, true}
use retune.SelfUpdate.Device.{
  Act, Ctx, Device, Err, World, atomic, bind, branch, call, cancelled, ignore, live, look, pure,
  stop, stopped, try,
}
use retune.SelfUpdate.Device.Ensures.{Ensures-atomic, Ensures-call}

pub record Keeps {ℓ} {A : Type ℓ} (P : Device → Type 0) (m : Act A) : Type ℓ where
  pub at : (w : World) → P w.device → P (m w).1.device

module _ {ℓ} {A : Type ℓ} {P : Device → Type 0} where
  pub Keeps-pure : (a : A) → Keeps P (pure a)
  Keeps-pure a = record { at = λ w p. p }

  pub Keeps-try :
      (m : Act Err) (on_error : String → Act A) (next : Act A)
      → Keeps P m
      → ((e : String) → Keeps P (on_error e))
      → Keeps P next
      → Keeps P (try m on_error next)
  unfolding try
  Keeps-try m on_error next km kh kn = record { at = λ w p. go (m w).0 (m w).1 (km.at w p) }
    where
      go : (e : Err) (w : World) → P w.device → P (branch e on_error next w).1.device
      go none w p = kn.at w p
      go (some e) w p = (kh e).at w p

  pub Keeps-ignore :
      (m : Act Err) (next : Act A) → Keeps P m → Keeps P next → Keeps P (ignore m next)
  unfolding ignore
  Keeps-ignore m next km kn = record { at = λ w p. kn.at (m w).1 (km.at w p) }

  pub Keeps-look : (f : Device → Act A) → ((d : Device) → Keeps P (f d)) → Keeps P (look f)
  unfolding look
  Keeps-look f k = record { at = λ w p. (k w.device).at w p }

  pub Keeps-if : (b : Bool) (m n : Act A) → Keeps P m → Keeps P n → Keeps P (if b then m else n)
  Keeps-if true m n km kn = km
  Keeps-if false m n km kn = kn

pub Keeps-bind {ℓ κ} :
    {A : Type ℓ} {B : Type κ} {P : Device → Type 0} (m : Act A) (f : A → Act B)
    → Keeps P m
    → ((a : A) → Keeps P (f a))
    → Keeps P (bind m f)
unfolding bind
Keeps-bind m f km kf = record { at = λ w p. (kf (m w).0).at (m w).1 (km.at w p) }

module _ {P : Device → Type 0} (effect : Device → Device)
    (kept : (d : Device) → P d → P (effect d)) where
  pub Keeps-call : Keeps P (call effect)
  Keeps-call =
      let called = Ensures-call effect (λ _. P) kept (λ d e p. p) (λ d e p. kept d p) in
      record { at = called.at }

  pub Keeps-atomic : Keeps P (atomic effect)
  Keeps-atomic =
      let called = Ensures-atomic effect (λ _. P) kept (λ d e p. p) in record { at = called.at }

pub Keeps-stop :
    {P : Device → Type 0} → ((d : Device) → P d → P (stopped d)) → (ctx : Ctx) → Keeps P (stop ctx)
unfolding stop
Keeps-stop kept live = Keeps-call stopped kept
Keeps-stop kept cancelled = Keeps-look _ λ d.
    Keeps-if _ _ _ (Keeps-try _ _ _ (Keeps-call stopped kept) (λ e. Keeps-pure _) (Keeps-pure _))
      (Keeps-call stopped kept)

pub ruleset keeps_rules = (Keeps-pure, Keeps-try, Keeps-ignore, Keeps-look, Keeps-if, Keeps-bind)
