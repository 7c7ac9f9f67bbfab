-- ===== src/Rollout/Db/Returns.antt =====
-- What an action's result satisfies, whatever the database.
use retune.Base.{Bool, false, if◌then◌else◌, true}
use retune.Rollout.Rows.{Db}
use retune.Rollout.Db.{Error, M, Res, continue, err, fail, ok, pure, ◌>>=◌}

abbrev pub OnOk {ℓ} : {A : Type ℓ} → (A → Type 0) → Res A → Type 0
OnOk R (ok a) = R a
OnOk R (err e) = Unit

pub record Returns {ℓ} {A : Type ℓ} (R : A → Type 0) (m : M A) : Type ℓ where
  pub at : (db : Db) → OnOk R (m db).0

module _ {ℓ κ} {A : Type ℓ} {B : Type κ} (R : B → Type 0) where
  continue-Returns :
      (r : Res A) (f : A → M B) (db : Db) → ((a : A) → Returns R (f a)) → OnOk R (continue r f db).0
  continue-Returns (ok a) f db k = (k a).at db
  continue-Returns (err e) f db k = tt

  pub Returns-bind : (m : M A) (f : A → M B) → ((a : A) → Returns R (f a)) → Returns R (m >>= f)
  unfolding ◌>>=◌
  Returns-bind m f k = record { at = λ db. continue-Returns (m db).0 f (m db).1 k }

  continue_through-OnOk :
      (S : A → Type 0) (r : Res A) (f : A → M B) (db : Db)
      → OnOk S r
      → ((a : A) → S a → Returns R (f a))
      → OnOk R (continue r f db).0
  continue_through-OnOk S (ok a) f db h k = (k a h).at db
  continue_through-OnOk S (err e) f db h k = tt

  -- The same, with what is known of the first result.
  pub Returns-through :
      (S : A → Type 0) (m : M A) (f : A → M B)
      → Returns S m
      → ((a : A) → S a → Returns R (f a))
      → Returns R (m >>= f)
  unfolding ◌>>=◌
  Returns-through S m f h k = record {
    at = λ db. continue_through-OnOk S (m db).0 f (m db).1 (h.at db) k;
  }

module _ {ℓ} {A : Type ℓ} (R : A → Type 0) where
  pub Returns-pure : (a : A) → R a → Returns R (pure a)
  Returns-pure a h = record { at = λ db. h }

  pub Returns-fail : (e : Error) → Returns R (fail e)
  Returns-fail e = record { at = λ db. tt }

  pub Returns-if :
      (b : Bool) (m n : M A) → Returns R m → Returns R n → Returns R (if b then m else n)
  Returns-if true m n h k = h
  Returns-if false m n h k = k
