-- ===== src/Exec.antt =====
-- The handlers as actions on the state of the broker. What was changed before an `Err` or a panic
-- stays changed, so the state comes back beside every outcome.
pub mod Keeps
use rust_mqtt_sn.Prelude.{Bool, Option, none, some, if◌then◌else◌}
use rust_mqtt_sn.Outcome.{Outcome, Error, ok, err, panic}

abbrev pub Exec {ℓ} : Type ℓ → Type ℓ → Type ℓ
Exec S A = S → Outcome A × S

module _ {ℓ} {S A : Type ℓ} where
  abbrev pub pure : A → Exec S A
  pure a s = (ok a, s)

  abbrev pub raise : Error → Exec S A
  raise e s = (err e, s)

  abbrev pub abort : Exec S A
  abort s = (panic, s)

  abbrev pub lift : Outcome A → Exec S A
  lift r s = (r, s)

  abbrev pub gets : (S → A) → Exec S A
  gets f s = (ok (f s), s)

module _ {ℓ} {S A B : Type ℓ} where
  abbrev pub continue : Outcome A → (A → Exec S B) → Exec S B
  continue (ok a) f s = f a s
  continue (err e) f s = (err e, s)
  continue panic f s = (panic, s)

  infixl 5 ◌>>=◌ ◌>>◌
  abbrev pub ◌>>=◌ : Exec S A → (A → Exec S B) → Exec S B
  ◌>>=◌ m f s = let (r, s') = m s in continue r f s'

  abbrev pub ◌>>◌ : Exec S A → Exec S B → Exec S B
  m >> k = m >>= λ _. k

abbrev pub forget : Outcome (Unit {0}) → Outcome (Unit {0})
forget (ok a) = ok a
forget (err e) = ok tt
forget panic = panic

module _ {S : Type 0} where
  abbrev pub modify : (S → S) → Exec S (Unit {0})
  modify f s = (ok tt, f s)

  -- `let _result = m;`: an `Err` is dropped, and a panic is not.
  abbrev pub attempt : Exec S (Unit {0}) → Exec S (Unit {0})
  attempt m s = let (r, s') = m s in (forget r, s')
