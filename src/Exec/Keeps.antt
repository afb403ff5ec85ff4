-- ===== src/Exec/Keeps.antt =====
-- Invariants of actions: one rule for each way to build an action.
use rust_mqtt_sn.Prelude.{◌≡◌, refl, Bool, true, false, if◌then◌else◌}
use rust_mqtt_sn.Outcome.{Outcome, Error, ok, err, panic}
use rust_mqtt_sn.Exec.{Exec, pure, raise, lift, gets, continue, attempt, ◌>>=◌, ◌>>◌}

-- The action keeps `P`, whether it returns `Ok` or `Err` or panics.
pub record Keeps {ℓ} {S A : Type ℓ} (P : S → Type ℓ) (m : Exec S A) : Type ℓ where
  pub at : (s : S) → P s → P ((m s).1)

module _ {ℓ} {S A : Type ℓ} {P : S → Type ℓ} where
  pub Keeps-lift : (r : Outcome A) → Keeps P (lift r)
  Keeps-lift r = record { at = λ s p. p }

  pub Keeps-raise : (why : Error) → Keeps P (raise {A = A} why)
  Keeps-raise why = Keeps-lift (err why)

  pub Keeps-pure : (a : A) → Keeps P (pure a)
  Keeps-pure a = Keeps-lift (ok a)

  pub Keeps-gets : (read : S → A) → Keeps P (gets read)
  Keeps-gets read = record { at = λ s p. p }

  pub Keeps-if :
      (test : Bool) (then_ else_ : Exec S A)
      → Keeps P then_
      → Keeps P else_
      → Keeps P (if test then then_ else else_)
  Keeps-if true then_ else_ y n = y
  Keeps-if false then_ else_ y n = n

module _ {ℓ} {S A B : Type ℓ} {P : S → Type ℓ} where
  Keeps-continue :
      (r : Outcome A) (rest : A → Exec S B)
      → ((a : A) → Keeps P (rest a))
      → Keeps P (continue r rest)
  Keeps-continue (ok a) rest k = k a
  Keeps-continue (err why) rest k = Keeps-lift (err why)
  Keeps-continue panic rest k = Keeps-lift panic

  pub Keeps-bind :
      (m : Exec S A) (rest : A → Exec S B)
      → Keeps P m
      → ((a : A) → Keeps P (rest a))
      → Keeps P (m >>= rest)
  Keeps-bind m rest km k = record {
    at = λ s p. (Keeps-continue ((m s).0) rest k).at ((m s).1) (km.at s p);
  }

  -- What follows a computed outcome may use that it was `Ok`.
  pub Keeps-bind-lift :
      (r : Outcome A) (rest : A → Exec S B)
      → ((a : A) → r ≡ ok a → Keeps P (rest a))
      → Keeps P (lift r >>= rest)
  Keeps-bind-lift (ok a) rest k = k a refl
  Keeps-bind-lift (err why) rest k = Keeps-lift (err why)
  Keeps-bind-lift panic rest k = Keeps-lift panic

  pub Keeps-then : (m : Exec S A) (rest : Exec S B) → Keeps P m → Keeps P rest → Keeps P (m >> rest)
  Keeps-then m rest km k = Keeps-bind m (λ _. rest) km (λ _. k)

module _ {S : Type 0} {P : S → Type 0} where
  pub Keeps-attempt : (m : Exec S (Unit {0})) → Keeps P m → Keeps P (attempt m)
  Keeps-attempt m km = record { at = km.at }

pub ruleset keeps_rules = (
  Keeps-pure, Keeps-raise, Keeps-lift, Keeps-gets, Keeps-if, Keeps-bind, Keeps-then, Keeps-attempt,
)
