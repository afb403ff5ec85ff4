-- ===== src/Prelude/Keys.antt =====
-- Equality tests as an interface, and the maps that the program keeps in a `HashMap`: a map is the
-- function that its `get` is.
use mathlib.Core.Path.{◌≡◌, refl}
use mathlib.Core.Logic.{◌↔◌, ◌≢◌}
use mathlib.Core.Bool.{Bool, true, false, ◌&&◌}
use mathlib.Core.Option.{Option, none, some}
use mathlib.Core.List.{List, [], ◌∷◌}
use Prim.Native.Nat.{ℕ}
use native.Mathlib.Omega.{arith}
use rust_mqtt_sn.Prelude.Tests.{nat_beq, nat_beq_iff, if◌then◌else◌}

pub record Eq {ℓ} (A : Type ℓ) : Type ℓ where
  pub test : A → A → Bool
  pub test_iff : (a b : A) → (test a b ≡ true) ↔ (a ≡ b)

abbrev pub list_beq : List ℕ → List ℕ → Bool
list_beq [] [] = true
list_beq (x ∷ xs) (y ∷ ys) = nat_beq x y && list_beq xs ys
list_beq _ _ = false

pub list_beq_iff : (a b : List ℕ) → (list_beq a b ≡ true) ↔ (a ≡ b)
list_beq_iff [] [] = (λ h. refl, λ h. refl)
list_beq_iff [] (y ∷ ys) = (λ h. cc, λ h. cc)
list_beq_iff (x ∷ xs) [] = (λ h. cc, λ h. cc)
list_beq_iff (x ∷ xs) (y ∷ ys) = ground (arith, list_beq_iff xs ys)

instance abbrev pub nat_eq : Eq ℕ
nat_eq = record { test = nat_beq; test_iff = nat_beq_iff }

-- Text and byte strings.
instance abbrev pub list_eq : Eq (List ℕ)
list_eq = record { test = list_beq; test_iff = list_beq_iff }

abbrev pub pair_beq {ℓ κ} : {A : Type ℓ} {B : Type κ} ⦃a : Eq A⦄ ⦃b : Eq B⦄ → A × B → A × B → Bool
pair_beq ⦃a⦄ ⦃b⦄ p q = a.test p.0 q.0 && b.test p.1 q.1

pub pair_beq_iff {ℓ κ} :
    {A : Type ℓ} {B : Type κ} ⦃a : Eq A⦄ ⦃b : Eq B⦄ (p q : A × B) → (pair_beq p q ≡ true) ↔ (p ≡ q)
pair_beq_iff ⦃a⦄ ⦃b⦄ (x, y) (x', y') = ground (arith, a.test_iff x x', b.test_iff y y')

instance abbrev pub pair_eq {ℓ κ} : {A : Type ℓ} {B : Type κ} ⦃a : Eq A⦄ ⦃b : Eq B⦄ → Eq (A × B)
pair_eq = record { test = pair_beq; test_iff = pair_beq_iff }

-- The test of whichever instance the type has.
infix 50 ◌==◌
abbrev pub ◌==◌ {ℓ} : {A : Type ℓ} ⦃k : Eq A⦄ (a b : A) → Bool
◌==◌ ⦃k⦄ a b = k.test a b

module _ {ℓ} {A : Type ℓ} ⦃e : Eq A⦄ where
  pub eq_refl : (a : A) → (a == a) ≡ true
  eq_refl a = (e.test_iff a a).1 refl

  pub eq_of_true : (a b : A) → (a == b) ≡ true → a ≡ b
  eq_of_true a b = (e.test_iff a b).0

  pub ne_of_false : (a b : A) → (a == b) ≡ false → a ≢ b
  ne_of_false a b h p = cc ((e.test_iff a b).1 p)

  abbrev pub elem : A → List A → Bool
  elem a [] = false
  elem a (x ∷ xs) = if a == x then true else elem a xs

module _ {ℓ κ} {K : Type ℓ} {V : Type κ} where
  abbrev pub empty_map : K → Option V
  empty_map k = none

-- `HashMap::insert`, which replaces, and `HashMap::remove`.
module _ {ℓ κ} {K : Type ℓ} {V : Type κ} ⦃e : Eq K⦄ where
  abbrev pub put : (K → Option V) → K → V → K → Option V
  put m k v j = if k == j then some v else m j

  abbrev pub erase : (K → Option V) → K → K → Option V
  erase m k j = if k == j then none else m j
