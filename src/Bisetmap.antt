-- ===== src/Bisetmap.antt =====
-- The `BisetMap` of the crate `bisetmap`, which the repository does not hold: a set of pairs of a
-- key and a value that is read from both sides. The model takes it as a parameter, with what its
-- documentation says; `Bisetmap.Pairs` is one that meets it.
pub mod Pairs
use rust_mqtt_sn.Prelude.{
  Bool, true, false, ◌&&◌, List, [], ◌∷◌, ◌≡◌, Eq, ◌==◌, elem, if◌then◌else◌,
}

-- Whether a list of keys, each with values, has a pair.
abbrev pub holds : {K V : Type 0} ⦃k : Eq K⦄ ⦃v : Eq V⦄ → K → V → List (K × List V) → Bool
holds a x [] = false
holds a x ((b, ys) ∷ groups) = if (b == a) && elem x ys then true else holds a x groups

pub record BisetMaps : Type 1 where
  pub Map : Type 0 → Type 0 → Type 0
  pub new : {K V : Type 0} → Map K V
  pub insert : {K V : Type 0} ⦃k : Eq K⦄ ⦃v : Eq V⦄ → Map K V → K → V → Map K V
  pub contains : {K V : Type 0} ⦃k : Eq K⦄ ⦃v : Eq V⦄ → Map K V → K → V → Bool
  pub get : {K V : Type 0} ⦃k : Eq K⦄ ⦃v : Eq V⦄ → Map K V → K → List V
  pub rev_get : {K V : Type 0} ⦃k : Eq K⦄ ⦃v : Eq V⦄ → Map K V → V → List K
  pub remove : {K V : Type 0} ⦃k : Eq K⦄ ⦃v : Eq V⦄ → Map K V → K → V → Map K V
  -- The pairs of a key, or of a value, go out of the map; `get` and `rev_get` say which went.
  pub delete : {K V : Type 0} ⦃k : Eq K⦄ ⦃v : Eq V⦄ → Map K V → K → Map K V
  pub rev_delete : {K V : Type 0} ⦃k : Eq K⦄ ⦃v : Eq V⦄ → Map K V → V → Map K V
  -- The keys, each with its values.
  pub collect : {K V : Type 0} ⦃k : Eq K⦄ ⦃v : Eq V⦄ → Map K V → List (K × List V)
  pub contains-new : {K V : Type 0} ⦃k : Eq K⦄ ⦃v : Eq V⦄ (a : K) (x : V) → contains new a x ≡ false
  pub contains-insert :
      {K V : Type 0} ⦃k : Eq K⦄ ⦃v : Eq V⦄ (m : Map K V) (a : K) (x : V) (b : K) (y : V)
      → contains (insert m a x) b y ≡ (if (a == b) && (x == y) then true else contains m b y)
  pub contains-remove :
      {K V : Type 0} ⦃k : Eq K⦄ ⦃v : Eq V⦄ (m : Map K V) (a : K) (x : V) (b : K) (y : V)
      → contains (remove m a x) b y ≡ (if (a == b) && (x == y) then false else contains m b y)
  pub contains-delete :
      {K V : Type 0} ⦃k : Eq K⦄ ⦃v : Eq V⦄ (m : Map K V) (a b : K) (y : V)
      → contains (delete m a) b y ≡ (if a == b then false else contains m b y)
  pub contains-rev_delete :
      {K V : Type 0} ⦃k : Eq K⦄ ⦃v : Eq V⦄ (m : Map K V) (x : V) (b : K) (y : V)
      → contains (rev_delete m x) b y ≡ (if x == y then false else contains m b y)
  pub elem-get :
      {K V : Type 0} ⦃k : Eq K⦄ ⦃v : Eq V⦄ (m : Map K V) (a : K) (x : V)
      → elem x (get m a) ≡ contains m a x
  pub elem-rev_get :
      {K V : Type 0} ⦃k : Eq K⦄ ⦃v : Eq V⦄ (m : Map K V) (a : K) (x : V)
      → elem a (rev_get m x) ≡ contains m a x
  pub holds-collect :
      {K V : Type 0} ⦃k : Eq K⦄ ⦃v : Eq V⦄ (m : Map K V) (a : K) (x : V)
      → holds a x (collect m) ≡ contains m a x
