-- ===== src/Bisetmap/Pairs.antt =====
-- A `BisetMap` as the list of its pairs.
use rust_mqtt_sn.Prelude.{
  Bool, true, false, ◌&&◌, List, [], ◌∷◌, ◌≡◌, refl, Eq, ◌==◌, elem, arith, ◌∙◌, if◌then◌else◌,
}
use rust_mqtt_sn.Bisetmap.{BisetMaps, holds}

module _ {K V : Type 0} ⦃k : Eq K⦄ ⦃v : Eq V⦄ where
  abbrev pub contains : List (K × V) → K → V → Bool
  contains [] a x = false
  contains ((b, y) ∷ m) a x = if (b == a) && (y == x) then true else contains m a x

  -- The pairs that a test lets through.
  abbrev pub keep : (K → V → Bool) → List (K × V) → List (K × V)
  keep p [] = []
  keep p ((b, y) ∷ m) = let rest = keep p m in if p b y then (b, y) ∷ rest else rest

  abbrev pub insert : List (K × V) → K → V → List (K × V)
  insert m a x = if contains m a x then m else (a, x) ∷ m

  abbrev pub get : List (K × V) → K → List V
  get [] a = []
  get ((b, y) ∷ m) a = let rest = get m a in if b == a then y ∷ rest else rest

  abbrev pub rev_get : List (K × V) → V → List K
  rev_get [] x = []
  rev_get ((b, y) ∷ m) x = let rest = rev_get m x in if y == x then b ∷ rest else rest

  abbrev pub remove : List (K × V) → K → V → List (K × V)
  remove m a x = keep (λ b y. if (a == b) && (x == y) then false else true) m

  abbrev pub delete : List (K × V) → K → List (K × V)
  delete m a = keep (λ b y. if a == b then false else true) m

  abbrev pub rev_delete : List (K × V) → V → List (K × V)
  rev_delete m x = keep (λ b y. if x == y then false else true) m

  -- A value of a key goes to the other values of that key.
  abbrev pub group : K → V → List (K × List V) → List (K × List V)
  group a x [] = (a, x ∷ []) ∷ []
  group a x ((b, ys) ∷ groups) =
      let rest = group a x groups in if b == a then (b, x ∷ ys) ∷ groups else (b, ys) ∷ rest

  abbrev pub collect : List (K × V) → List (K × List V)
  collect [] = []
  collect ((b, y) ∷ m) = group b y (collect m)

  holds-group :
      (a : K) (x : V) (b : K) (y : V) (groups : List (K × List V))
      → holds b y (group a x groups) ≡ (if (a == b) && (x == y) then true else holds b y groups)
  holds-group a x b y [] = ground (arith, v.test_iff x y, v.test_iff y x)
  holds-group a x b y ((c, ys) ∷ groups) = ground (
    arith,
    holds-group a x b y groups,
    v.test_iff x y,
    v.test_iff y x,
    k.test_iff a b,
    k.test_iff c a,
    k.test_iff c b,
  )

  pub holds-collect : (m : List (K × V)) (a : K) (x : V) → holds a x (collect m) ≡ contains m a x
  holds-collect [] a x = refl
  holds-collect ((b, y) ∷ m) a x =
      holds-group b y a x (collect m) ∙ ground (arith, holds-collect m a x)

  pub contains-keep :
      (p : K → V → Bool) (m : List (K × V)) (a : K) (x : V)
      → contains (keep p m) a x ≡ (if p a x then contains m a x else false)
  contains-keep p [] a x = ground arith
  contains-keep p ((b, y) ∷ m) a x =
      ground (arith, contains-keep p m a x, k.test_iff b a, v.test_iff y x)

  pub contains-insert :
      (m : List (K × V)) (a : K) (x : V) (b : K) (y : V)
      → contains (insert m a x) b y ≡ (if (a == b) && (x == y) then true else contains m b y)
  contains-insert m a x b y = ground (arith, k.test_iff a b, v.test_iff x y)

  pub contains-remove :
      (m : List (K × V)) (a : K) (x : V) (b : K) (y : V)
      → contains (remove m a x) b y ≡ (if (a == b) && (x == y) then false else contains m b y)
  contains-remove m a x b y =
      ground (arith, contains-keep (λ b y. if (a == b) && (x == y) then false else true) m b y)

  pub contains-delete :
      (m : List (K × V)) (a b : K) (y : V)
      → contains (delete m a) b y ≡ (if a == b then false else contains m b y)
  contains-delete m a b y =
      ground (arith, contains-keep (λ b y. if a == b then false else true) m b y)

  pub contains-rev_delete :
      (m : List (K × V)) (x : V) (b : K) (y : V)
      → contains (rev_delete m x) b y ≡ (if x == y then false else contains m b y)
  contains-rev_delete m x b y =
      ground (arith, contains-keep (λ b y. if x == y then false else true) m b y)

  pub elem-get : (m : List (K × V)) (a : K) (x : V) → elem x (get m a) ≡ contains m a x
  elem-get [] a x = refl
  elem-get ((b, y) ∷ m) a x =
      ground (arith, elem-get m a x, k.test_iff b a, v.test_iff y x, v.test_iff x y)

  pub elem-rev_get : (m : List (K × V)) (a : K) (x : V) → elem a (rev_get m x) ≡ contains m a x
  elem-rev_get [] a x = refl
  elem-rev_get ((b, y) ∷ m) a x =
      ground (arith, elem-rev_get m a x, k.test_iff b a, k.test_iff a b, v.test_iff y x)

instance abbrev pub pairs : BisetMaps
pairs = record {
  Map = λ K V. List (K × V);
  new = [];
  insert = insert;
  contains = contains;
  get = get;
  rev_get = rev_get;
  remove = remove;
  delete = delete;
  rev_delete = rev_delete;
  collect = collect;
  contains-new = λ a x. refl;
  contains-insert = contains-insert;
  contains-remove = contains-remove;
  contains-delete = contains-delete;
  contains-rev_delete = contains-rev_delete;
  elem-get = elem-get;
  elem-rev_get = elem-rev_get;
  holds-collect = holds-collect;
}
