-- ===== src/Client/TimingWheel/Times.antt =====
-- The ticks that a timer of lib/client-lib/src/TimingWheel2.rs sends in, on a wheel of 1280 slots.
use rust_mqtt_sn.Prelude.{
  ℕ, zero, suc, ◌+◌, ◌-◌, ◌≤◌, ◌≡◌, refl, none, some, List, [], ◌∷◌, ◌++◌, arith, nat_eq,
  if◌then◌else◌, ap, ◌∙◌, sym, ◌<◌, inl, inr, Option-cases,
}
use rust_mqtt_sn.Client.TimingWheel.Kept.{kept}
use rust_mqtt_sn.Client.TimingWheel.Backoff.{Countdown, count, fires, plan, left}

-- The ticks that send something, counted from a tick.
unfoldable pub positions : {V : Type 0} → ℕ → List (List V) → List ℕ
positions n [] = []
positions n ([] ∷ ls) = positions (n + 1) ls
positions n ((v ∷ vs) ∷ ls) = n ∷ positions (n + 1) ls

plan_add :
    {V : Type 0} (max a b : ℕ) (v : V) (c : Countdown)
    → plan max (a + b) v c ≡ plan max a v c ++ plan max b v (left max a c)
unfolding plan left
plan_add max zero b v c = let z : zero + b ≡ b = omega arith in ap (λ n. plan max n v c) z
plan_add max (suc a) b v c =
    let s : suc a + b ≡ suc (a + b) = omega arith in
    ap (λ n. plan max n v c) s
    ∙ ap (λ l. (if fires max c then v ∷ [] else []) ∷ l) (plan_add max a b v (count max c))

positions-append :
    {V : Type 0} (n : ℕ) (xs ys : List (List V))
    → positions n ys ≡ []
    → ((m : ℕ) → positions m ys ≡ [])
    → positions n (xs ++ ys) ≡ positions n xs
unfolding positions
positions-append n [] ys e h = e
positions-append n ([] ∷ xs) ys e h = positions-append (n + 1) xs ys (h (n + 1)) h
positions-append n ((v ∷ vs) ∷ xs) ys e h =
    ap (λ l. n ∷ l) (positions-append (n + 1) xs ys (h (n + 1)) h)

positions-none : {V : Type 0} (max n m : ℕ) (v : V) → positions m (plan max n v none) ≡ []
unfolding positions plan
positions-none max zero m v = refl
positions-none max (suc n) m v = positions-none max n (m + 1) v

left-none : (max n : ℕ) → left max n none ≡ none
unfolding left
left-none max zero = refl
left-none max (suc n) = left-none max n

left_add : (max a b : ℕ) (c : Countdown) → left max (a + b) c ≡ left max b (left max a c)
unfolding left
left_add max zero b c = let z : zero + b ≡ b = omega arith in ap (λ n. left max n c) z
left_add max (suc a) b c =
    let s : suc a + b ≡ suc (a + b) = omega arith in
    ap (λ n. left max n c) s ∙ left_add max a b (count max c)

-- The ticks that a timer of duration 3 sends in, on a wheel of 1280 slots.
abbrev pub resends : List ℕ
resends = 3 ∷ 9 ∷ 21 ∷ 45 ∷ 93 ∷ 189 ∷ 381 ∷ 765 ∷ []

plan_first : {V : Type 0} (v : V) → positions 0 (plan 1280 1534 v (some (3, 3))) ≡ resends
unfolding positions plan
plan_first v = refl

left_last : left 1280 1533 (some (3, 3)) ≡ some (768, 0)
unfolding left
left_last = refl

left_first : left 1280 1534 (some (3, 3)) ≡ none
unfolding left
left_first = refl

pub plan_all :
    {V : Type 0} (v : V) (n : ℕ) → 1534 ≤ n → positions 0 (plan 1280 n v (some (3, 3))) ≡ resends
plan_all v n l =
    let split : n ≡ 1534 + (n - 1534) = omega arith in
    let quiet = λ (m : ℕ).
      ap (λ c. positions m (plan 1280 (n - 1534) v c)) left_first
      ∙ positions-none 1280 (n - 1534) m v in
    ap (λ m. positions 0 (plan 1280 m v (some (3, 3)))) split
    ∙ ap (positions 0) (plan_add 1280 1534 (n - 1534) v (some (3, 3)))
    ∙ positions-append 0 (plan 1280 1534 v (some (3, 3))) _ (quiet 0) quiet
    ∙ plan_first v

pub left_all : (n : ℕ) → 1534 ≤ n → left 1280 n (some (3, 3)) ≡ none
left_all n l =
    let split : n ≡ 1534 + (n - 1534) = omega arith in
    ap (λ m. left 1280 m (some (3, 3))) split
    ∙ left_add 1280 1534 (n - 1534) (some (3, 3))
    ∙ ap (left 1280 (n - 1534)) left_first
    ∙ left-none 1280 (n - 1534)

-- The timer of duration 3 runs for 1533 ticks.
pub kept_before :
    {V : Type 0} (v : V) (m : ℕ) → m < 1534 → kept v (left 1280 m (some (3, 3))) ≡ some v
kept_before v m l =
    let split : 1533 ≡ m + (1533 - m) = omega arith in
    let last : left 1280 (1533 - m) (left 1280 m (some (3, 3))) ≡ some (768, 0) =
      sym (left_add 1280 m (1533 - m) (some (3, 3)))
      ∙ sym (ap (λ n. left 1280 n (some (3, 3))) split)
      ∙ left_last in
    elim (Option-cases (left 1280 m (some (3, 3)))) [
      | inl over ↦ cc (last, ap (left 1280 (1533 - m)) over, left-none 1280 (1533 - m))
      | inr (c, runs) ↦ ap (kept v) runs
    ]
