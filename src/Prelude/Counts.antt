-- ===== src/Prelude/Counts.antt =====
-- How often a number stands in a list, and how a write changes that.
use Prim.Native.Nat.{ℕ, zero, suc, ◌+◌, ◌-◌, ◌≤◌, ◌<◌}
use mathlib.Core.Path.{◌≡◌, refl, ap}
use mathlib.Core.Logic.{◌≢◌}
use mathlib.Core.List.{List, [], ◌∷◌, ◌++◌}
use mathlib.Core.Option.{some}
use native.Mathlib.Omega.{arith}
use mumble_web_demo.Prelude.Tests.{◌==◌, if◌then◌else◌}
use mumble_web_demo.Prelude.Lists.{get_elem?, set, take, drop}

-- 1 if the two numbers are equal, else 0.
abbrev pub same : ℕ → ℕ → ℕ
same a b = if a == b then 1 else 0

abbrev pub count : ℕ → List ℕ → ℕ
count a [] = 0
count a (x ∷ xs) = same a x + count a xs

pub count-append : (v : ℕ) (us ws : List ℕ) → count v (us ++ ws) ≡ count v us + count v ws
count-append v [] ws = omega arith
count-append v (u ∷ us) ws = let rest = count-append v us ws in omega (arith, rest)

pub count-take-drop :
    (a n : ℕ) (xs : List ℕ) → count a (take n xs) + count a (drop n xs) ≡ count a xs
count-take-drop a zero xs = omega arith
count-take-drop a (suc n) [] = omega arith
count-take-drop a (suc n) (x ∷ xs) = omega (arith, count-take-drop a n xs)

pub count-set :
    (a : ℕ) (xs : List ℕ) (i x v : ℕ)
    → get_elem? xs i ≡ some x
    → count a (set xs i v) + same a x ≡ count a xs + same a v
count-set a [] i x v h = cc
count-set a (y ∷ xs) zero x v h = ground arith
count-set a (y ∷ xs) (suc i) x v h = omega (arith, count-set a xs i x v h)

pub count_pos_of_get_elem? :
    (a : ℕ) (xs : List ℕ) (i : ℕ) → get_elem? xs i ≡ some a → 1 ≤ count a xs
count_pos_of_get_elem? a [] i h = cc
count_pos_of_get_elem? a (x ∷ xs) zero h = ground arith
count_pos_of_get_elem? a (x ∷ xs) (suc i) h = omega (arith, count_pos_of_get_elem? a xs i h)

pub count-zero : (a : ℕ) (xs : List ℕ) → ((i : ℕ) → get_elem? xs i ≢ some a) → count a xs ≡ 0
count-zero a [] h = refl
count-zero a (x ∷ xs) h = ground (arith, h 0, count-zero a xs (λ i. h (suc i)))

module _ {ℓ} {A : Type ℓ} where
  pub take-set_lt :
      (n i : ℕ) (xs : List A) (v : A) → i < n → take n (set xs i v) ≡ set (take n xs) i v
  take-set_lt zero i xs v h = elim h [ ]
  take-set_lt (suc n) i [] v h = refl
  take-set_lt (suc n) zero (x ∷ xs) v h = refl
  take-set_lt (suc n) (suc i) (x ∷ xs) v h = ap (λ t. x ∷ t) (take-set_lt n i xs v (omega arith))

  pub take-set_le : (n i : ℕ) (xs : List A) (v : A) → n ≤ i → take n (set xs i v) ≡ take n xs
  take-set_le zero i xs v h = refl
  take-set_le (suc n) i [] v h = refl
  take-set_le (suc n) zero (x ∷ xs) v h = absurd (omega arith)
  take-set_le (suc n) (suc i) (x ∷ xs) v h = ap (λ t. x ∷ t) (take-set_le n i xs v (omega arith))

  pub get_elem?-take : (n i : ℕ) (xs : List A) → i < n → get_elem? (take n xs) i ≡ get_elem? xs i
  get_elem?-take zero i xs h = elim h [ ]
  get_elem?-take (suc n) i [] h = refl
  get_elem?-take (suc n) zero (x ∷ xs) h = refl
  get_elem?-take (suc n) (suc i) (x ∷ xs) h = get_elem?-take n i xs (omega arith)

  pub get_elem?-drop :
      (n i : ℕ) (xs : List A) → n ≤ i → get_elem? (drop n xs) (i - n) ≡ get_elem? xs i
  get_elem?-drop zero i xs h = ap (λ (t : ℕ). get_elem? xs t) (omega arith)
  get_elem?-drop (suc n) i [] h = refl
  get_elem?-drop (suc n) zero (x ∷ xs) h = absurd (omega arith)
  get_elem?-drop (suc n) (suc i) (x ∷ xs) h =
      let e : suc i - suc n ≡ i - n = omega arith in rw e (get_elem?-drop n i xs (omega arith))

  -- The element at the end of a prefix.
  pub take-suc :
      (n : ℕ) (xs : List A) (x : A)
      → get_elem? xs n ≡ some x
      → take (suc n) xs ≡ take n xs ++ (x ∷ [])
  take-suc n [] x h = cc
  take-suc zero (y ∷ xs) x h = ground arith
  take-suc (suc n) (y ∷ xs) x h = ap (λ t. y ∷ t) (take-suc n xs x h)

  pub drop-get_elem? :
      (n : ℕ) (xs : List A) (x : A) → get_elem? xs n ≡ some x → drop n xs ≡ x ∷ drop (suc n) xs
  drop-get_elem? n [] x h = cc
  drop-get_elem? zero (y ∷ xs) x h = ground arith
  drop-get_elem? (suc n) (y ∷ xs) x h = drop-get_elem? n xs x h
