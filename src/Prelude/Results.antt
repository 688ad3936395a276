-- ===== src/Prelude/Results.antt =====
-- What a call of a C function comes to.
use Prim.Native.Nat.{ℕ}
use mathlib.Core.Path.{◌≡◌, refl, subst}
use mumble_web_demo.Prelude.Tests.{if◌then◌else◌}
use mathlib.Core.Bool.{Bool, true, false}
use mathlib.Core.Option.{Option, none, some}
use mathlib.Core.List.{List}
use mumble_web_demo.Prelude.Lists.{get_elem?}

-- `abort` is a failed `assert` or a call of `abort`; `fault` is an access outside an object, which C
-- leaves undefined; `no_fuel` says only that the call has not returned within the fuel given.
pub data Outcome {ℓ} (A : Type ℓ) : Type ℓ where
  done : A → Outcome A
  abort fault no_fuel : Outcome A

infixl 5 ◌>>=◌ ◌>>◌
abbrev pub ◌>>=◌ {ℓ κ} : {A : Type ℓ} {B : Type κ} → Outcome A → (A → Outcome B) → Outcome B
done a >>= f = f a
abort >>= f = abort
fault >>= f = fault
no_fuel >>= f = no_fuel

abbrev pub ◌>>◌ {ℓ} : {B : Type ℓ} → Outcome (Unit {0}) → Outcome B → Outcome B
m >> k = m >>= λ _. k

-- `assert(b)`
abbrev pub check : Bool → Outcome (Unit {0})
check true = done tt
check false = abort

-- an access that is in range if `b`
abbrev pub in_range : Bool → Outcome (Unit {0})
in_range true = done tt
in_range false = fault

abbrev pub or_fault {ℓ} : {A : Type ℓ} → Option A → Outcome A
or_fault none = fault
or_fault (some a) = done a

-- the read `xs[i]`
abbrev pub read {ℓ} : {A : Type ℓ} → List A → ℕ → Outcome A
read xs i = or_fault (get_elem? xs i)

-- Inversion of a bind that returns.
pub >>=-eq-done {ℓ κ} :
    {A : Type ℓ} {B : Type κ} (m : Outcome A) (f : A → Outcome B) {b : B}
    → (m >>= f) ≡ done b
    → (a : A) × (m ≡ done a) × (f a ≡ done b)
>>=-eq-done (done a) f h = (a, refl, h)
>>=-eq-done abort f h = cc
>>=-eq-done fault f h = cc
>>=-eq-done no_fuel f h = cc

-- What holds of the result, if the call returns.
abbrev pub Ensures {ℓ κ} : {A : Type ℓ} → (A → Type κ) → Outcome A → Type κ
Ensures Q (done a) = Q a
Ensures Q abort = Unit
Ensures Q fault = Unit
Ensures Q no_fuel = Unit

module _ {ℓ κ} {A : Type ℓ} (Q : A → Type κ) where
  pub bind-Ensures {μ} :
      {B : Type μ} (m : Outcome B) (f : B → Outcome A)
      → ((b : B) → m ≡ done b → Ensures Q (f b))
      → Ensures Q (m >>= f)
  bind-Ensures (done b) f h = h b refl
  bind-Ensures abort f h = tt
  bind-Ensures fault f h = tt
  bind-Ensures no_fuel f h = tt

  -- The same from what holds of the first result.
  pub bind_known {μ ν} :
      {B : Type μ} (P : B → Type ν) (m : Outcome B) (f : B → Outcome A)
      → Ensures P m
      → ((b : B) → P b → Ensures Q (f b))
      → Ensures Q (m >>= f)
  bind_known P (done b) f p h = h b p
  bind_known P abort f p h = tt
  bind_known P fault f p h = tt
  bind_known P no_fuel f p h = tt

  pub if-Ensures :
      (b : Bool) (x y : Outcome A)
      → (b ≡ true → Ensures Q x)
      → (b ≡ false → Ensures Q y)
      → Ensures Q (if b then x else y)
  if-Ensures true x y h k = h refl
  if-Ensures false x y h k = k refl

  -- A weaker postcondition.
  pub Ensures-map {ν} :
      {P : A → Type ν} (m : Outcome A) → Ensures P m → ((a : A) → P a → Q a) → Ensures Q m
  Ensures-map (done a) h f = f a h
  Ensures-map abort h f = tt
  Ensures-map fault h f = tt
  Ensures-map no_fuel h f = tt

  pub Ensures-done : {a : A} (m : Outcome A) → m ≡ done a → Ensures Q m → Q a
  Ensures-done m e h = subst (Ensures Q) e h

-- A bind taken into the continuation of another.
pub bind_through {ℓ κ μ} :
    {A : Type ℓ} {B : Type κ} {C : Type μ} (m : Outcome A) (f : A → Outcome C) (g : A → Outcome B)
    (k : B → Outcome C)
    → ((a : A) → f a ≡ (g a >>= k))
    → (m >>= f) ≡ ((m >>= g) >>= k)
bind_through (done a) f g k h = h a
bind_through abort f g k h = refl
bind_through fault f g k h = refl
bind_through no_fuel f g k h = refl

pub bind_cong {ℓ κ} :
    {A : Type ℓ} {B : Type κ} (m : Outcome A) (f g : A → Outcome B)
    → ((a : A) → f a ≡ g a)
    → (m >>= f) ≡ (m >>= g)
bind_cong (done a) f g h = h a
bind_cong abort f g h = refl
bind_cong fault f g h = refl
bind_cong no_fuel f g h = refl

pub bind_assoc {ℓ κ μ} :
    {A : Type ℓ} {B : Type κ} {C : Type μ} (m : Outcome A) (f : A → Outcome B) (g : B → Outcome C)
    → ((m >>= f) >>= g) ≡ (m >>= λ a. f a >>= g)
bind_assoc (done a) f g = refl
bind_assoc abort f g = refl
bind_assoc fault f g = refl
bind_assoc no_fuel f g = refl
