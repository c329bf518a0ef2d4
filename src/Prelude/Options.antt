-- ===== src/Prelude/Options.antt =====
-- Chains of steps that can fault: `none` is an access outside the memory that a pointer points into.
use mathlib.Core.Option.{Option, none, some, some-injective}
use mathlib.Core.Path.{◌≡◌, refl}
use mathlib.Core.Bool.{Bool, true, false}
use ditto.Prelude.Tests.{if◌then◌else◌}

infixl 5 ◌>>=◌
abbrev pub ◌>>=◌ {ℓ κ} : {A : Type ℓ} {B : Type κ} → Option A → (A → Option B) → Option B
none >>= f = none
some a >>= f = f a

-- What holds of the result of a step that returns one.
abbrev pub Returns {ℓ κ} : {A : Type ℓ} → (A → Type κ) → Option A → Type κ
Returns P none = Unit
Returns P (some a) = P a

pub >>=-Returns {ℓ κ μ ν} :
    {A : Type ℓ} {B : Type κ} (P : A → Type μ) (Q : B → Type ν) (m : Option A) (f : A → Option B)
    → Returns P m
    → ((a : A) → P a → Returns Q (f a))
    → Returns Q (m >>= f)
>>=-Returns P Q none f h g = tt
>>=-Returns P Q (some a) f h g = g a h

pub imp-Returns {ℓ κ μ} :
    {A : Type ℓ} (P : A → Type κ) (Q : A → Type μ) (m : Option A)
    → Returns P m
    → ((a : A) → P a → Q a)
    → Returns Q m
imp-Returns P Q none h g = tt
imp-Returns P Q (some a) h g = g a h

-- The step is one of two.
pub if-Returns {ℓ κ} :
    {A : Type ℓ} (P : A → Type κ) (b : Bool) (x y : Option A)
    → Returns P x
    → Returns P y
    → Returns P (if b then x else y)
if-Returns P true x y h g = h
if-Returns P false x y h g = g

pub elim-Returns {ℓ κ μ} :
    {A : Type ℓ} {B : Type κ} (P : B → Type μ) (o : Option A) (n : Option B) (f : A → Option B)
    → Returns P n
    → ((a : A) → o ≡ some a → Returns P (f a))
    → Returns P (elim o [ none ↦ n | some a ↦ f a ])
elim-Returns P none n f h g = h
elim-Returns P (some a) n f h g = g a refl

pub Returns-any {ℓ} : {A : Type ℓ} (m : Option A) → Returns (λ a. m ≡ some a) m
Returns-any none = tt
Returns-any (some a) = refl

-- The step returns.
abbrev pub Succeeds {ℓ} : {A : Type ℓ} → Option A → Type 0
Succeeds none = ⊥
Succeeds (some a) = Unit

pub >>=-Succeeds {ℓ κ} :
    {A : Type ℓ} {B : Type κ} (m : Option A) (f : A → Option B) (a : A)
    → m ≡ some a
    → Succeeds (f a)
    → Succeeds (m >>= f)
>>=-Succeeds none f a e h = absurd cc
>>=-Succeeds (some b) f a e h = rw (some-injective b a e) h

pub elim-Succeeds {ℓ κ} :
    {A : Type ℓ} {B : Type κ} (o : Option A) (n : Option B) (f : A → Option B)
    → (o ≡ none → Succeeds n)
    → ((a : A) → o ≡ some a → Succeeds (f a))
    → Succeeds (elim o [ none ↦ n | some a ↦ f a ])
elim-Succeeds none n f h g = h refl
elim-Succeeds (some a) n f h g = g a refl

pub if-Succeeds {ℓ} :
    {A : Type ℓ} (b : Bool) (x y : Option A)
    → (b ≡ true → Succeeds x)
    → (b ≡ false → Succeeds y)
    → Succeeds (if b then x else y)
if-Succeeds true x y h g = h refl
if-Succeeds false x y h g = g refl

-- The result of a step whose parts are known.
module _ {ℓ κ} {A : Type ℓ} {B : Type κ} where
  pub >>=_step :
      (m : Option A) (f : A → Option B) (a : A) {r : Option B}
      → m ≡ some a
      → f a ≡ r
      → (m >>= f) ≡ r
  >>=_step m f a e h = rw e h

  pub elim_some :
      (o : Option A) (n : Option B) (f : A → Option B) (a : A) {r : Option B}
      → o ≡ some a
      → f a ≡ r
      → elim o [ none ↦ n | some x ↦ f x ] ≡ r
  elim_some o n f a e h = rw e h

  pub elim_none :
      (o : Option A) (n : Option B) (f : A → Option B) {r : Option B}
      → o ≡ none
      → n ≡ r
      → elim o [ none ↦ n | some x ↦ f x ] ≡ r
  elim_none o n f e h = rw e h

-- The value of a case whose scrutinee is known.
module _ {ℓ κ} {A : Type ℓ} {B : Type κ} where
  pub case_some :
      (o : Option A) (n : B) (f : A → B) (a : A)
      → o ≡ some a
      → elim o [ none ↦ n | some x ↦ f x ] ≡ f a
  case_some o n f a e = rw e refl

  pub case_none :
      (o : Option A) (n : B) (f : A → B) → o ≡ none → elim o [ none ↦ n | some x ↦ f x ] ≡ n
  case_none o n f e = rw e refl
