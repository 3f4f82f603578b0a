-- ===== src/Base/Options.antt =====
-- A predicate of what an Option holds, and how the steps of a computation that may fail carry it.
use mqtt_s_gateway.Base.Tests.{if◌then◌else◌}
use mathlib.Core.Bool.{Bool, true, false}
use mathlib.Core.Option.{Option, none, some}
use mathlib.Core.Path.{◌≡◌, refl, subst, ap, sym}

-- A chain of steps each of which may fault: `none` is an access outside of an allocated block.
infixl 5 ◌>>=◌
abbrev pub ◌>>=◌ {ℓ κ} : {A : Type ℓ} {B : Type κ} → Option A → (A → Option B) → Option B
none >>= f = none
some a >>= f = f a

-- A predicate of the result, if there is one.
pub data Each {A : Type 0} (P : A → Type 0) : Option A → Type 0 where
  fails : Each P none
  gives : {a : A} → P a → Each P (some a)

pub Each-bind :
    {A B : Type 0} {P : B → Type 0} (x : Option A) (f : A → Option B)
    → ((a : A) → Each P (f a))
    → Each P (x >>= f)
Each-bind none f h = fails
Each-bind (some a) f h = h a

pub Each-chain :
    {A B : Type 0} {Q : A → Type 0} {P : B → Type 0} {x : Option A} (f : A → Option B)
    → Each Q x
    → ((a : A) → Q a → Each P (f a))
    → Each P (x >>= f)
Each-chain f fails h = fails
Each-chain f (gives q) h = h _ q

pub Each-if :
    {A : Type 0} {P : A → Type 0} (t : Bool) {x y : Option A}
    → Each P x
    → Each P y
    → Each P (if t then x else y)
Each-if true px py = px
Each-if false px py = py

pub holds : {A : Type 0} {P : A → Type 0} {a : A} → Each P (some a) → P a
holds (gives p) = p

pub from_each : {A : Type 0} {P : A → Type 0} {x : Option A} {a : A} → Each P x → x ≡ some a → P a
from_each {P = P} px e = holds (subst (λ o. Each P o) e px)

-- The step may use what the computation before it gave.
pub Each-read :
    {A B : Type 0} {P : B → Type 0} (x : Option A) (f : A → Option B)
    → ((a : A) → x ≡ some a → Each P (f a))
    → Each P (x >>= f)
Each-read none f h = fails
Each-read (some a) f h = h a refl

pub Each-test :
    {A : Type 0} {P : A → Type 0} (t : Bool) {x y : Option A}
    → (t ≡ true → Each P x)
    → (t ≡ false → Each P y)
    → Each P (if t then x else y)
Each-test true px py = px refl
Each-test false px py = py refl

pub some-injective {ℓ} : {A : Type ℓ} {a b : A} → some a ≡ some b → a ≡ b
some-injective {a = a} e = ap (or_else a) e
  where
    or_else : {A : Type ℓ} → A → Option A → A
    or_else d none = d
    or_else d (some x) = x

-- Two steps that both succeed.
pub chained :
    {A B C : Type 0} (x : Option A) (y : Option B) (f : A → B → C) (c : C)
    → (x >>= λ a. (y >>= λ b. some (f a b))) ≡ some c
    → (a : A) × (b : B) × (x ≡ some a) × (y ≡ some b) × (c ≡ f a b)
chained none y f c e = absurd (cc e)
chained (some a) none f c e = absurd (cc e)
chained (some a) (some b) f c e = (a, b, refl, refl, sym (some-injective e))

pub Each-weaken :
    {A : Type 0} {Q P : A → Type 0} {x : Option A} → Each Q x → ((a : A) → Q a → P a) → Each P x
Each-weaken fails h = fails
Each-weaken (gives q) h = gives (h _ q)
