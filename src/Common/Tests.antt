-- ===== src/Common/Tests.antt =====
-- Boolean tests on native numbers, the conditional and case lemmas.
use Prim.Native.Nat.{ℕ, ◌≤◌, ◌<◌, compare, Ordering}
use mathlib.Core.Path.{◌≡◌, refl}
use mathlib.Core.Logic.{◌⊎◌, inl, inr}
use mathlib.Core.Bool.{Bool, true, false}
use mathlib.Core.Option.{Option, none, some}
use native.Mathlib.Omega.{arith}

abbrev pub ltb : ℕ → ℕ → Bool
ltb a b = elim (compare a b) [ Ordering.lt ↦ true | _ ↦ false ]

abbrev pub leb : ℕ → ℕ → Bool
leb a b = elim (compare a b) [ Ordering.gt ↦ false | _ ↦ true ]

infix 50 ◌==◌
abbrev pub ◌==◌ : ℕ → ℕ → Bool
a == b = elim (compare a b) [ Ordering.eq ↦ true | _ ↦ false ]

infix 1 if◌then◌else◌
abbrev pub if◌then◌else◌ {ℓ} : {A : Type ℓ} → Bool → A → A → A
if true then x else y = x
if false then x else y = y

pub leb→le : (a b : ℕ) → leb a b ≡ true → a ≤ b
leb→le a b h = ground arith

pub le→leb : (a b : ℕ) → a ≤ b → leb a b ≡ true
le→leb a b h = ground arith

pub lt→ltb : (a b : ℕ) → a < b → ltb a b ≡ true
lt→ltb a b h = ground arith

pub le→ltb_false : (a b : ℕ) → b ≤ a → ltb a b ≡ false
le→ltb_false a b h = ground arith

pub eq→== : (a b : ℕ) → a ≡ b → (a == b) ≡ true
eq→== a b h = ground arith

pub Bool-cases : (b : Bool) → (b ≡ true) ⊎ (b ≡ false)
Bool-cases true = inl refl
Bool-cases false = inr refl

pub Option-cases {ℓ} : {A : Type ℓ} (o : Option A) → (o ≡ none) ⊎ ((a : A) × (o ≡ some a))
Option-cases none = inl refl
Option-cases (some a) = inr (a, refl)

pub ==→eq : (a b : ℕ) → (a == b) ≡ true → a ≡ b
==→eq a b h = ground arith

-- There is a result, and the predicate holds of it.
abbrev pub Returns {ℓ} : {A : Type ℓ} → (A → Type 0) → Option A → Type 0
Returns Q none = ⊥
Returns Q (some a) = Q a

-- What holds of both branches.
pub if_both {ℓ} :
    {A : Type ℓ} (Q : A → Type 0) (b : Bool) (x y : A) → Q x → Q y → Q (if b then x else y)
if_both Q true x y p q = p
if_both Q false x y p q = q

pub elim_both {ℓ κ} :
    {A : Type ℓ} {B : Type κ} (Q : B → Type 0) (o : Option A) (b : B) (f : A → B)
    → Q b
    → ((a : A) → Q (f a))
    → Q (elim o [ none ↦ b | some a ↦ f a ])
elim_both Q none b f p q = p
elim_both Q (some a) b f p q = q a

-- There is no result, or the predicate holds of it.
abbrev pub Meets : {A : Type 0} → (A → Type 0) → Option A → Type 0
Meets P none = Unit {0}
Meets P (some a) = P a

infixl 10 ◌>>=◌
abbrev pub ◌>>=◌ : {A B : Type 0} → Option A → (A → Option B) → Option B
o >>= f = elim o [ none ↦ none | some a ↦ f a ]

pub bind-Meets :
    {A B : Type 0} (P : A → Type 0) (Q : B → Type 0) (o : Option A) (f : A → Option B)
    → Meets P o
    → ((a : A) → P a → Meets Q (f a))
    → Meets Q (o >>= f)
bind-Meets P Q none f p q = tt
bind-Meets P Q (some a) f p q = q a p

pub elim_option :
    {A B : Type 0} {P : A → Type 0} (Q : B → Type 0) (o : Option A) (b : B) (f : A → B)
    → Meets P o
    → Q b
    → ((a : A) → P a → Q (f a))
    → Q (elim o [ none ↦ b | some a ↦ f a ])
elim_option Q none b f held p q = p
elim_option Q (some a) b f held p q = q a held

pub bind_result :
    {A B : Type 0} {P : A → Type 0} (Q : B → Type 0) (f : A → Option B) (o : Option A)
    → Returns P o
    → ((a : A) → P a → Returns Q (f a))
    → Returns Q (elim o [ none ↦ none | some a ↦ f a ])
bind_result Q f none held each = absurd held
bind_result Q f (some a) held each = each a held
