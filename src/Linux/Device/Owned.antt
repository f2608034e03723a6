-- ===== src/Linux/Device/Owned.antt =====
-- linux/device.c: the descriptors that a list of contexts holds.
use mathlib.Core.Option.{some-injective}
use aaruremote.Common.{
  ℕ, ◌≡◌, ◌≢◌, ap, ◌∙◌, inl, inr, Bool, true, false, Option, some, List, [], ◌∷◌, ◌==◌, Bool-cases,
  subst, arith,
}
use aaruremote.Linux.Device.{DeviceContext, find_context, set_fd, free_context}

-- No context holds the descriptor.
unfoldable pub Apart : Option ℕ → List DeviceContext → Type 0
Apart fd [] = Unit
Apart fd (c ∷ cs) = ((f : ℕ) → fd ≡ some f → c.fd ≢ some f) × Apart fd cs

-- Every descriptor that a context holds is open, and no two contexts hold the same; of a negative
-- descriptor, `none`, nothing is said.
unfoldable pub Owned : (ℕ → Bool) → List DeviceContext → Type 0
unfolding Apart
Owned is_open [] = Unit
Owned is_open (c ∷ cs) =
    ((f : ℕ) → c.fd ≡ some f → is_open f ≡ true) × Apart c.fd cs × Owned is_open cs

-- A descriptor that is not open is held by none.
pub Owned-Apart :
    (is_open : ℕ → Bool) (fd : Option ℕ) (cs : List DeviceContext)
    → ((f : ℕ) → fd ≡ some f → is_open f ≡ false)
    → Owned is_open cs
    → Apart fd cs
unfolding Owned Apart
Owned-Apart is_open fd [] shut held = tt
Owned-Apart is_open fd (c ∷ cs) shut (holds, apart, rest) =
    (λ f e e'. absurd (ground (arith, shut f e, holds f e')), Owned-Apart is_open fd cs shut rest)

-- What stays open keeps its owner.
pub Owned-kept :
    (before after : ℕ → Bool) (cs : List DeviceContext)
    → ((f : ℕ) → before f ≡ true → after f ≡ true)
    → Owned before cs
    → Owned after cs
unfolding Owned
Owned-kept before after [] kept held = tt
Owned-kept before after (c ∷ cs) kept (holds, apart, rest) =
    (λ f e. kept f (holds f e), apart, Owned-kept before after cs kept rest)

-- What stays open, with one descriptor that no one holds left aside.
pub Owned-without :
    (before after : ℕ → Bool) (fd : Option ℕ) (cs : List DeviceContext)
    → ((f : ℕ) → fd ≢ some f → before f ≡ true → after f ≡ true)
    → Apart fd cs
    → Owned before cs
    → Owned after cs
unfolding Owned Apart
Owned-without before after fd [] kept apart held = tt
Owned-without before after fd (c ∷ cs) kept (other, others) (holds, apart, rest) = (
  λ f e. kept f (λ same. other f same e) (holds f e),
  apart,
  Owned-without before after fd cs kept others rest,
)

find_here :
    (a : ℕ) (d c : DeviceContext) (cs : List DeviceContext)
    → (d.address == a) ≡ true
    → find_context a (d ∷ cs) ≡ some c
    → d ≡ c
unfolding find_context
find_here a d c cs here found = some-injective d c (rw here at found)

pub find-Owned :
    (is_open : ℕ → Bool) (a : ℕ) (cs : List DeviceContext) (c : DeviceContext) (f : ℕ)
    → Owned is_open cs
    → find_context a cs ≡ some c
    → c.fd ≡ some f
    → is_open f ≡ true
unfolding Owned find_context
find-Owned is_open a [] c f held found e = absurd (ground arith)
find-Owned is_open a (d ∷ cs) c f (holds, apart, rest) found e =
    elim (Bool-cases (d.address == a)) [
      | inl here ↦ holds f (ap (λ x. x.fd) (find_here a d c cs here found) ∙ e)
      | inr there ↦ find-Owned is_open a cs c f rest (rw there at found) e
    ]

pub Apart-free :
    (fd : Option ℕ) (a : ℕ) (cs : List DeviceContext) → Apart fd cs → Apart fd (free_context a cs)
unfolding Apart free_context
Apart-free fd a [] apart = tt
Apart-free fd a (c ∷ cs) (other, others) = elim (Bool-cases (c.address == a)) [
  | inl here ↦ rw here others
  | inr there ↦ rw there (other, Apart-free fd a cs others)
]

find-Apart :
    (fd : Option ℕ) (a : ℕ) (cs : List DeviceContext) (c : DeviceContext)
    → Apart fd cs
    → find_context a cs ≡ some c
    → (f : ℕ) → fd ≡ some f
    → c.fd ≢ some f
unfolding Apart find_context
find-Apart fd a [] c apart found = absurd (ground arith)
find-Apart fd a (d ∷ cs) c (other, others) found = elim (Bool-cases (d.address == a)) [
  | inl here ↦
      subst (λ x. (f : ℕ) → fd ≡ some f → x.fd ≢ some f) (find_here a d c cs here found) other
  | inr there ↦ find-Apart fd a cs c others (rw there at found)
]

-- Without a context, the others hold what they held, and not its descriptor.
pub Owned-free :
    (is_open : ℕ → Bool) (a : ℕ) (cs : List DeviceContext) (c : DeviceContext)
    → Owned is_open cs
    → find_context a cs ≡ some c
    → Owned is_open (free_context a cs) × Apart c.fd (free_context a cs)
unfolding Owned Apart find_context free_context
Owned-free is_open a [] c held found = absurd (ground arith)
Owned-free is_open a (d ∷ cs) c (holds, apart, rest) found = elim (Bool-cases (d.address == a)) [
  | inl here ↦ rw here (rest, subst (λ x. Apart x.fd cs) (find_here a d c cs here found) apart)
  | inr there ↦
      let (kept, others) = Owned-free is_open a cs c rest (rw there at found) in
      rw there (
        (holds, Apart-free d.fd a cs apart, kept),
        (λ f e e'. find-Apart d.fd a cs c apart (rw there at found) f e' e, others),
      )
]

Apart-set :
    (fd fd' : Option ℕ) (a : ℕ) (cs : List DeviceContext)
    → ((f : ℕ) → fd ≡ some f → fd' ≢ some f)
    → Apart fd (free_context a cs)
    → Apart fd (set_fd a fd' cs)
unfolding Apart free_context set_fd
Apart-set fd fd' a [] differ apart = tt
Apart-set fd fd' a (c ∷ cs) differ apart = elim (Bool-cases (c.address == a)) [
  | inl here ↦ rw here (differ, rw here at apart)
  | inr there ↦
      let (other, others) = rw there at apart in
      rw there (other, Apart-set fd fd' a cs differ others)
]

-- A context that is given a descriptor that the others do not hold.
pub Owned-set :
    (is_open : ℕ → Bool) (a : ℕ) (fd : Option ℕ) (cs : List DeviceContext)
    → ((f : ℕ) → fd ≡ some f → is_open f ≡ true)
    → Owned is_open (free_context a cs)
    → Apart fd (free_context a cs)
    → Owned is_open (set_fd a fd cs)
unfolding Owned Apart free_context set_fd
Owned-set is_open a fd [] opened held apart = tt
Owned-set is_open a fd (c ∷ cs) opened held apart = elim (Bool-cases (c.address == a)) [
  | inl here ↦ rw here (opened, rw here at apart, rw here at held)
  | inr there ↦
      let (holds, away, rest) = rw there at held in
      let (other, others) = rw there at apart in
      rw there (
        holds,
        Apart-set c.fd fd a cs (λ f e e'. other f e' e) away,
        Owned-set is_open a fd cs opened rest others,
      )
]
