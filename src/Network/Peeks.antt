-- ===== src/Network/Peeks.antt =====
-- unix/network.c: NetRecv with MSG_PEEK, which leaves what it shows.
use aaruremote.Common.{
  ◌⊎◌, ◌-◌, ℕ, zero, suc, ◌^◌, ◌≤◌, ◌<◌, ◌≡◌, refl, ap, ◌∙◌, Bool, true, Option, some, List, [],
  ◌∷◌, ◌++◌, length, take, inl, inr, arith, length-take, length-append, lt→ltb, take_all,
  append-nil, Returns, Option-cases, Bool-cases, ltb,
}
use aaruremote.Network.{net_recv, recv_all}
use aaruremote.Worker.Laws.{IsWhole}

-- A peek shows what has arrived, no more than is asked for; something, if anything is to come.
pub record PeekLaws {C : Type 0} (recv : C → ℕ → Bool → Option (List ℕ) × C) (pending : C → List ℕ)
    : Type 0 where
  pub arrived : C → ℕ → ℕ
  pub arrived_asked : (c : C) (len : ℕ) → arrived c len ≤ len
  pub arrived_there : (c : C) (len : ℕ) → arrived c len ≤ length (pending c)
  pub arrived_some : (c : C) (len : ℕ) → 0 < len → 0 < length (pending c) → 0 < arrived c len
  pub shown : (c : C) (len : ℕ) → (recv c len true).0 ≡ some (take (arrived c len) (pending c))
  pub left : (c : C) (len : ℕ) → pending (recv c len true).1 ≡ pending c

some_byte :
    (k : ℕ) (p : List ℕ)
    → 0 < k
    → k ≤ length p
    → (x : ℕ) × (xs : List ℕ) × (take k p ≡ x ∷ xs) × (length (x ∷ xs) ≡ k)
some_byte zero p pos there = absurd (omega arith)
some_byte (suc k) [] pos there = absurd (omega arith)
some_byte (suc k) (x ∷ p) pos there = (x, take k p, refl, omega (arith, length-take k p))

empty_or_not : (p : List ℕ) → (p ≡ []) ⊎ ((x : ℕ) × (xs : List ℕ) × (p ≡ x ∷ xs))
empty_or_not [] = inl refl
empty_or_not (x ∷ xs) = inr (x, xs, refl)

module _ {C A : Type 0} (recv : C → ℕ → Bool → Option (List ℕ) × C) (f : C → A) {peek : Bool}
    (same : (c : C) (n : ℕ) → f (recv c n peek).1 ≡ f c) where
  -- What every recv leaves alone, the loop leaves alone.
  recv_all_keeps : (fuel : ℕ) (c : C) (len : ℕ) → f (recv_all recv fuel c len peek).1 ≡ f c
  unfolding recv_all
  recv_all_keeps zero c len = refl
  recv_all_keeps (suc fuel) c zero = refl
  recv_all_keeps (suc fuel) c (suc more) =
      let c' = (recv c (suc more) peek).1 in
      elim (Option-cases (recv c (suc more) peek).0) [
        | inl failed ↦ rw (recv_all, failed) (same c (suc more))
        | inr (got, there) ↦ elim (empty_or_not got) [
          | inl nothing ↦ rw (recv_all, there, nothing) (same c (suc more))
          | inr (x, xs, e) ↦
              rw (recv_all, there, e)
                (recv_all_keeps fuel c' (suc more - length (x ∷ xs)) ∙ same c (suc more))
        ]
      ]

  pub net_recv_keeps : (c : C) (len : ℕ) → f (net_recv recv c len peek).1 ≡ f c
  unfolding net_recv
  net_recv_keeps c len = elim (Bool-cases (ltb len (2 ^ 31))) [
    | inl small ↦ rw small (recv_all_keeps len c len)
    | inr large ↦ rw large refl
  ]

module _ {C : Type 0} {recv : C → ℕ → Bool → Option (List ℕ) × C} {pending : C → List ℕ}
    (R : PeekLaws recv pending) where
  recv_all_full :
      (fuel : ℕ) (c : C) (len : ℕ)
      → len ≤ fuel
      → 0 < length (pending c)
      → length (recv_all recv fuel c len true).0 ≡ len
  unfolding recv_all
  recv_all_full zero c len enough some_to_come = omega arith
  recv_all_full (suc fuel) c zero enough some_to_come = refl
  recv_all_full (suc fuel) c (suc more) enough some_to_come =
      let k = R.arrived c (suc more) in
      let (x, xs, first, size) =
        some_byte k (pending c) (R.arrived_some c (suc more) (omega arith) some_to_come)
          (R.arrived_there c (suc more)) in
      let c' = (recv c (suc more) true).1 in
      let later =
        recv_all_full fuel c' (suc more - length (x ∷ xs)) (omega arith)
          (omega (arith, ap length (R.left c (suc more)))) in
      rw (recv_all, R.shown c (suc more), first)
        (omega (
          arith,
          later,
          R.arrived_asked c (suc more),
          length-append (x ∷ xs) (recv_all recv fuel c' (suc more - length (x ∷ xs)) true).0,
        ))

  recv_all_none : (fuel : ℕ) (c : C) → (recv_all recv fuel c 0 true).0 ≡ []
  unfolding recv_all
  recv_all_none zero c = refl
  recv_all_none (suc fuel) c = refl

  recv_all_whole :
      (fuel : ℕ) (c : C) (len : ℕ)
      → len ≤ fuel
      → (len ≤ length (pending c) → R.arrived c len ≡ len)
      → IsWhole len (pending c)
      → (recv_all recv fuel c len true).0 ≡ take len (pending c)
  unfolding recv_all
  recv_all_whole zero c zero enough prompt whole = refl
  recv_all_whole zero c (suc more) enough prompt whole = absurd (omega arith)
  recv_all_whole (suc fuel) c zero enough prompt whole = refl
  recv_all_whole (suc fuel) c (suc more) enough prompt (inr nothing) =
      let none_shown : take (R.arrived c (suc more)) (pending c) ≡ [] =
        rw nothing (take_all {A = ℕ} (R.arrived c (suc more)) [] (omega arith)) in
      rw (recv_all, R.shown c (suc more), none_shown, nothing) refl
  recv_all_whole (suc fuel) c (suc more) enough prompt (inl there) =
      let (x, xs, first, size) = some_byte (suc more) (pending c) (omega arith) there in
      let c' = (recv c (suc more) true).1 in
      let done : suc more - length (x ∷ xs) ≡ 0 = omega arith in
      rw (recv_all, R.shown c (suc more), prompt there, first, done)
        (ap (λ q. x ∷ xs ++ q) (recv_all_none fuel c') ∙ append-nil (x ∷ xs))

  -- Over a recv that meets PeekLaws, if something is to come and for a length below 2 ^ 31: NetRecv
  -- with MSG_PEEK tells that all the bytes that were asked for are there, also where fewer are to
  -- come, and leaves what is to come as it was.
  pub net_recv_peek_full :
      (c : C) (len : ℕ)
      → len < 2 ^ 31
      → 0 < length (pending c)
      → Returns (λ got. length got ≡ len) (net_recv recv c len true).0
        × (pending (net_recv recv c len true).1 ≡ pending c)
  unfolding net_recv
  net_recv_peek_full c len small some_to_come = rw (lt→ltb len (2 ^ 31) small) (
    recv_all_full len c len (omega arith) some_to_come,
    recv_all_keeps recv pending (λ c' n. R.left c' n) len c len,
  )

  pub net_recv_peek_whole :
      (c : C) (len : ℕ)
      → len < 2 ^ 31
      → (len ≤ length (pending c) → R.arrived c len ≡ len)
      → IsWhole len (pending c)
      → ((net_recv recv c len true).0 ≡ some (take len (pending c)))
        × (pending (net_recv recv c len true).1 ≡ pending c)
  unfolding net_recv
  net_recv_peek_whole c len small prompt whole = rw (lt→ltb len (2 ^ 31) small) (
    ap some (recv_all_whole len c len (omega arith) prompt whole),
    recv_all_keeps recv pending (λ c' n. R.left c' n) len c len,
  )
