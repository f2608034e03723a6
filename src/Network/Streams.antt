-- ===== src/Network/Streams.antt =====
-- unix/network.c: NetRecv on a connection whose recv returns what has arrived, in pieces.
use aaruremote.Common.{
  ◌-◌, ℕ, zero, suc, ◌+◌, ◌^◌, ◌≤◌, ◌<◌, ◌≡◌, refl, sym, ap, ◌∙◌, Bool, false, Option, some, List,
  [], ◌∷◌, ◌++◌, length, take, drop, ◌⊎◌, inl, inr, arith, length-take, lt→ltb, take-take-drop,
  drop_all, take_all, drop-drop,
}
use aaruremote.Network.{net_recv, recv_all}

-- recv without flags takes the next bytes of a stream: at most as many as asked for, and at least
-- one if one is asked for and one is to come.
pub record RecvLaws {C : Type 0} (recv : C → ℕ → Bool → Option (List ℕ) × C) : Type 0 where
  pub pending : C → List ℕ
  pub piece : C → ℕ → ℕ
  pub piece_asked : (c : C) (len : ℕ) → piece c len ≤ len
  pub piece_there : (c : C) (len : ℕ) → piece c len ≤ length (pending c)
  pub piece_some : (c : C) (len : ℕ) → 0 < len → 0 < length (pending c) → 0 < piece c len
  pub recv_bytes : (c : C) (len : ℕ) → (recv c len false).0 ≡ some (take (piece c len) (pending c))
  pub recv_pending :
      (c : C) (len : ℕ) → pending (recv c len false).1 ≡ drop (piece c len) (pending c)

-- A piece is empty only if nothing is to come.
first_piece :
    (k : ℕ) (p : List ℕ)
    → k ≤ length p
    → (0 < length p → 0 < k)
    → ((p ≡ []) ⊎ ((x : ℕ) × (xs : List ℕ) × (take k p ≡ x ∷ xs) × (length (x ∷ xs) ≡ k)))
first_piece k [] there some_byte = inl refl
first_piece zero (x ∷ p) there some_byte = absurd (omega (arith, some_byte (omega arith)))
first_piece (suc k) (x ∷ p) there some_byte =
    inr (x, take k p, refl, omega (arith, length-take k p))

module _ {C : Type 0} {recv : C → ℕ → Bool → Option (List ℕ) × C} (R : RecvLaws recv) where
  recv_all_lem :
      (fuel : ℕ) (c : C) (len : ℕ)
      → len ≤ fuel
      → ((recv_all recv fuel c len false).0 ≡ take len (R.pending c))
        × (R.pending (recv_all recv fuel c len false).1 ≡ drop len (R.pending c))
  unfolding recv_all
  recv_all_lem zero c zero enough = (refl, refl)
  recv_all_lem zero c (suc more) enough = absurd (omega arith)
  recv_all_lem (suc fuel) c zero enough = (refl, refl)
  recv_all_lem (suc fuel) c (suc more) enough =
      let k = R.piece c (suc more) in
      let p = R.pending c in
      let c' = (recv c (suc more) false).1 in
      elim (first_piece k p (R.piece_there c (suc more))
        (R.piece_some c (suc more) (omega arith))) [
          | inl none_left ↦
              rw
                (
                  recv_all,
                  R.recv_bytes c (suc more),
                  none_left,
                  take_all {A = ℕ} k [] (omega arith),
                  take_all {A = ℕ} (suc more) [] (omega arith),
                )
                (
                  refl,
                  R.recv_pending c (suc more) ∙ rw none_left (drop_all {A = ℕ} k [] (omega arith)),
                )
          | inr (x, xs, first, size) ↦
              let later = recv_all_lem fuel c' (suc more - length (x ∷ xs)) (omega arith) in
              let whole : k + (suc more - length (x ∷ xs)) ≡ suc more =
                omega (arith, R.piece_asked c (suc more)) in
              rw (recv_all, R.recv_bytes c (suc more), first)
                (
                  ap (λ q. x ∷ xs ++ q)
                        (later.0
                          ∙ ap (take (suc more - length (x ∷ xs))) (R.recv_pending c (suc more)))
                      ∙ ap (λ q. q ++ take (suc more - length (x ∷ xs)) (drop k p)) (sym first)
                      ∙ take-take-drop k (suc more - length (x ∷ xs)) p
                      ∙ ap (λ n. take n p) whole,
                  later.1
                      ∙ ap (drop (suc more - length (x ∷ xs))) (R.recv_pending c (suc more))
                      ∙ drop-drop k (suc more - length (x ∷ xs)) p
                      ∙ ap (λ n. drop n p) whole,
                )
        ]

  -- Over a recv that meets RecvLaws and for a length below 2 ^ 31, NetRecv without flags stores the
  -- first bytes to come, as many as asked for or all there are, and leaves what comes behind them,
  -- however recv cuts them up.
  pub net_recv_lem :
      (c : C) (len : ℕ)
      → len < 2 ^ 31
      → ((net_recv recv c len false).0 ≡ some (take len (R.pending c)))
        × (R.pending (net_recv recv c len false).1 ≡ drop len (R.pending c))
  unfolding net_recv
  net_recv_lem c len small =
      let all = recv_all_lem len c len (omega arith) in
      rw (lt→ltb len (2 ^ 31) small) (ap some all.0, all.1)
