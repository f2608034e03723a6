-- ===== src/Network.antt =====
-- unix/network.c: NetRecv, over the recv system call, which is a parameter.
pub mod Streams
pub mod Contexts
pub mod Peeks
use aaruremote.Common.{
  ℕ, zero, suc, ◌-◌, ◌^◌, Bool, Option, none, some, List, [], ◌∷◌, ◌++◌, length, ltb, ◌==◌,
  if◌then◌else◌,
}

module _ {C : Type 0} (recv : C → ℕ → Bool → Option (List ℕ) × C) where
  -- The loop of NetRecv. Every round that goes on received a byte, so `len` rounds are enough.
  recv_all : ℕ → C → ℕ → Bool → List ℕ × C
  recv_all zero c len peek = ([], c)
  recv_all (suc fuel) c zero peek = ([], c)
  recv_all (suc fuel) c (suc more) peek =
      let (r, c') = recv c (suc more) peek in
      elim r [
        | none ↦ ([], c')
        | some got_once ↦ elim got_once [
          | [] ↦ ([], c')
          | x ∷ xs ↦
              let rest = recv_all fuel c' (suc more - length (x ∷ xs)) peek in
              (x ∷ xs ++ rest.0, rest.1)
        ]
      ]

  -- `NetRecv`; a length of 2 ^ 31 or more is a negative one, and the loop is not entered.
  unfoldable pub net_recv : C → ℕ → Bool → Option (List ℕ) × C
  unfolding recv_all
  net_recv c len peek =
      if ltb len (2 ^ 31)
      then (let (got, c') = recv_all len c len peek in (some got, c'))
      else (some [], c)
