-- ===== src/Worker/Serving.antt =====
-- worker.c: WorkingLoop from its start to its end, over the socket on which clients arrive. The
-- socket calls are parameters.
pub mod Clients
use aaruremote.Common.{ℕ, zero, suc, Bool, true, false, Option, none, some, List, [], ◌∷◌}
use aaruremote.Protocol.Structs.{AaruPacketNop}
use aaruremote.Worker.Platform.{Platform}
use aaruremote.Worker.Session.{Session, M, ◌>>=◌, ◌>>◌, pure, initial_nop}
use aaruremote.Worker.Loop.{
  Run, running, closed, Handshake, served, refused, stopped, clear_skip, handshake, run,
}

-- The calls on the listening socket; `L` is its state. A flag says whether a call succeeded.
pub record Listener (L C : Type 0) : Type 0 where
  pub net_socket : L → Bool × L
  pub net_bind : L → Bool × L
  pub net_listen : L → Bool × L
  pub net_accept : L → Option C × L
  pub net_close : L → L
  -- `malloc(sizeof(AaruPacketNop))`
  pub nop_block : L → Bool × L

-- Where a client leaves `WorkingLoop`: at the next `NetAccept`, or at its end.
pub data Next : Type 0 where
  next_client no_memory still_running : Next

-- How `WorkingLoop` ends; the last is a bound that is used up.
pub data Ending : Type 0 where
  no_socket not_bound not_listening no_nop no_client no_header_block out_of_fuel : Ending

module _ {C D H : Type 0} (P : Platform C D H) where
  -- From an accepted connection to the next `NetAccept`.
  unfoldable pub serve_accepted : List ℕ → ℕ → M C D H Next
  serve_accepted server_hello rounds = do
    h ← handshake P server_hello
    elim h [
      | refused ↦ pure next_client
      | stopped ↦ pure no_memory
      | served ↦ do
        clear_skip P
        r ← run P rounds
        pure (elim r [ closed ↦ next_client | running ↦ still_running ])
    ]

module _ {L C D H : Type 0} (P : Platform C D H) (S : Listener L C) where
  -- The loop over the clients, with a bound on their number. The connections that were served, as
  -- they were left, are given too.
  unfoldable pub serve_clients :
      ℕ → List ℕ → ℕ → L → Session C D H → Option ((Ending × List C) × Session C D H)
  unfolding serve_accepted
  serve_clients zero server_hello rounds l s = some ((out_of_fuel, []), s)
  serve_clients (suc fuel) server_hello rounds l s =
      let (client, l') = S.net_accept l in
      elim client [
        | none ↦ some ((no_client, []), s)
        | some conn ↦ elim (serve_accepted P server_hello rounds (record s { conn = conn })) [
          | none ↦ none
          | some (o, s') ↦ elim o [
            | no_memory ↦ some ((no_header_block, s'.conn ∷ []), s')
            | still_running ↦ some ((out_of_fuel, s'.conn ∷ []), s')
            | next_client ↦ elim (serve_clients fuel server_hello rounds l' s') [
              | none ↦ none
              | some ((ending, conns), s'') ↦ some ((ending, s'.conn ∷ conns), s'')
            ]
          ]
        ]
      ]

  -- `WorkingLoop`, with its variables as they are at its start.
  unfoldable pub working_loop :
      ℕ → List ℕ → ℕ → L → Session C D H → Option ((Ending × List C) × Session C D H)
  unfolding serve_clients
  working_loop fuel server_hello rounds l s =
      let (opened, l1) = S.net_socket l in
      let (bound, l2) = S.net_bind l1 in
      let (listening, l3) = S.net_listen l2 in
      let (room, l4) = S.nop_block l3 in
      elim opened [
        | false ↦ some ((no_socket, []), s)
        | true ↦ elim bound [
          | false ↦ some ((not_bound, []), s)
          | true ↦ elim listening [
            | false ↦ some ((not_listening, []), s)
            | true ↦ elim room [
              | false ↦ some ((no_nop, []), s)
              | true ↦
                  serve_clients fuel server_hello rounds l4 (record s { pkt_nop = initial_nop })
            ]
          ]
        ]
      ]
