-- ===== src/Worker/Serving/Clients.antt =====
-- worker.c: one client after the other is answered, up to the end of WorkingLoop.
use aaruremote.Common.{
  ℕ, zero, suc, ◌<◌, ◌≡◌, refl, true, false, Option, none, some, List, [], ◌∷◌, ◌++◌, length, arith,
  All,
}
use aaruremote.Protocol.Structs.{hello_size}
use aaruremote.Worker.Platform.{Platform}
use aaruremote.Worker.Session.{Session, initial_nop}
use aaruremote.Worker.Laws.{NetLaws, AllocLaws}
use aaruremote.Worker.Served.{Ensures, NopReady}
use aaruremote.Worker.Loop.{closed, handshake, run}
use aaruremote.Worker.Loop.Dispatch.{PlatformLaws}
use aaruremote.Worker.Loop.Conversation.{
  IsRequest, wire, Answers, Concluded, run-Concluded, then-Ensures,
}
use aaruremote.Worker.Loop.Greeting.{IsHello, Accepted, handshake-Ready}
use aaruremote.Worker.Serving.{
  Listener, next_client, no_client, serve_accepted, serve_clients, working_loop,
}

-- What a client sends: its hello packet and its requests.
pub record Script : Type 0 where
  pub hello : List ℕ
  pub requests : List (List ℕ)

-- A script that the server serves within a number of rounds.
pub record IsScript (rounds : ℕ) (q : Script) : Type 0 where
  pub greets : IsHello q.hello
  pub asks : All IsRequest q.requests
  pub enough : length q.requests < rounds

module _ {L C D H : Type 0} {P : Platform C D H} (S : Listener L C) (N : NetLaws P) where
  -- The clients that arrive, up to the accept that fails.
  pub data Arrivals : L → List Script → Type 0 where
    no_more : (l : L) → (S.net_accept l).0 ≡ none → Arrivals l []
    arrival :
        (l : L) (c : C) (q : Script) (qs : List Script)
        → (S.net_accept l).0 ≡ some c
        → N.pending c ≡ q.hello ++ wire q.requests
        → N.sent c ≡ []
        → Arrivals (S.net_accept l).1 qs
        → Arrivals l (q ∷ qs)

-- Each connection was sent the server's hello packet and the answers to its client's requests.
pub data Answered {C : Type 0} (sent : C → List (List ℕ)) (server_hello : List ℕ)
    : List C → List Script → Type 0 where
  nobody : Answered sent server_hello [] []
  client :
      (c : C) (q : Script) (cs : List C) (qs : List Script) (answers : List (List ℕ))
      → Answers q.requests answers
      → sent c ≡ server_hello ∷ answers
      → Answered sent server_hello cs qs
      → Answered sent server_hello (c ∷ cs) (q ∷ qs)

Ensures-some :
    {X S : Type 0} (Q : X → S → Type 0) (o : Option (X × S))
    → Ensures Q o
    → (x : X) × (s : S) × (o ≡ some (x, s)) × Q x s
Ensures-some Q none q = absurd q
Ensures-some Q (some (x, s)) q = (x, s, refl, q)

module _ {C D H : Type 0} {P : Platform C D H} (N : NetLaws P) (A : AllocLaws P) where
  serve_accepted-Concluded :
      (q : Script) (server_hello : List ℕ) (rounds : ℕ) {s : Session C D H}
      → PlatformLaws P
      → Accepted N A (q.hello ++ wire q.requests) s
      → length server_hello ≡ hello_size
      → IsScript rounds q
      → Ensures
          (λ o s'. (o ≡ next_client) × Concluded N A (server_hello ∷ []) q.requests closed s')
          (serve_accepted P server_hello rounds s)
  unfolding serve_accepted Concluded
  serve_accepted-Concluded q server_hello rounds {s} laws a size ok =
      then-Ensures _ _ (handshake P server_hello) _ s
        (handshake-Ready N A q.hello (wire q.requests) server_hello a size ok.greets)
        (λ o s' (greeting, ready). rw greeting (
          then-Ensures _ _ (run P rounds) _ (record s' { skip_next_hdr = false })
            (run-Concluded N A laws q.requests rounds ok.asks ok.enough ready)
            (λ r s'' (left, dead, nop, done). rw left (refl, (refl, dead, nop, done)))))

module _ {L C D H : Type 0} {P : Platform C D H} (S : Listener L C) (N : NetLaws P)
    (A : AllocLaws P) where
  serve_clients-Answered :
      (qs : List Script) (server_hello : List ℕ) (fuel rounds : ℕ) (l : L) (s : Session C D H)
      → PlatformLaws P
      → length server_hello ≡ hello_size
      → NopReady N s
      → Arrivals S N l qs
      → All (IsScript rounds) qs
      → length qs < fuel
      → Ensures
          (λ r s'. (r.0 ≡ no_client) × Answered N.sent server_hello r.1 qs)
          (serve_clients P S fuel server_hello rounds l s)
  unfolding serve_clients Concluded
  serve_clients-Answered qs server_hello zero rounds l s laws size nop arrive ok enough =
      absurd (omega arith)
  serve_clients-Answered [] server_hello (suc fuel) rounds l s laws size nop (no_more _ none_left)
        ok enough =
      rw (serve_clients, none_left) (refl, nobody)
  serve_clients-Answered (q ∷ qs) server_hello (suc fuel) rounds l s laws size nop
        (arrival _ c _ _ there to_come unsent others) (ok, oks) enough =
      let a : Accepted N A (q.hello ++ wire q.requests) (record s { conn = c }) = record {
        to_come = to_come;
        nothing_sent = unsent;
        nop_ready = nop;
      } in
      let (o, s', runs, done) =
        Ensures-some
          (λ o s'. (o ≡ next_client) × Concluded N A (server_hello ∷ []) q.requests closed s') _
          (serve_accepted-Concluded N A q server_hello rounds laws a size ok) in
      let (left, dead, nop', (answers, answer, sent)) = done.1 in
      let (r, s'', later, ended) =
        Ensures-some (λ r s'. (r.0 ≡ no_client) × Answered N.sent server_hello r.1 qs) _
          (serve_clients-Answered qs server_hello fuel rounds (S.net_accept l).1 s' laws size nop'
            others oks (omega arith)) in
      rw (serve_clients, there, runs, done.0, later)
        (ended.0, client s'.conn q r.1 qs answers answer sent ended.1)

  -- On a network and an allocator that meet NetLaws and AllocLaws, with device functions that meet
  -- PlatformLaws and a server hello packet of hello_size bytes, if the server's socket can be
  -- opened, bound and listened on, and there is room for the NOP packet: for clients that arrive
  -- one after the other, each sending a hello packet that meets IsHello and then packets that meet
  -- IsRequest, fewer than there are rounds, and then an accept that fails, and with more fuel than
  -- clients, WorkingLoop ends there without undefined behaviour, and each client was sent the
  -- server's hello packet followed by the answers that Answers allows for its packets.
  pub working_loop-Answered :
      (qs : List Script) (server_hello : List ℕ) (fuel rounds : ℕ) (l : L) (s : Session C D H)
      → PlatformLaws P
      → length server_hello ≡ hello_size
      → All (IsScript rounds) qs
      → length qs < fuel
      → (S.net_socket l).0 ≡ true
      → let l1 = (S.net_socket l).1 in
        (S.net_bind l1).0 ≡ true
        → let l2 = (S.net_bind l1).1 in
          (S.net_listen l2).0 ≡ true
          → let l3 = (S.net_listen l2).1 in
            (S.nop_block l3).0 ≡ true
            → Arrivals S N (S.nop_block l3).1 qs
            → Ensures
                (λ r s'. (r.0 ≡ no_client) × Answered N.sent server_hello r.1 qs)
                (working_loop P S fuel server_hello rounds l s)
  unfolding working_loop initial_nop
  working_loop-Answered qs server_hello fuel rounds l s laws size ok enough opened bound listening
        room arrive =
      rw (working_loop, opened, bound, listening, room)
        (serve_clients-Answered qs server_hello fuel rounds _ (record s { pkt_nop = initial_nop })
          laws size refl arrive ok enough)
