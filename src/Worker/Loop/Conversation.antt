-- ===== src/Worker/Loop/Conversation.antt =====
-- worker.c: the whole inner loop, the packets of one client and the answers to them, up to the end
-- of what the client sends.
use aaruremote.Common.{
  ℕ, zero, suc, ◌<◌, ◌≡◌, refl, sym, ◌∙◌, true, false, List, [], ◌∷◌, ◌++◌, length, ◌==◌, arith,
  Bool-cases, Option-cases, append_assoc, append-nil, ◌⊎◌, inl, inr, ==→eq, All,
}
use aaruremote.Protocol.{packet_version}
use aaruremote.Protocol.Types
use aaruremote.Protocol.Types.{type_nop}
use aaruremote.Protocol.Header.{load_header}
use aaruremote.Worker.Platform.{Platform}
use aaruremote.Worker.Session.{Session, M, ◌>>=◌}
use aaruremote.Worker.Laws.{NetLaws, AllocLaws}
use aaruremote.Worker.Served.{Ensures, Ensures-map, IsAnswer, Served, Quiet, NopReady}
use aaruremote.Worker.Loop.{Run, closed, run, step}
use aaruremote.Worker.Loop.Dispatch.{PlatformLaws, answer_type, Servable, Handled}
use aaruremote.Worker.Loop.Rounds.{
  IsFramed, type_of, Ready, step-Handled, step_of_other_version, step_at_end,
}

-- What a client may send: framed packets that the server serves, and packets of other versions.
pub data IsRequest (p : List ℕ) : Type 0 where
  current :
      IsFramed p → (load_header p).version ≡ packet_version → Servable p (type_of p) → IsRequest p
  foreign : IsFramed p → ((load_header p).version == packet_version) ≡ false → IsRequest p

-- The packets on the wire, one behind the other.
unfoldable pub wire : List (List ℕ) → List ℕ
wire [] = []
wire (p ∷ ps) = p ++ wire ps

-- The answers to a sequence of packets, in its order: none to CLOSE_DEVICE and to other versions,
-- a NOP packet to LIST_DEVICES where there is no list, and else one of the type that is due.
pub data Answers : List (List ℕ) → List (List ℕ) → Type 0 where
  finished : Answers [] []
  silent :
      (p : List ℕ) (ps answers : List (List ℕ))
      → (type_of p ≡ Types.type_command_close_device)
        ⊎ (((load_header p).version == packet_version) ≡ false)
      → Answers ps answers
      → Answers (p ∷ ps) answers
  answered :
      (p a : List ℕ) (ps answers : List (List ℕ))
      → IsAnswer (answer_type (type_of p)) a
      → Answers ps answers
      → Answers (p ∷ ps) (a ∷ answers)
  no_list :
      (p a : List ℕ) (ps answers : List (List ℕ))
      → type_of p ≡ Types.type_command_list_devices
      → IsAnswer type_nop a
      → Answers ps answers
      → Answers (p ∷ ps) (a ∷ answers)

module _ {C D H : Type 0} where
  pub then-Ensures :
      {X Y : Type 0} (Q : X → Session C D H → Type 0) (R : Y → Session C D H → Type 0)
      (m : M C D H X) (f : X → M C D H Y) (s : Session C D H)
      → Ensures Q (m s)
      → ((x : X) (s' : Session C D H) → Q x s' → Ensures R (f x s'))
      → Ensures R ((m >>= f) s)
  then-Ensures Q R m f s q k = elim (Option-cases (m s)) [
    | inl e ↦ absurd (rw e at q)
    | inr ((x, s'), e) ↦ rw (◌>>=◌, e) (k x s' (rw e at q))
  ]

module _ {C D H : Type 0} {P : Platform C D H} (N : NetLaws P) (A : AllocLaws P) where
  -- The loop was left with the connection closed, after the answers to these packets, and the NOP
  -- packet's header is as it was prepared.
  unfoldable pub Concluded : List (List ℕ) → List (List ℕ) → Run → Session C D H → Type 0
  Concluded before ps r s =
      (r ≡ closed)
      × (s.client_live ≡ false)
      × NopReady N s
      × ((answers : List (List ℕ)) × Answers ps answers × (N.sent s.conn ≡ before ++ answers))

  -- What one round adds to the conversation.
  Added : List (List ℕ) → List ℕ → List ℕ → Session C D H → Type 0
  Added before p rest s =
      (new : List (List ℕ)) × ((ps answers : List (List ℕ))
        → Answers ps answers
        → Answers (p ∷ ps) (new ++ answers))
      × Ready N (before ++ new) rest s

  Quiet-Added :
      (before : List (List ℕ)) (p rest : List ℕ) (s : Session C D H)
      → (type_of p ≡ Types.type_command_close_device)
        ⊎ (((load_header p).version == packet_version) ≡ false)
      → Quiet N before rest s
      → Added before p rest s
  unfolding Added
  Quiet-Added before p rest s why q = (
    [],
    λ ps answers. silent p ps answers why,
    record {
      live = q.live;
      to_serve = q.consumed;
      written = q.unwritten ∙ sym (append-nil before);
      nop_ready = q.nop_kept;
      bounded = q.bounded;
    },
  )

  Served-Ready :
      (before : List (List ℕ)) (rest : List ℕ) (t : ℕ) (s : Session C D H)
      → (q : Served N before rest t s) → Ready N (before ++ q.answer ∷ []) rest s
  Served-Ready before rest t s q = record {
    live = q.live;
    to_serve = q.consumed;
    written = q.written;
    nop_ready = q.nop_kept;
    bounded = q.bounded;
  }

  listed_cases :
      (t : ℕ) {before : List (List ℕ)} {rest : List ℕ} {s : Session C D H}
      → (t == Types.type_command_close_device) ≡ false
      → (t == Types.type_command_list_devices) ≡ true
      → Handled N A t before rest s
      → Served N before rest (answer_type t) s ⊎ Served N before rest type_nop s
  unfolding Handled
  listed_cases t e l h = rw (e, l) at h

  answered-Added :
      (before : List (List ℕ)) (p rest : List ℕ) (s : Session C D H)
      → Served N before rest (answer_type (type_of p)) s
      → Added before p rest s
  unfolding Added
  answered-Added before p rest s q = (
    q.answer ∷ [],
    λ ps answers. answered p q.answer ps answers q.well_formed,
    Served-Ready before rest _ s q,
  )

  no_list-Added :
      (before : List (List ℕ)) (p rest : List ℕ) (s : Session C D H)
      → type_of p ≡ Types.type_command_list_devices
      → Served N before rest type_nop s
      → Added before p rest s
  unfolding Added
  no_list-Added before p rest s e q = (
    q.answer ∷ [],
    λ ps answers. no_list p q.answer ps answers e q.well_formed,
    Served-Ready before rest _ s q,
  )

  Handled-Added :
      (before : List (List ℕ)) (p rest : List ℕ) (s : Session C D H)
      → Handled N A (type_of p) before rest s
      → Added before p rest s
  unfolding Handled
  Handled-Added before p rest s h =
      elim (Bool-cases (type_of p == Types.type_command_close_device)) [
        | inl e ↦ Quiet-Added before p rest s (inl (==→eq _ _ e)) (rw e at h)
        | inr e ↦ elim (Bool-cases (type_of p == Types.type_command_list_devices)) [
          | inl l ↦ elim (listed_cases (type_of p) e l h) [
            | inl q ↦ answered-Added before p rest s q
            | inr q ↦ no_list-Added before p rest s (==→eq _ _ l) q
          ]
          | inr l ↦ answered-Added before p rest s (rw (e, l) at h)
        ]
      ]

  round-Added :
      {before : List (List ℕ)} {s : Session C D H}
      → PlatformLaws P
      → (p rest : List ℕ) → IsRequest p
      → Ready N before (p ++ rest) s
      → Ensures (λ more s'. (more ≡ true) × Added before p rest s') (step P s)
  round-Added {before} L p rest (current f v q) r =
      Ensures-map {Q = λ more s'. (more ≡ true) × Handled N A (type_of p) before rest s'}
        (λ more s' h. (h.0, Handled-Added before p rest s' h.1)) _
        (step-Handled N A p rest L r f v q)
  round-Added {before} L p rest (foreign f v) r =
      Ensures-map {Q = λ more s'. (more ≡ true) × Quiet N before rest s'}
        (λ more s' h. (h.0, Quiet-Added before p rest s' (inr v) h.1)) _
        (step_of_other_version N A p rest r f v)

  -- A round's answer goes in front of those of the rounds after it.
  Concluded-cons :
      (before : List (List ℕ)) (p : List ℕ) (ps new : List (List ℕ)) (r : Run) (s : Session C D H)
      → ((ps answers : List (List ℕ)) → Answers ps answers → Answers (p ∷ ps) (new ++ answers))
      → Concluded (before ++ new) ps r s
      → Concluded before (p ∷ ps) r s
  unfolding Concluded
  Concluded-cons before p ps new r s more (left, dead, nop, (answers, ok, sent)) = (
    left,
    dead,
    nop,
    (new ++ answers, more ps answers ok, sent ∙ append_assoc before new answers),
  )

  -- On a network and an allocator that meet NetLaws and AllocLaws, with device functions that meet
  -- PlatformLaws, in a state that is Ready for packets that all meet IsRequest and with more fuel
  -- than packets: the inner loop ends without undefined behaviour, closed and with the client
  -- released, and what it sent is what Answers allows for the packets, in their order.
  pub run-Concluded :
      PlatformLaws P
      → (ps : List (List ℕ)) (fuel : ℕ) → {before : List (List ℕ)} {s : Session C D H}
      → All IsRequest ps
      → length ps < fuel
      → Ready N before (wire ps) s
      → Ensures (Concluded before ps) (run P fuel s)
  unfolding run wire Concluded Added
  run-Concluded L ps zero ok enough r = absurd (omega arith)
  run-Concluded L [] (suc fuel) {before} {s} ok enough r =
      then-Ensures _ _ (step P) _ s (step_at_end N A r) (λ more s' (left, dead, sent, nop).
        rw left (refl, dead, nop, ([], finished, sent ∙ sym (append-nil before))))
  run-Concluded L (p ∷ ps) (suc fuel) {before} {s} (first, others) enough r =
      then-Ensures _ _ (step P) _ s (round-Added L p (wire ps) first r)
        (λ more s' (left, (new, grow, ready)). rw left (
          Ensures-map (λ r' s'. Concluded-cons before p ps new r' s' grow) _
            (run-Concluded L ps fuel others (omega arith) ready)))
