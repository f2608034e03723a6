-- ===== src/Worker/Loop/Rounds.antt =====
-- worker.c: the rounds of the inner loop, from the packets that a client sends to the answers.
use aaruremote.Common.{
  ℕ, ◌^◌, ◌≤◌, ◌<◌, ◌≡◌, refl, ap, ◌∙◌, Bool, true, false, none, some, List, [], ◌++◌, length, take,
  drop, ◌==◌, if◌then◌else◌, arith, Bool-cases, Option-cases, drop-append_exact, inl, inr,
  length-take, length-append, eq→==,
}
use aaruremote.Common.Bytes.{overwrite}
use aaruremote.Protocol.{packet_version}
use aaruremote.Protocol.Header.{load_header, has_magic, header_size}
use aaruremote.Worker.Platform.{Platform}
use aaruremote.Worker.Session.{Session, M, ◌>>=◌, ◌>>◌, pure, access, current_hdr, release_client}
use aaruremote.Worker.Laws.{NetLaws, AllocLaws, IsWhole, IsWhole-append}
use aaruremote.Worker.Served.{Ensures, Quiet, Request, NopReady, unread}
use aaruremote.Worker.Loop.{dispatch, peek_header, skip_packet, serve_header, serve_next, step}
use aaruremote.Worker.Loop.Header.{load_header-take}
use aaruremote.Worker.Loop.Dispatch.{PlatformLaws, Servable, Handled, dispatch-Handled}

-- A packet as the protocol frames it: its header tells its length.
pub record IsFramed (p : List ℕ) : Type 0 where
  pub long : header_size ≤ length p
  pub announced : (load_header p).len ≡ length p
  pub small : length p < 2 ^ 30
  pub magic : has_magic (load_header p) ≡ true

abbrev pub type_of : List ℕ → ℕ
type_of p = (load_header p).packet_type

module _ {C D H : Type 0} {P : Platform C D H} (N : NetLaws P) where
  -- The state between two rounds: `before` was written, and `rest` is still to be served.
  pub record Ready (before : List (List ℕ)) (rest : List ℕ) (s : Session C D H) : Type 0 where
    pub live : s.client_live ≡ true
    pub to_serve : unread N s ≡ rest
    pub written : N.sent s.conn ≡ before
    pub nop_ready : NopReady N s
    pub bounded : (current_hdr s).len < 2 ^ 31

  -- The state after the packet that was set aside is gone.
  pub record Clear (before : List (List ℕ)) (rest : List ℕ) (s : Session C D H) : Type 0 where
    pub live : s.client_live ≡ true
    pub plain : s.skip_next_hdr ≡ false
    pub to_serve : N.pending s.conn ≡ rest
    pub written : N.sent s.conn ≡ before
    pub nop_ready : NopReady N s

module _ {C D H X : Type 0} where
  pub guarded :
      (b : Bool) (m : M C D H X) (s : Session C D H)
      → b ≡ true
      → (access (if b then some tt else none) >> m) s ≡ m s
  guarded true m s e = refl
  guarded false m s e = cc

module _ {C D H X Y : Type 0} where
  pub bind_runs :
      (m : M C D H X) (f : X → M C D H Y) (s : Session C D H) (x : X) (s' : Session C D H)
      → m s ≡ some (x, s')
      → (m >>= f) s ≡ f x s'
  bind_runs m f s x s' e = rw (◌>>=◌, e) refl

module _ {C D H : Type 0} {P : Platform C D H} (N : NetLaws P) (A : AllocLaws P) where
  then_true :
      (Q : Session C D H → Type 0) (m : M C D H (Unit {0})) (s : Session C D H)
      → Ensures (λ _. Q) (m s)
      → Ensures (λ more s'. (more ≡ true) × Q s') ((m >> pure true) s)
  then_true Q m s q = elim (Option-cases (m s)) [
    | inl e ↦ absurd (rw e at q)
    | inr ((_, s'), e) ↦ rw (◌>>=◌, e) (refl, rw e at q)
  ]

  skip_packet-Clear :
      {before : List (List ℕ)} {rest : List ℕ} {s : Session C D H}
      → Ready N before rest s
      → (s' : Session C D H) × (skip_packet P s ≡ some (true, s')) × Clear N before rest s'
  unfolding skip_packet
  skip_packet-Clear {before} {rest} {s} r = elim (Bool-cases s.skip_next_hdr) [
    | inl e ↦
        let len = (current_hdr s).len in
        (
          record s {
            heap = (P.malloc s.heap len).1;
            conn = (P.net_recv s.conn len false).1;
            skip_next_hdr = false;
          },
          rw (e, A.malloc_succeeds s.heap len) refl,
          record {
            live = r.live;
            plain = refl;
            to_serve = N.recv_pending s.conn len r.bounded ∙ (rw e at r.to_serve);
            written = N.recv_sent s.conn len false ∙ r.written;
            nop_ready = r.nop_ready;
          },
        )
    | inr e ↦ (
      s,
      rw e refl,
      record {
        live = r.live;
        plain = e;
        to_serve = rw e at r.to_serve;
        written = r.written;
        nop_ready = r.nop_ready;
      },
    )
  ]

  -- The state after the header of the next packet was peeked.
  peeked : List ℕ → Session C D H → Session C D H
  peeked got s = record s {
    conn = (P.net_recv s.conn header_size true).1;
    pkt_hdr = overwrite s.pkt_hdr got;
  }

  peek_header_runs :
      {before : List (List ℕ)} {rest : List ℕ} {s : Session C D H}
      → Clear N before rest s
      → IsWhole header_size rest
      → peek_header P s
        ≡ some (some (length (take header_size rest)), peeked (take header_size rest) s)
  unfolding peek_header peeked
  peek_header_runs {s = s} c whole =
      let whole' : IsWhole header_size (N.pending s.conn) = rw c.to_serve whole in
      rw (peek_header, N.peek_bytes s.conn header_size (omega arith) whole', c.to_serve) refl

  serve_next_peeks :
      {before : List (List ℕ)} {rest : List ℕ} {s : Session C D H}
      → Clear N before rest s
      → IsWhole header_size rest
      → (length (take header_size rest) == 0) ≡ false
      → serve_next P s ≡ serve_header P (peeked (take header_size rest) s)
  unfolding serve_next
  serve_next_peeks {s = s} c whole some_bytes =
      rw (◌>>=◌, peek_header_runs c whole) (rw some_bytes refl)

  -- What the round knows of the framed packet at the head of the connection.
  peeked-Request :
      {before : List (List ℕ)} {p rest : List ℕ} {s : Session C D H}
      → Clear N before (p ++ rest) s
      → IsFramed p
      → (load_header (peeked (take header_size (p ++ rest)) s).pkt_hdr ≡ load_header p)
        × (N.sent (peeked (take header_size (p ++ rest)) s).conn ≡ before)
        × Request N (peeked (take header_size (p ++ rest)) s) (length p) p rest
  unfolding peeked
  peeked-Request {before} {p} {rest} {s} c f =
      let loaded = load_header-take p (drop (length (take 16 (p ++ rest))) s.pkt_hdr) rest f.long in
      (
        loaded,
        N.recv_sent s.conn header_size true ∙ c.written,
        record {
          announced = ap (λ h. h.len) loaded ∙ f.announced;
          there = N.peek_pending s.conn header_size (omega arith) ∙ c.to_serve;
          size = refl;
          small = omega (arith, f.small);
          is_live = c.live;
          not_skipping = c.plain;
          nop_ready = c.nop_ready;
        },
      )

  pub some_header :
      (p rest : List ℕ)
      → header_size ≤ length p
      → (length (take header_size (p ++ rest)) == 0) ≡ false
  some_header p rest long =
      let l : 16 ≤ length (p ++ rest) = omega (arith, long, length-append p rest) in
      ground (arith, length-take header_size (p ++ rest))

  header_peeks :
      {before : List (List ℕ)} (p rest : List ℕ) {s : Session C D H}
      → Clear N before (p ++ rest) s
      → header_size ≤ length p
      → serve_next P s ≡ serve_header P (peeked (take header_size (p ++ rest)) s)
  header_peeks p rest c long =
      serve_next_peeks c (IsWhole-append header_size p rest long) (some_header p rest long)

  step-Clear :
      {before : List (List ℕ)} {rest : List ℕ} {s : Session C D H}
      → Ready N before rest s
      → (s' : Session C D H) × (step P s ≡ serve_next P s') × Clear N before rest s'
  unfolding step
  step-Clear {s = s} r =
      let (s', e, c) = skip_packet-Clear r in
      (
        s',
        guarded s.client_live (skip_packet P >>= λ go_on. if go_on then serve_next P else pure true)
              s r.live
            ∙ bind_runs (skip_packet P) (λ go_on. if go_on then serve_next P else pure true) s true
                s' e,
        c,
      )

  -- On a network and an allocator that meet NetLaws and AllocLaws, in a state that is Ready for a
  -- framed packet whose version is not the server's: one round of the loop goes on, nothing is
  -- sent, and what comes behind the packet is left to be served.
  pub step_of_other_version :
      {before : List (List ℕ)} (p rest : List ℕ) {s : Session C D H}
      → Ready N before (p ++ rest) s
      → IsFramed p
      → ((load_header p).version == packet_version) ≡ false
      → Ensures (λ more s'. (more ≡ true) × Quiet N before rest s') (step P s)
  unfolding serve_header
  step_of_other_version {before} p rest r f other =
      let (s', e, c) = step-Clear r in
      let (loaded, before_same, req) = peeked-Request c f in
      rw (e, header_peeks p rest c f.long, loaded, f.magic, other)
        (
          refl,
          record {
            live = req.is_live;
            consumed = rw (req.announced, req.there) (drop-append_exact (length p) p rest refl);
            unwritten = before_same;
            nop_kept = req.nop_ready;
            bounded = rw req.announced req.small;
          },
        )

  -- On a network and an allocator that meet NetLaws and AllocLaws, in a state that is Ready with
  -- nothing left to serve: one round of the loop leaves it with the client released, nothing more
  -- sent, and the NOP packet's header as it was prepared.
  pub step_at_end :
      {before : List (List ℕ)} {s : Session C D H}
      → Ready N before [] s
      → Ensures
          (λ more s'.
            (more ≡ false) × (s'.client_live ≡ false) × (N.sent s'.conn ≡ before) × NopReady N s')
          (step P s)
  unfolding serve_next release_client peeked
  step_at_end {before} r =
      let (s', e, c) = step-Clear r in
      rw (e, ◌>>=◌, peek_header_runs c (inr refl))
        (refl, refl, N.close_sent _ ∙ N.recv_sent s'.conn header_size true ∙ c.written, c.nop_ready)

  -- On a network and an allocator that meet NetLaws and AllocLaws, in a state that is Ready for a
  -- packet of 16 bytes or more without the protocol's identifiers: one round of the loop leaves it
  -- with the client released and nothing more sent.
  pub step_without_magic :
      {before : List (List ℕ)} (p rest : List ℕ) {s : Session C D H}
      → Ready N before (p ++ rest) s
      → header_size ≤ length p
      → has_magic (load_header p) ≡ false
      → Ensures
          (λ more s'. (more ≡ false) × (s'.client_live ≡ false) × (N.sent s'.conn ≡ before))
          (step P s)
  unfolding serve_header release_client peeked
  step_without_magic {before} p rest r long other =
      let (s', e, c) = step-Clear r in
      rw
        (
          e,
          header_peeks p rest c long,
          load_header-take p (drop (length (take 16 (p ++ rest))) s'.pkt_hdr) rest long,
          other,
        )
        (refl, refl, N.close_sent _ ∙ N.recv_sent s'.conn header_size true ∙ c.written)

  -- On a network and an allocator that meet NetLaws and AllocLaws, with device functions that meet
  -- PlatformLaws, in a state that is Ready for a framed packet of the server's version that is
  -- Servable: one round of the loop goes on, deals with the packet as Handled says, and leaves what
  -- comes behind it to be served.
  pub step-Handled :
      {before : List (List ℕ)} (p rest : List ℕ) {s : Session C D H}
      → PlatformLaws P
      → Ready N before (p ++ rest) s
      → IsFramed p
      → (load_header p).version ≡ packet_version
      → Servable p (type_of p)
      → Ensures (λ more s'. (more ≡ true) × Handled N A (type_of p) before rest s') (step P s)
  unfolding serve_header
  step-Handled {before} p rest L r f version servable =
      let (s', e, c) = step-Clear r in
      let (loaded, before_same, req) = peeked-Request c f in
      rw (e, header_peeks p rest c f.long, loaded, f.magic, eq→== _ _ version)
        (then_true (Handled N A (type_of p) before rest) (dispatch P (type_of p)) _
          (rw before_same at (dispatch-Handled N A L (type_of p) servable req f.small)))
