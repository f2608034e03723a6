-- ===== src/Worker/Loop/Greeting.antt =====
-- worker.c: the handshake with a client, and the whole of what one client gets.
use aaruremote.Common.{
  ℕ, ◌≤◌, ◌<◌, ◌≡◌, refl, ap, ◌∙◌, true, false, some, List, [], ◌∷◌, ◌++◌, length, take, drop,
  arith, eq→==, drop-append_exact, take-append_exact, drop_all, append-nil, take_all, All,
}
use aaruremote.Common.Bytes.{overwrite, read_at_inside}
use aaruremote.Protocol.{packet_version}
use aaruremote.Protocol.Types
use aaruremote.Protocol.Header.{load_header, header_size}
use aaruremote.Protocol.Structs.{hello_size}
use aaruremote.Worker.Platform.{Platform}
use aaruremote.Worker.Session.{Session, ◌>>=◌}
use aaruremote.Worker.Laws.{NetLaws, AllocLaws, IsWhole, IsWhole-append}
use aaruremote.Worker.Served.{Ensures, NopReady}
use aaruremote.Worker.Control.{c_string}
use aaruremote.Worker.Loop.{
  served, handshake, peek_header, expect_hello, receive_hello, serve_client, run, Run,
}
use aaruremote.Worker.Loop.Header.{load_header-take}
use aaruremote.Worker.Loop.Dispatch.{PlatformLaws}
use aaruremote.Worker.Loop.Rounds.{IsFramed, type_of, Ready, some_header}
use aaruremote.Worker.Loop.Conversation.{IsRequest, wire, Concluded, run-Concluded, then-Ensures}

-- The start of a buffer is a C string that ends inside it.
abbrev pub IsText : List ℕ → Type 0
IsText b = (text : List ℕ) × (c_string b ≡ some text)

-- A client's hello packet: framed, of the server's version, and with terminated texts.
pub record IsHello (p : List ℕ) : Type 0 where
  pub framed : IsFramed p
  pub version : (load_header p).version ≡ packet_version
  pub type_hello : type_of p ≡ Types.type_hello
  pub application : IsText (drop 16 p)
  pub app_version : IsText (drop 144 p)
  pub sysname : IsText (drop 212 p)
  pub release : IsText (drop 468 p)
  pub machine : IsText (drop 724 p)
  pub whole : 209 ≤ length p

module _ {C D H : Type 0} {P : Platform C D H} (N : NetLaws P) (A : AllocLaws P) where
  -- A connection that was just accepted.
  pub record Accepted (sends : List ℕ) (s : Session C D H) : Type 0 where
    pub to_come : N.pending s.conn ≡ sends
    pub nothing_sent : N.sent s.conn ≡ []
    pub nop_ready : NopReady N s

  abbrev greeted : List ℕ → Session C D H → Session C D H
  greeted server_hello s = record s {
    conn = (P.net_recv (P.net_write s.conn server_hello hello_size) header_size true).1;
    heap = (P.malloc s.heap header_size).1;
    pkt_hdr = overwrite (A.fresh s.heap header_size) (take header_size (N.pending s.conn));
    client_live = true;
  }

  handshake_greets :
      (p rest server_hello : List ℕ) {s : Session C D H}
      → Accepted (p ++ rest) s
      → header_size ≤ length p
      → handshake P server_hello s ≡ expect_hello P (greeted server_hello s)
  unfolding handshake peek_header
  handshake_greets p rest server_hello {s} a long =
      let conn = P.net_write s.conn server_hello hello_size in
      let whole : IsWhole header_size (N.pending conn) =
        rw (N.write_pending s.conn server_hello hello_size, a.to_come)
          (IsWhole-append header_size p rest long) in
      rw
        (
          A.malloc_succeeds s.heap header_size,
          ◌>>=◌,
          peek_header,
          N.peek_bytes conn header_size (omega arith) whole,
          N.write_pending s.conn server_hello hello_size,
          a.to_come,
          some_header N A p rest long,
        )
        refl

  -- The client's hello packet is received whole and accepted.
  hello_accepted :
      (p rest : List ℕ) (raw : List ℕ) (s : Session C D H)
      → IsHello p
      → N.pending s.conn ≡ p ++ rest
      → length raw ≡ length p
      → receive_hello P raw (length p) s
        ≡ some (served, record s { conn = (P.net_recv s.conn (length p) false).1 })
  unfolding receive_hello
  hello_accepted p rest raw s h there size =
      rw
        (
          receive_hello,
          N.recv_bytes s.conn (length p) (omega (arith, h.framed.small)),
          there,
          take-append_exact (length p) p rest refl,
          eq→== (length p) (length p) refl,
          drop_all (length p) raw (omega arith),
          append-nil p,
          h.application.1,
          h.app_version.1,
          h.sysname.1,
          h.release.1,
          h.machine.1,
          read_at_inside p 208 1 (omega (arith, h.whole)),
        )
        refl

  expect_hello_accepts :
      (p rest : List ℕ) (s : Session C D H)
      → IsHello p
      → N.pending s.conn ≡ p ++ rest
      → load_header s.pkt_hdr ≡ load_header p
      → expect_hello P s
        ≡ some (
          served,
          record s {
            heap = (P.malloc s.heap (length p)).1;
            conn = (P.net_recv s.conn (length p) false).1;
          },
        )
  unfolding expect_hello
  expect_hello_accepts p rest s h there loaded =
      rw
        (
          loaded,
          h.framed.magic,
          eq→== _ _ h.version,
          eq→== _ _ h.type_hello,
          h.framed.announced,
          A.malloc_succeeds s.heap (length p),
          loaded,
          h.framed.announced,
        )
        (hello_accepted p rest (A.fresh s.heap (length p))
          (record s { heap = (P.malloc s.heap (length p)).1 }) h there (A.fresh_size s.heap _))

  -- On a network and an allocator that meet NetLaws and AllocLaws, on a new connection on which the
  -- client sends a hello packet that meets IsHello: the handshake, given a server hello packet of
  -- hello_size bytes, ends in served, with that packet the only one sent, and after the skip flag
  -- is cleared the state is Ready for what comes behind the client's hello packet.
  pub handshake-Ready :
      (p rest server_hello : List ℕ) {s : Session C D H}
      → Accepted (p ++ rest) s
      → length server_hello ≡ hello_size
      → IsHello p
      → Ensures
          (λ h s'.
            (h ≡ served) × Ready N (server_hello ∷ []) rest (record s' { skip_next_hdr = false }))
          (handshake P server_hello s)
  handshake-Ready p rest server_hello {s} a size h =
      let g = greeted server_hello s in
      let loaded : load_header g.pkt_hdr ≡ load_header p = rw a.to_come (
        load_header-take p (drop (length (take 16 (p ++ rest))) (A.fresh s.heap header_size)) rest
          h.framed.long) in
      let there : N.pending g.conn ≡ p ++ rest =
        N.peek_pending _ header_size (omega arith)
        ∙ N.write_pending s.conn server_hello hello_size
        ∙ a.to_come in
      let sent : N.sent g.conn ≡ server_hello ∷ [] =
        N.recv_sent _ header_size true
        ∙ N.write_sent s.conn server_hello hello_size (omega (arith, size)) (omega arith)
        ∙ rw (a.nothing_sent, take_all hello_size server_hello (omega (arith, size))) refl in
      rw
        (
          handshake_greets p rest server_hello a h.framed.long,
          expect_hello_accepts p rest g h there loaded,
        )
        (
          refl,
          record {
            live = refl;
            to_serve =
                N.recv_pending g.conn (length p) (omega (arith, h.framed.small))
                ∙ rw there (drop-append_exact (length p) p rest refl);
            written = N.recv_sent g.conn (length p) false ∙ sent;
            nop_ready = a.nop_ready;
            bounded = omega (arith, ap (λ q. q.len) loaded ∙ h.framed.announced, h.framed.small);
          },
        )

  -- On a network and an allocator that meet NetLaws and AllocLaws, with device functions that meet
  -- PlatformLaws, a new connection on which the client sends a hello packet that meets IsHello and
  -- then any packets that meet IsRequest, and more fuel than packets: serve_client, given a server
  -- hello packet of hello_size bytes, ends without undefined behaviour and with the inner loop left
  -- and the client released; what was sent is the server's hello packet followed by the answers
  -- that Answers allows for the packets, in their order.
  pub serve_client-Concluded :
      (p server_hello : List ℕ) (ps : List (List ℕ)) (fuel : ℕ) {s : Session C D H}
      → PlatformLaws P
      → Accepted (p ++ wire ps) s
      → length server_hello ≡ hello_size
      → IsHello p
      → All IsRequest ps
      → length ps < fuel
      → Ensures
          (λ o s'. (r : Run) × (o ≡ some r) × Concluded N A (server_hello ∷ []) ps r s')
          (serve_client P server_hello fuel s)
  unfolding serve_client
  serve_client-Concluded p server_hello ps fuel {s} L a size h ok enough =
      then-Ensures _ _ (handshake P server_hello) _ s
        (handshake-Ready p (wire ps) server_hello a size h)
        (λ o s' (greeting, ready). rw greeting (
          then-Ensures _ _ (run P fuel) _ (record s' { skip_next_hdr = false })
            (run-Concluded N A L ps fuel ok enough ready) (λ r s'' done. (r, refl, done))))
