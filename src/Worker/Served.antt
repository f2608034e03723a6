-- ===== src/Worker/Served.antt =====
-- worker.c: what it means that a case of the switch has served a request, and the rules by which
-- each case is shown to.
use aaruremote.Common.{
  ℕ, ◌+◌, ◌^◌, ◌≤◌, ◌<◌, ◌≡◌, refl, ap, ◌∙◌, true, false, Option, none, some, List, [], ◌∷◌, ◌++◌,
  length, take, drop, take_all, length-append, length-take, length-drop, arith, if◌then◌else◌,
}
use aaruremote.Common.Bytes.{IsByte, le_bytes}
use aaruremote.Protocol.{remote_id_magic, packet_id_magic, packet_version}
use aaruremote.Protocol.Header.{
  encode_header, load_header, own_header, header_size, load_header-encode_header,
  length-encode_header,
}
use aaruremote.Protocol.Types.{type_nop}
use aaruremote.Protocol.Structs.{array, AaruPacketNop, encode_nop, nop_size}
use aaruremote.Protocol.Layout.{length-array}
use aaruremote.Worker.Platform.{Platform}
use aaruremote.Worker.Session.{Session, M, with_packet, send_nop, current_hdr}
use aaruremote.Worker.Laws.{
  NetLaws, AllocLaws, after_malloc, after_recv, with_packet_runs, pending-after_recv,
}

-- The computation ends without undefined behaviour, in a state with the property.
abbrev pub Ensures : {A S : Type 0} → (A → S → Type 0) → Option (A × S) → Type 0
Ensures Q none = ⊥
Ensures Q (some (a, s)) = Q a s

pub Ensures-map :
    {A S : Type 0} {Q R : A → S → Type 0}
    → ((a : A) (s : S) → Q a s → R a s)
    → (o : Option (A × S)) → Ensures Q o
    → Ensures R o
Ensures-map f none q = q
Ensures-map f (some (a, s)) q = f a s q

-- A packet that starts with the server's own header, with this type and the packet's real length.
pub record IsAnswer (packet_type : ℕ) (pkt : List ℕ) : Type 0 where
  pub own_remote_id : (load_header pkt).remote_id ≡ remote_id_magic
  pub own_packet_id : (load_header pkt).packet_id ≡ packet_id_magic
  pub own_version : (load_header pkt).version ≡ packet_version
  pub own_type : (load_header pkt).packet_type ≡ packet_type
  pub own_len : (load_header pkt).len ≡ length pkt

pub reply-IsAnswer :
    (t n : ℕ) (spare body : List ℕ)
    → IsByte t
    → n < 2 ^ 32
    → length spare ≡ 2
    → length body + header_size ≡ n
    → IsAnswer t (encode_header (own_header t n spare) ++ body)
unfolding own_header
reply-IsAnswer t n spare body ht hn hs hb =
    let hdr = own_header t n spare in
    let loaded = load_header-encode_header hdr body (omega arith) in
    record {
      own_remote_id = ap (λ h. h.remote_id) loaded;
      own_packet_id = ap (λ h. h.packet_id) loaded;
      own_version = ap (λ h. h.version) loaded;
      own_type = ap (λ h. h.packet_type) loaded;
      own_len =
          ap (λ h. h.len) loaded
          ∙ omega (arith, length-append (encode_header hdr) body, length-encode_header hdr hs);
    }

pub length-reply :
    (t m : ℕ) (spare body : List ℕ)
    → length spare ≡ 2
    → length body + header_size ≡ m
    → length (encode_header (own_header t m spare) ++ body) ≡ m
length-reply t m spare body two size =
    let hdr = own_header t m spare in
    omega (
      arith,
      length-append (encode_header hdr) body,
      length-encode_header hdr (unfold own_header in two),
    )

module _ {C D H : Type 0} {P : Platform C D H} (N : NetLaws P) where
  -- What was not yet served of what the client sends: a packet that was set aside is not.
  abbrev pub unread : Session C D H → List ℕ
  unread s =
      if s.skip_next_hdr then drop (current_hdr s).len (N.pending s.conn) else N.pending s.conn

  -- The header of the NOP packet is as it was prepared.
  abbrev pub NopReady : Session C D H → Type 0
  NopReady s = s.pkt_nop.hdr ≡ own_header type_nop nop_size (0 ∷ 0 ∷ [])

  -- The client is still served, the request is off the connection, and one answer of type `t` is
  -- the only thing that was written since `before`.
  pub record Served (before : List (List ℕ)) (rest : List ℕ) (t : ℕ) (s : Session C D H)
      : Type 0 where
    pub live : s.client_live ≡ true
    pub consumed : unread s ≡ rest
    pub answer : List ℕ
    pub written : N.sent s.conn ≡ before ++ answer ∷ []
    pub well_formed : IsAnswer t answer
    pub nop_kept : NopReady s
    pub bounded : (current_hdr s).len < 2 ^ 31

  -- The client is still served, the request is off the connection, and nothing was written.
  pub record Quiet (before : List (List ℕ)) (rest : List ℕ) (s : Session C D H) : Type 0 where
    pub live : s.client_live ≡ true
    pub consumed : unread s ≡ rest
    pub unwritten : N.sent s.conn ≡ before
    pub nop_kept : NopReady s
    pub bounded : (current_hdr s).len < 2 ^ 31

  -- The request `p` of the announced length is the next thing on the connection of a live client.
  pub record Request (s : Session C D H) (n : ℕ) (p rest : List ℕ) : Type 0 where
    pub announced : (current_hdr s).len ≡ n
    pub there : N.pending s.conn ≡ p ++ rest
    pub size : length p ≡ n
    pub small : n < 2 ^ 31
    pub is_live : s.client_live ≡ true
    pub not_skipping : s.skip_next_hdr ≡ false
    pub nop_ready : NopReady s

  header_bound :
      {s : Session C D H} {n : ℕ} {p rest : List ℕ}
      → Request s n p rest
      → (s' : Session C D H) → s'.pkt_hdr ≡ s.pkt_hdr
      → (current_hdr s').len < 2 ^ 31
  header_bound req s' e = rw (e, req.announced) req.small

  -- The last step of a case: one `NetWrite` of a whole well-formed packet.
  pub Served-by_write :
      (before : List (List ℕ)) (rest : List ℕ) (t n : ℕ) (pkt : List ℕ) (s : Session C D H)
      → s.client_live ≡ true
      → s.skip_next_hdr ≡ false
      → N.pending s.conn ≡ rest
      → N.sent s.conn ≡ before
      → NopReady s
      → (current_hdr s).len < 2 ^ 31
      → length pkt ≡ n
      → n < 2 ^ 31
      → IsAnswer t pkt
      → Served before rest t (record s { conn = P.net_write s.conn pkt n })
  Served-by_write before rest t n pkt s live plain pending sent nop bound size small ok = record {
    live = live;
    consumed = rw plain (N.write_pending s.conn pkt n ∙ pending);
    answer = pkt;
    written =
        rw (N.write_sent s.conn pkt n (omega arith) small, sent, take_all n pkt (omega arith)) refl;
    well_formed = ok;
    nop_kept = nop;
    bounded = bound;
  }

  -- The same for a case that received the request and then changed only the heap, the devices and
  -- the variables, and that sends `body` behind its own header.
  pub Served-by_reply :
      {s : Session C D H} {n : ℕ} {p rest : List ℕ}
      → Request s n p rest
      → (t m : ℕ) (spare body : List ℕ) (s' : Session C D H)
      → s'.conn ≡ (P.net_recv s.conn n false).1
      → s'.client_live ≡ s.client_live
      → s'.skip_next_hdr ≡ s.skip_next_hdr
      → s'.pkt_nop ≡ s.pkt_nop
      → s'.pkt_hdr ≡ s.pkt_hdr
      → IsByte t
      → m < 2 ^ 31
      → length spare ≡ 2
      → length body + header_size ≡ m
      → Served (N.sent s.conn) rest t (record s' {
        conn = P.net_write s'.conn (encode_header (own_header t m spare) ++ body) m;
      })
  Served-by_reply {s} {n} {p} {rest} req t m spare body s' conn live plain nop hdr byte small two
        size =
      Served-by_write (N.sent s.conn) rest t m (encode_header (own_header t m spare) ++ body) s'
        (live ∙ req.is_live) (plain ∙ req.not_skipping)
        (ap N.pending conn ∙ pending-after_recv N s n p rest req.there req.size req.small)
        (ap N.sent conn ∙ N.recv_sent s.conn n false)
        (ap (λ (q : AaruPacketNop). q.hdr) nop ∙ req.nop_ready) (header_bound req s' hdr)
        (length-reply t m spare body two size) small
        (reply-IsAnswer t m spare body byte (omega arith) two size)

-- The spare bytes of a header in a block that is large enough for one.
pub length-leftover_spare :
    (raw : List ℕ) → header_size ≤ length raw → length (take 2 (drop 14 raw)) ≡ 2
length-leftover_spare raw h = omega (arith, length-take 2 (drop 14 raw), length-drop 14 raw)

-- A NOP packet with the prepared header is well formed, whatever its reason and error are.
pub nop-IsAnswer :
    (nop : AaruPacketNop)
    → nop.hdr ≡ own_header type_nop nop_size (0 ∷ 0 ∷ [])
    → (length (encode_nop nop) ≡ nop_size) × IsAnswer type_nop (encode_nop nop)
unfolding encode_nop
nop-IsAnswer nop e =
    let body =
      nop.reason_code ∷ (array 3 nop.spare ++ (array 256 nop.reason ++ le_bytes 4 nop.error_no)) in
    let size : length body + header_size ≡ nop_size =
      simp (length-append, length-array) (omega arith) in
    rw e (
      length-reply type_nop nop_size _ body refl size,
      reply-IsAnswer type_nop nop_size _ body (omega arith) (omega arith) refl size,
    )

module _ {C D H : Type 0} {P : Platform C D H} (N : NetLaws P) (A : AllocLaws P) where
  -- `with_packet` on a request that is there.
  pub request_runs :
      {s : Session C D H} {n : ℕ} {p rest : List ℕ}
      → Request N s n p rest
      → (k : List ℕ → M C D H (Unit {0}))
      → with_packet P k s ≡ k p (after_recv P n (after_malloc P n s))
  request_runs {s} {n} {p} {rest} req k =
      with_packet_runs N A k s n p rest req.announced req.there req.size req.small

module _ {C D H : Type 0} {P : Platform C D H} (N : NetLaws P) where
  -- A case that received the request and ends with a NOP packet.
  pub Served-by_nop :
      {s : Session C D H} {n : ℕ} {p rest : List ℕ}
      → Request N s n p rest
      → (code : ℕ) (text : List ℕ) (s' : Session C D H) → s'.conn ≡ (P.net_recv s.conn n false).1
      → s'.client_live ≡ s.client_live
      → s'.skip_next_hdr ≡ s.skip_next_hdr
      → s'.pkt_nop.hdr ≡ s.pkt_nop.hdr
      → s'.pkt_hdr ≡ s.pkt_hdr
      → Ensures (λ _. Served N (N.sent s.conn) rest type_nop) (send_nop P code text s')
  unfolding send_nop
  Served-by_nop {s} {n} {p} {rest} req code text s' conn live plain nop_hdr hdr =
      let nop : AaruPacketNop = record s'.pkt_nop { reason_code = code; reason = text } in
      let ok = nop-IsAnswer nop (nop_hdr ∙ req.nop_ready) in
      Served-by_write N (N.sent s.conn) rest type_nop nop_size (encode_nop nop)
        (record s' { pkt_nop = nop }) (live ∙ req.is_live) (plain ∙ req.not_skipping)
        (ap N.pending conn ∙ pending-after_recv N s n p rest req.there req.size req.small)
        (ap N.sent conn ∙ N.recv_sent s.conn n false) (nop_hdr ∙ req.nop_ready)
        (header_bound N req s' hdr) ok.0 (omega arith) ok.1
