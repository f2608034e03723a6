-- ===== src/Worker/Queries/Answers.antt =====
-- worker.c: the answers to the requests that are only a header.
use aaruremote.Common.{
  ℕ, ◌≡◌, refl, false, List, [], ◌∷◌, ◌++◌, length, take_all, length-append, arith,
}
use aaruremote.Common.Bytes.{le_bytes}
use aaruremote.Protocol.Header.{encode_header, own_header}
use aaruremote.Protocol.Types.{
  type_response_get_devtype, type_response_get_usb_data, type_response_get_firewire_data,
  type_response_get_pcmcia_data, type_response_am_i_root,
}
use aaruremote.Protocol.Layout.{length-array}
use aaruremote.Worker.Platform.{Platform}
use aaruremote.Worker.Session.{Session}
use aaruremote.Worker.Laws.{NetLaws, AllocLaws, with_block_runs}
use aaruremote.Worker.Served.{Ensures, Served, Request, Served-by_reply, request_runs, length-reply}
use aaruremote.Worker.Queries.{
  on_get_devtype, on_get_usb_data, on_get_firewire_data, on_get_pcmcia_data, on_am_i_root,
  encode_usb, encode_firewire, encode_pcmcia, usb_size, firewire_size, pcmcia_size,
}

module _ {C D H : Type 0} {P : Platform C D H} (N : NetLaws P) (A : AllocLaws P) where
  -- On a network and an allocator that meet NetLaws and AllocLaws, for a complete Request: the
  -- GET_DEVTYPE case sends one well-formed response and nothing else, and the request is off the
  -- connection.
  pub on_get_devtype-Served :
      {s : Session C D H} {n : ℕ} {p rest : List ℕ}
      → Request N s n p rest
      → Ensures (λ _. Served N (N.sent s.conn) rest type_response_get_devtype) (on_get_devtype P s)
  unfolding on_get_devtype
  on_get_devtype-Served req =
      rw (request_runs N A req _, with_block_runs A 20 _ _)
        (Served-by_reply N req _ 20 _ _ _ refl refl refl refl refl (omega arith) (omega arith) refl
          refl)

  -- On a network and an allocator that meet NetLaws and AllocLaws, for a complete Request: the
  -- AM_I_ROOT case sends one well-formed response and nothing else, and the request is off the
  -- connection.
  pub on_am_i_root-Served :
      {s : Session C D H} {n : ℕ} {p rest : List ℕ}
      → Request N s n p rest
      → Ensures (λ _. Served N (N.sent s.conn) rest type_response_am_i_root) (on_am_i_root P s)
  unfolding on_am_i_root
  on_am_i_root-Served req =
      rw (request_runs N A req _, with_block_runs A 20 _ _)
        (Served-by_reply N req _ 20 _ _ _ refl refl refl refl refl (omega arith) (omega arith) refl
          refl)

  -- On a network and an allocator that meet NetLaws and AllocLaws, for a complete Request: the
  -- GET_USB_DATA case sends one well-formed response and nothing else, and the request is off the
  -- connection.
  pub on_get_usb_data-Served :
      {s : Session C D H} {n : ℕ} {p rest : List ℕ}
      → Request N s n p rest
      → Ensures
          (λ _. Served N (N.sent s.conn) rest type_response_get_usb_data)
          (on_get_usb_data P s)
  unfolding on_get_usb_data encode_usb
  on_get_usb_data-Served req =
      rw (request_runs N A req _, with_block_runs A usb_size _ _)
        (Served-by_reply N req _ usb_size _ _ _ refl refl refl refl refl (omega arith) (omega arith)
          refl (simp (length-append, length-array) (omega arith)))

  -- On a network and an allocator that meet NetLaws and AllocLaws, for a complete Request: the
  -- GET_FIREWIRE_DATA case sends one well-formed response and nothing else, and the request is off
  -- the connection.
  pub on_get_firewire_data-Served :
      {s : Session C D H} {n : ℕ} {p rest : List ℕ}
      → Request N s n p rest
      → Ensures
          (λ _. Served N (N.sent s.conn) rest type_response_get_firewire_data)
          (on_get_firewire_data P s)
  unfolding on_get_firewire_data encode_firewire
  on_get_firewire_data-Served req =
      rw (request_runs N A req _, with_block_runs A firewire_size _ _)
        (Served-by_reply N req _ firewire_size _ _ _ refl refl refl refl refl (omega arith)
          (omega arith) refl (simp (length-append, length-array) (omega arith)))

  -- On a network and an allocator that meet NetLaws and AllocLaws, for a complete Request: the
  -- GET_PCMCIA_DATA case sends one well-formed response and nothing else, and the request is off
  -- the connection.
  pub on_get_pcmcia_data-Served :
      {s : Session C D H} {n : ℕ} {p rest : List ℕ}
      → Request N s n p rest
      → Ensures
          (λ _. Served N (N.sent s.conn) rest type_response_get_pcmcia_data)
          (on_get_pcmcia_data P s)
  unfolding on_get_pcmcia_data encode_pcmcia
  on_get_pcmcia_data-Served req =
      rw (request_runs N A req _, with_block_runs A pcmcia_size _ _)
        (Served-by_reply N req _ pcmcia_size _ _ _ refl refl refl refl refl (omega arith)
          (omega arith) refl (simp (length-array) (omega arith)))

  sent_by_reply :
      (s : Session C D H) (n t : ℕ) (body : List ℕ) (c : C)
      → c ≡ (P.net_recv s.conn n false).1
      → length body ≡ 4
      → let pkt = encode_header (own_header t 20 (0 ∷ 0 ∷ [])) ++ body in
        N.sent (P.net_write c pkt 20) ≡ N.sent s.conn ++ pkt ∷ []
  sent_by_reply s n t body c conn four =
      let size = length-reply t 20 (0 ∷ 0 ∷ []) body refl (omega (arith, four)) in
      let pkt = encode_header (own_header t 20 (0 ∷ 0 ∷ [])) ++ body in
      rw
        (
          N.write_sent c pkt 20 (omega (arith, size)) (omega arith),
          take_all 20 pkt (omega (arith, size)),
          conn,
          N.recv_sent s.conn n false,
        )
        refl

  -- On a network and an allocator that meet NetLaws and AllocLaws, for a complete Request: the
  -- GET_DEVTYPE case sends one well-formed response and nothing else, the request is off the
  -- connection, and the answer is its header and the 32-bit type that GetDeviceType returned for
  -- the current context.
  pub on_get_devtype_lem :
      {s : Session C D H} {n : ℕ} {p rest : List ℕ}
      → Request N s n p rest
      → Ensures
          (λ _ s'.
            Served N (N.sent s.conn) rest type_response_get_devtype s'
            × (N.sent s'.conn
                ≡ N.sent s.conn
                  ++ (encode_header (own_header type_response_get_devtype 20 (0 ∷ 0 ∷ []))
                      ++ le_bytes 4 (P.get_device_type s.devices s.device_ctx).0)
                    ∷ []))
          (on_get_devtype P s)
  unfolding on_get_devtype
  on_get_devtype_lem {s} {n} req =
      rw (request_runs N A req _, with_block_runs A 20 _ _)
        (
          Served-by_reply N req _ 20 _ _ _ refl refl refl refl refl (omega arith) (omega arith) refl
              refl,
          sent_by_reply s n type_response_get_devtype _ _ refl refl,
        )

  -- On a network and an allocator that meet NetLaws and AllocLaws, for a complete Request: the
  -- AM_I_ROOT case sends one well-formed response and nothing else, the request is off the
  -- connection, and the answer is its header and the 32-bit value that AmIRoot returned.
  pub on_am_i_root_lem :
      {s : Session C D H} {n : ℕ} {p rest : List ℕ}
      → Request N s n p rest
      → Ensures
          (λ _ s'.
            Served N (N.sent s.conn) rest type_response_am_i_root s'
            × (N.sent s'.conn
                ≡ N.sent s.conn
                  ++ (encode_header (own_header type_response_am_i_root 20 (0 ∷ 0 ∷ []))
                      ++ le_bytes 4 (P.am_i_root s.devices).0)
                    ∷ []))
          (on_am_i_root P s)
  unfolding on_am_i_root
  on_am_i_root_lem {s} {n} req =
      rw (request_runs N A req _, with_block_runs A 20 _ _)
        (
          Served-by_reply N req _ 20 _ _ _ refl refl refl refl refl (omega arith) (omega arith) refl
              refl,
          sent_by_reply s n type_response_am_i_root _ _ refl refl,
        )
