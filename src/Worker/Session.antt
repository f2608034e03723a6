-- ===== src/Worker/Session.antt =====
-- worker.c: the variables that `WorkingLoop` keeps while it serves one client, and the steps that
-- its cases share. `none` is undefined behaviour: an access outside a block, to a freed block or
-- through a wild or null pointer.
use aaruremote.Common.{ℕ, Bool, true, false, Option, none, some, List, [], ◌∷◌}
use aaruremote.Common.Bytes.{overwrite}
use aaruremote.Protocol.Types.{type_nop}
use aaruremote.Protocol.Header.{AaruPacketHeader, load_header, own_header}
use aaruremote.Protocol.Structs.{AaruPacketNop, encode_nop, nop_size}
use aaruremote.Worker.Platform.{Platform}

pub record Session (C D H : Type 0) : Type 0 where
  pub conn : C
  pub devices : D
  pub heap : H
  -- The block at `pkt_hdr`, and whether it and `cli_ctx` are still allocated.
  pub pkt_hdr : List ℕ
  pub client_live : Bool
  pub device_ctx : ℕ
  pub pkt_nop : AaruPacketNop
  pub skip_next_hdr : Bool
  -- Whether the variable `sense_buf` holds NULL; else it is uninitialised or dangles.
  pub sense_buf_null : Bool

abbrev pub M : Type 0 → Type 0 → Type 0 → Type 0 → Type 0
M C D H A = Session C D H → Option (A × Session C D H)

infixl 5 ◌>>=◌ ◌>>◌
abbrev pub ◌>>=◌ : {C D H A B : Type 0} → M C D H A → (A → M C D H B) → M C D H B
◌>>=◌ m f s = elim (m s) [ none ↦ none | some (a, s') ↦ f a s' ]

abbrev pub ◌>>◌ : {C D H A B : Type 0} → M C D H A → M C D H B → M C D H B
m >> k = m >>= λ _. k

abbrev pub pure : {C D H A : Type 0} → A → M C D H A
pure a s = some (a, s)

-- A value that an access yields, or undefined behaviour.
abbrev pub access : {C D H A : Type 0} → Option A → M C D H A
access none s = none
access (some a) s = some (a, s)

-- The header last received.
abbrev pub current_hdr : {C D H : Type 0} → Session C D H → AaruPacketHeader
current_hdr s = load_header s.pkt_hdr

abbrev pub get : {C D H : Type 0} → M C D H (Session C D H)
get s = some (s, s)

module _ {C D H : Type 0} (P : Platform C D H) where
  abbrev pub malloc : ℕ → M C D H (Option (List ℕ))
  malloc n s = let (b, h) = P.malloc s.heap n in some (b, record s { heap = h })

  -- `NetRecv` into a block of `n` bytes with the content `raw`; its result is ignored.
  abbrev pub recv_into : List ℕ → ℕ → M C D H (List ℕ)
  recv_into raw n s =
      let (r, c) = P.net_recv s.conn n false in
      some (overwrite raw (elim r [ none ↦ [] | some got ↦ got ]), record s { conn = c })

  abbrev pub net_write : List ℕ → ℕ → M C D H (Unit {0})
  net_write buf n s = some (tt, record s { conn = P.net_write s.conn buf n })

  -- `free(pkt_hdr); NetClose(cli_ctx);`, after which the cases say `continue` all the same.
  unfoldable pub release_client : M C D H (Unit {0})
  release_client s = some (tt, record s { conn = P.net_close s.conn; client_live = false })

  -- A call of a device function.
  abbrev pub device : {A : Type 0} → (D → A × D) → M C D H A
  device f s = let (a, d) = f s.devices in some (a, record s { devices = d })

  -- `in_buf = malloc(le32toh(pkt_hdr->len))`, the check of it, and `NetRecv` into it.
  unfoldable pub with_packet : (List ℕ → M C D H (Unit {0})) → M C D H (Unit {0})
  unfolding release_client
  with_packet k = do
    s ← get
    b ← malloc (current_hdr s).len
    elim b [
      | none ↦ release_client
      | some raw ↦ do in_buf ← recv_into raw (current_hdr s).len; k in_buf
    ]

  -- A block for a reply, with the check that the cases make.
  unfoldable pub with_block : ℕ → (List ℕ → M C D H (Unit {0})) → M C D H (Unit {0})
  unfolding release_client
  with_block n k = do b ← malloc n; elim b [ none ↦ release_client | some raw ↦ k raw ]

  -- `memset(&pkt_nop->reason, 0, 256)`, the new reason and text, and `NetWrite` of `*pkt_nop`.
  unfoldable pub send_nop : ℕ → List ℕ → M C D H (Unit {0})
  send_nop code text s =
      let nop = record s.pkt_nop { reason_code = code; reason = text } in
      some (tt, record s { pkt_nop = nop; conn = P.net_write s.conn (encode_nop nop) nop_size })

  abbrev pub set_error_no : ℕ → M C D H (Unit {0})
  set_error_no e s = some (tt, record s { pkt_nop = record s.pkt_nop { error_no = e } })

  abbrev pub set_skip : M C D H (Unit {0})
  set_skip s = some (tt, record s { skip_next_hdr = true })

  abbrev pub set_device : ℕ → M C D H (Unit {0})
  set_device ctx s = some (tt, record s { device_ctx = ctx })

-- The `pkt_nop` that `WorkingLoop` prepares before it waits for a client.
unfoldable pub initial_nop : AaruPacketNop
initial_nop = record {
  hdr = own_header type_nop nop_size (0 ∷ 0 ∷ []);
  reason_code = 0;
  spare = [];
  reason = [];
  error_no = 0;
}
