-- ===== src/Network/Contexts/Streaming.antt =====
-- unix/network.c: the network that the worker relies on, from what the system calls do.
use aaruremote.Common.{refl, ℕ, ◌^◌, ◌≤◌, ◌<◌, ◌≡◌, Bool, true, List, [], ◌∷◌, ◌++◌, length, take}
use aaruremote.Worker.Platform.{Platform}
use aaruremote.Worker.Laws.{NetLaws}
use aaruremote.Network.Streams.{RecvLaws, net_recv_lem}
use aaruremote.Network.Peeks.{PeekLaws, net_recv_keeps, net_recv_peek_whole}
use aaruremote.Network.Contexts.{
  Sockets, Net, Connection, recv_on, context_recv, context_write, context_close, on_sockets,
}

-- Streams: recv takes the next bytes in pieces of any size, and a peek for bytes that are all to
-- come shows all of them. A write takes all the bytes that it is given.
pub record StreamLaws {O : Type 0} (S : Sockets O) : Type 0 where
  pub receives : (fd : ℕ) → RecvLaws (recv_on S fd)
  pub peeks : (fd : ℕ) → PeekLaws (recv_on S fd) (λ n. (receives fd).pending n)
  pub prompt :
      (fd : ℕ) (n : Net O) (len : ℕ)
      → len ≤ length ((receives fd).pending n)
      → (peeks fd).arrived n len ≡ len
  pub sent : O → ℕ → List (List ℕ)
  pub recv_sent :
      (os : O) (fd len : ℕ) (peek : Bool) → sent (S.recv os fd len peek).1 fd ≡ sent os fd
  pub write_pending :
      (n : Net O) (fd : ℕ) (b : List ℕ) (size : ℕ)
      → (receives fd).pending (record n { os = (S.write n.os fd b size).1 })
        ≡ (receives fd).pending n
  pub write_sent :
      (os : O) (fd : ℕ) (b : List ℕ) (size : ℕ)
      → size ≤ length b
      → size < 2 ^ 31
      → sent (S.write os fd b size).1 fd ≡ sent os fd ++ take size b ∷ []
  pub close_sent : (os : O) (fd : ℕ) → sent (S.close os fd).1 fd ≡ sent os fd

module _ {O D H : Type 0} {S : Sockets O} (L : StreamLaws S) where
  -- Over system calls that meet StreamLaws, the network functions of unix meet NetLaws, which the
  -- worker relies on, for the bytes to come and the buffers sent of the connection's descriptor.
  pub on_sockets-NetLaws :
      (P : Platform (Connection O) D H)
      → (N : NetLaws (on_sockets S P)) × (N.pending ≡ (λ c. (L.receives c.fd).pending c.net))
        × (N.sent ≡ (λ c. L.sent c.net.os c.fd))
  unfolding context_recv context_write context_close
  on_sockets-NetLaws P = (
    record {
      pending = λ c. (L.receives c.fd).pending c.net;
      sent = λ c. L.sent c.net.os c.fd;
      recv_bytes = λ c n small. (net_recv_lem (L.receives c.fd) c.net n small).0;
      recv_pending = λ c n small. (net_recv_lem (L.receives c.fd) c.net n small).1;
      peek_bytes = λ c n small whole.
          (net_recv_peek_whole (L.peeks c.fd) c.net n small (L.prompt c.fd c.net n) whole).0;
      peek_pending = λ c n small.
          net_recv_keeps (recv_on S c.fd) (λ m. (L.receives c.fd).pending m) {peek = true}
            (λ m k. (L.peeks c.fd).left m k) c.net n;
      recv_sent = λ c n peek.
          net_recv_keeps (recv_on S c.fd) (λ m. L.sent m.os c.fd) {peek = peek}
            (λ m k. L.recv_sent m.os c.fd k peek) c.net n;
      write_pending = λ c b n. L.write_pending c.net c.fd b n;
      write_sent = λ c b n fits small. L.write_sent c.net.os c.fd b n fits small;
      close_sent = λ c. L.close_sent c.net.os c.fd;
    },
    refl,
    refl,
  )
