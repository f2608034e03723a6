-- ===== src/Network/Contexts.antt =====
-- unix/network.c: the functions on a NetworkContext, over the system calls as a record. A context is
-- its descriptor, and NULL is `none`; so is a negative result.
pub mod Blocks
pub mod Streaming
use aaruremote.Common.{ℕ, ◌-◌, ◌+◌, Bool, true, false, Option, none, some, List, if◌then◌else◌}
use aaruremote.Network.{net_recv}
use aaruremote.Worker.Platform.{Platform}

-- `O` is the state of the system. The flag of `recv` is MSG_PEEK.
pub record Sockets (O : Type 0) : Type 0 where
  -- Whether there is room for a NetworkContext.
  pub malloc : O → Bool × O
  pub socket : O → Option ℕ × O
  pub bind : O → ℕ → Option ℕ × O
  pub listen : O → ℕ → ℕ → Option ℕ × O
  pub accept : O → ℕ → Option ℕ × O
  pub recv : O → ℕ → ℕ → Bool → Option (List ℕ) × O
  pub write : O → ℕ → List ℕ → ℕ → Option ℕ × O
  pub close : O → ℕ → Option ℕ × O

-- The system, and the number of NetworkContexts that were allocated and not freed.
pub record Net (O : Type 0) : Type 0 where
  pub os : O
  pub blocks : ℕ

module _ {O : Type 0} (S : Sockets O) where
  -- A context for the descriptor that a call gives; its block is freed if the call fails.
  unfoldable pub new_context : (O → Option ℕ × O) → Net O → Option ℕ × Net O
  new_context call n =
      let (room, os) = S.malloc n.os in
      let (fd, os') = call os in
      if room
      then elim fd [
        | none ↦ (none, record n { os = os' })
        | some f ↦ (some f, record { os = os'; blocks = n.blocks + 1 })
      ]
      else (none, record n { os = os })

  -- `NetSocket`
  unfoldable pub net_socket : Net O → Option ℕ × Net O
  unfolding new_context
  net_socket n = new_context S.socket n

  -- `NetAccept`
  unfoldable pub net_accept : Net O → Option ℕ → Option ℕ × Net O
  unfolding new_context
  net_accept n none = (none, n)
  net_accept n (some fd) = new_context (λ os. S.accept os fd) n

  -- `NetBind`
  unfoldable pub net_bind : Net O → Option ℕ → Option ℕ × Net O
  net_bind n none = (none, n)
  net_bind n (some fd) = let (r, os) = S.bind n.os fd in (r, record n { os = os })

  -- `NetListen`
  unfoldable pub net_listen : Net O → Option ℕ → ℕ → Option ℕ × Net O
  net_listen n none backlog = (none, n)
  net_listen n (some fd) backlog =
      let (r, os) = S.listen n.os fd backlog in (r, record n { os = os })

  -- `recv` on a descriptor.
  abbrev pub recv_on : ℕ → Net O → ℕ → Bool → Option (List ℕ) × Net O
  recv_on fd n len peek = let (r, os) = S.recv n.os fd len peek in (r, record n { os = os })

  -- `NetRecv`
  unfoldable pub context_recv : Net O → Option ℕ → ℕ → Bool → Option (List ℕ) × Net O
  context_recv n none len peek = (none, n)
  context_recv n (some fd) len peek = net_recv (recv_on fd) n len peek

  -- `NetWrite`
  unfoldable pub context_write : Net O → Option ℕ → List ℕ → ℕ → Option ℕ × Net O
  context_write n none buffer size = (none, n)
  context_write n (some fd) buffer size =
      let (r, os) = S.write n.os fd buffer size in (r, record n { os = os })

  -- `NetClose`
  unfoldable pub context_close : Net O → Option ℕ → Option ℕ × Net O
  context_close n none = (none, n)
  context_close n (some fd) =
      let (r, os) = S.close n.os fd in (r, record { os = os; blocks = n.blocks - 1 })

-- A connection as the worker has it: the network, and the descriptor in the context that NetAccept
-- returned.
pub record Connection (O : Type 0) : Type 0 where
  pub net : Net O
  pub fd : ℕ

module _ {O D H : Type 0} (S : Sockets O) where
  -- A platform with the network of this file.
  abbrev pub on_sockets : Platform (Connection O) D H → Platform (Connection O) D H
  on_sockets P = record P {
    net_recv = λ c len peek.
        let (r, n) = context_recv S c.net (some c.fd) len peek in (r, record c { net = n });
    net_write =
        λ c buffer size. record c { net = (context_write S c.net (some c.fd) buffer size).1 };
    net_close = λ c. record c { net = (context_close S c.net (some c.fd)).1 };
  }
