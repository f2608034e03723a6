-- ===== src/Network/Contexts/Blocks.antt =====
-- unix/network.c: the memory of the contexts.
use aaruremote.Common.{
  ℕ, ◌+◌, ◌≡◌, refl, Option, none, some, Bool-cases, inl, inr, Option-cases, arith,
}
use aaruremote.Network.Contexts.{Sockets, Net, new_context, net_socket, net_accept, context_close}

-- The block of a context that is there.
abbrev pub held : Option ℕ → ℕ
held none = 0
held (some fd) = 1

module _ {O : Type 0} (S : Sockets O) where
  new_context_held :
      (call : O → Option ℕ × O) (n : Net O)
      → let r = new_context S call n in r.1.blocks ≡ n.blocks + held r.0
  unfolding new_context
  new_context_held call n = elim (Bool-cases (S.malloc n.os).0) [
    | inr full ↦ rw full (omega arith)
    | inl room ↦ elim (Option-cases (call (S.malloc n.os).1).0) [
      | inl failed ↦ rw (room, failed) (omega arith)
      | inr (fd, got) ↦ rw (room, got) refl
    ]
  ]

  accept_held :
      (n : Net O) (listening : Option ℕ)
      → let a = net_accept S n listening in a.1.blocks ≡ n.blocks + held a.0
  unfolding net_accept
  accept_held n none = omega arith
  accept_held n (some fd) = new_context_held (λ os. S.accept os fd) n

  close_frees :
      (n : Net O) (ctx : Option ℕ) (k : ℕ)
      → n.blocks ≡ k + held ctx
      → (context_close S n ctx).1.blocks ≡ k
  unfolding context_close
  close_frees n none k e = omega (arith, e)
  close_frees n (some fd) k e = omega (arith, e)

  -- NetSocket and NetAccept hold the memory of a context exactly if they return one, and NetClose
  -- of what they return gives that memory back: it leaves as many contexts allocated as there were.
  pub context_close_returns_block :
      (n : Net O) (listening : Option ℕ)
      → let r = net_socket S n in
        let a = net_accept S n listening in
        (r.1.blocks ≡ n.blocks + held r.0)
        × ((context_close S r.1 r.0).1.blocks ≡ n.blocks)
        × (a.1.blocks ≡ n.blocks + held a.0)
        × ((context_close S a.1 a.0).1.blocks ≡ n.blocks)
  unfolding net_socket
  context_close_returns_block n listening =
      let made = new_context_held S.socket n in
      let accepted = accept_held n listening in
      (made, close_frees _ _ n.blocks made, accepted, close_frees _ _ n.blocks accepted)
