-- ===== src/Worker/Laws.antt =====
-- What the worker relies on: a network and an allocator that work. The other modules of the folder
-- take these as hypotheses; Network.antt is about the receiving half of the first.
use aaruremote.Common.{
  sym, ◌∙◌, ℕ, ◌^◌, ◌≤◌, ◌<◌, ◌≡◌, Bool, true, false, some, List, [], ◌∷◌, ◌++◌, length, take, drop,
  ◌⊎◌, inl, length-append, append-nil, take-append_exact, drop-append_exact, drop_all, arith,
}
use aaruremote.Common.Bytes.{overwrite}
use aaruremote.Worker.Platform.{Platform}
use aaruremote.Worker.Session.{Session, M, current_hdr, with_packet, with_block}

-- All the bytes that are asked for are to come, or none at all: a peek is only then sure to show
-- what is to come.
abbrev pub IsWhole : ℕ → List ℕ → Type 0
IsWhole n p = (n ≤ length p) ⊎ (p ≡ [])

pub IsWhole-append : (n : ℕ) (p rest : List ℕ) → n ≤ length p → IsWhole n (p ++ rest)
IsWhole-append n p rest long = inl (omega (arith, long, length-append p rest))

-- The connection seen from outside: the bytes that the client has sent or will send and that were
-- not received, and the buffers that were written. The client then closes its side.
pub record NetLaws {C D H : Type 0} (P : Platform C D H) : Type 0 where
  pub pending : C → List ℕ
  pub sent : C → List (List ℕ)
  pub recv_bytes :
      (c : C) (n : ℕ) → n < 2 ^ 31 → (P.net_recv c n false).0 ≡ some (take n (pending c))
  pub peek_bytes :
      (c : C) (n : ℕ)
      → n < 2 ^ 31
      → IsWhole n (pending c)
      → (P.net_recv c n true).0 ≡ some (take n (pending c))
  pub recv_pending :
      (c : C) (n : ℕ) → n < 2 ^ 31 → pending (P.net_recv c n false).1 ≡ drop n (pending c)
  pub peek_pending : (c : C) (n : ℕ) → n < 2 ^ 31 → pending (P.net_recv c n true).1 ≡ pending c
  pub recv_sent : (c : C) (n : ℕ) (peek : Bool) → sent (P.net_recv c n peek).1 ≡ sent c
  pub write_pending : (c : C) (b : List ℕ) (n : ℕ) → pending (P.net_write c b n) ≡ pending c
  pub write_sent :
      (c : C) (b : List ℕ) (n : ℕ)
      → n ≤ length b
      → n < 2 ^ 31
      → sent (P.net_write c b n) ≡ sent c ++ take n b ∷ []
  pub close_sent : (c : C) → sent (P.net_close c) ≡ sent c

-- An allocator that has room for every block that the worker asks for.
pub record AllocLaws {C D H : Type 0} (P : Platform C D H) : Type 0 where
  pub fresh : H → ℕ → List ℕ
  pub fresh_size : (h : H) (n : ℕ) → length (fresh h n) ≡ n
  pub malloc_succeeds : (h : H) (n : ℕ) → (P.malloc h n).0 ≡ some (fresh h n)

overwrite_all : (raw got : List ℕ) → length got ≡ length raw → overwrite raw got ≡ got
overwrite_all raw got h = rw (drop_all (length got) raw (omega arith)) (append-nil got)

module _ {C D H : Type 0} (P : Platform C D H) where
  -- The state after a block of `n` bytes was allocated, and after that many bytes were received.
  abbrev pub after_malloc : ℕ → Session C D H → Session C D H
  after_malloc n s = record s { heap = (P.malloc s.heap n).1 }

  abbrev pub after_recv : ℕ → Session C D H → Session C D H
  after_recv n s = record s { conn = (P.net_recv s.conn n false).1 }

module _ {C D H : Type 0} {P : Platform C D H} (N : NetLaws P) (A : AllocLaws P) where
  -- When the packet of the announced length is there, the case gets exactly its bytes.
  pub with_packet_runs :
      (k : List ℕ → M C D H (Unit {0})) (s : Session C D H) (n : ℕ) (p rest : List ℕ)
      → (current_hdr s).len ≡ n
      → N.pending s.conn ≡ p ++ rest
      → length p ≡ n
      → n < 2 ^ 31
      → with_packet P k s ≡ k p (after_recv P n (after_malloc P n s))
  unfolding with_packet
  with_packet_runs k s n p rest e there size small = rw (
    e,
    A.malloc_succeeds s.heap n,
    e,
    N.recv_bytes s.conn n small,
    there,
    take-append_exact n p rest size,
    overwrite_all (A.fresh s.heap n) p (size ∙ sym (A.fresh_size s.heap n)),
  )

module _ {C D H : Type 0} {P : Platform C D H} (A : AllocLaws P) where
  pub with_block_runs :
      (n : ℕ) (k : List ℕ → M C D H (Unit {0})) (s : Session C D H)
      → with_block P n k s ≡ k (A.fresh s.heap n) (after_malloc P n s)
  unfolding with_block
  with_block_runs n k s = rw (A.malloc_succeeds s.heap n)

module _ {C D H : Type 0} {P : Platform C D H} (N : NetLaws P) where
  -- After the packet was received, what is pending is what came behind it.
  pub pending-after_recv :
      (s : Session C D H) (n : ℕ) (p rest : List ℕ)
      → N.pending s.conn ≡ p ++ rest
      → length p ≡ n
      → n < 2 ^ 31
      → N.pending (after_recv P n s).conn ≡ rest
  pending-after_recv s n p rest there size small =
      rw (N.recv_pending s.conn n small, there) (drop-append_exact n p rest size)
