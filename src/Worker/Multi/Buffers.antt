-- ===== src/Worker/Multi/Buffers.antt =====
-- worker.c: the data of a multiple SDHCI command, when every command in it transfers the same number
-- of bytes.
use aaruremote.Common.{
  ℕ, ◌+◌, ◌*◌, ◌≤◌, ◌≡◌, sym, ap, ◌∙◌, some, List, [], ◌∷◌, ◌++◌, length, take, drop, All,
  take-take-drop, drop-drop, arith,
}
use aaruremote.Common.Bytes.{read_at_inside}
use aaruremote.Worker.Platform.{MmcSingleCommand}
use aaruremote.Worker.Multi.{place_buffers, copy_buffers, total_buf_len}

-- The commands of one packet, with the size of their data.
abbrev pub Transfers : ℕ → List MmcSingleCommand → Type 0
Transfers n = All (λ c. c.buf_len ≡ n)

-- If every command of a packet transfers n bytes and the packet holds the data of all of them from
-- an offset on: the loop that places the buffers and the loop that copies them give exactly that
-- data, in order, and its length is what total_buf_len adds up to size the answer.
pub copy_buffers-place_buffers :
    (packet : List ℕ) (n off : ℕ) (cs : List MmcSingleCommand)
    → Transfers n cs
    → off + length cs * n ≤ length packet
    → (copy_buffers packet n (place_buffers off cs) ≡ some (take (length cs * n) (drop off packet)))
      × (total_buf_len (place_buffers off cs) ≡ length cs * n)
unfolding copy_buffers place_buffers total_buf_len
copy_buffers-place_buffers packet n off [] same fits =
    let none_left : 0 ≡ length {A = MmcSingleCommand} [] * n = omega arith in
    (ap (λ k. some (take k (drop off packet))) none_left, none_left)
copy_buffers-place_buffers packet n off (c ∷ cs) (one, others) fits =
    let later = copy_buffers-place_buffers packet n (off + n) cs others (omega arith) in
    rw (one, copy_buffers, read_at_inside packet off n (omega arith), one, later.0)
      (
        ap some (
            ap (λ q. take n (drop off packet) ++ take (length cs * n) q)
              (sym (drop-drop off n packet))
            ∙ take-take-drop n (length cs * n) (drop off packet)
            ∙ ap (λ k. take k (drop off packet)) (omega arith)),
        omega (arith, later.1),
      )
