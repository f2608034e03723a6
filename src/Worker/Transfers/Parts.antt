-- ===== src/Worker/Transfers/Parts.antt =====
-- worker.c: the parts of an answer that carry data, and what their sources must hold.
use aaruremote.Common.{
  ℕ, ◌+◌, ◌≤◌, ◌≡◌, refl, Bool, Option, none, some, List, length, take, drop, arith, ◌==◌,
  Bool-cases, inl, inr, ltb, if◌then◌else◌, length-drop,
}
use aaruremote.Common.Bytes.{read_at_inside, length-take-drop}
use aaruremote.Worker.Platform.{Platform, SenseOut, untouched, null_block, block, SdhciRegisters}
use aaruremote.Worker.Session.{Session}
use aaruremote.Worker.Laws.{AllocLaws}
use aaruremote.Worker.Transfers.{data_part, sense_block, copy_out}

-- A buffer, if there is one, has `len` bytes or more.
abbrev pub Holds : Option (List ℕ) → ℕ → Type 0
Holds none len = Unit
Holds (some b) len = len ≤ length b

-- The blocks of the four registers have the lengths that are announced with them.
abbrev pub AllHold : SdhciRegisters → Type 0
AllHold r =
    Holds r.csd r.csd_len × Holds r.cid r.cid_len × Holds r.ocr r.ocr_len × Holds r.scr r.scr_len

-- The sense pointer was written, and a block at it has `len` bytes or more.
abbrev pub SenseHolds : SenseOut → ℕ → Type 0
SenseHolds untouched len = ⊥
SenseHolds null_block len = Unit
SenseHolds (block b) len = len ≤ length b

pub data_part_total :
    (o : Option (List ℕ)) (raw : List ℕ) (off len : ℕ)
    → Holds o len
    → off + len ≤ length raw
    → (d : List ℕ) × (data_part o raw off len ≡ some d) × (length d ≡ len)
data_part_total none raw off len h room =
    (take len (drop off raw), refl, length-take-drop raw off len room)
data_part_total (some b) raw off len h room =
    (take len b, read_at_inside b 0 len (omega arith), length-take-drop b 0 len (omega arith))

pub sense_block_total :
    (out : SenseOut) (is_null : Bool) (len : ℕ)
    → SenseHolds out len
    → (o : Option (List ℕ)) × (sense_block out is_null ≡ some o) × Holds o len
sense_block_total untouched is_null len h = elim h [ ]
sense_block_total null_block is_null len h = (none, refl, tt)
sense_block_total (block b) is_null len h = (some b, refl, h)

-- The tail of a packet, if a length of 1 or more was announced.
pub tail-Holds :
    (b : List ℕ) (off len : ℕ)
    → off + len ≤ length b
    → Holds (if ltb 0 len then some (drop off b) else none) len
tail-Holds b off len h = elim (Bool-cases (ltb 0 len)) [
  | inl more ↦ rw more (omega (arith, length-drop off b))
  | inr none_left ↦ rw none_left tt
]

module _ {C D H : Type 0} {P : Platform C D H} (A : AllocLaws P) where
  pub copy_out_total :
      (b : List ℕ) (off n : ℕ) (s : Session C D H)
      → off + n ≤ length b
      → (o : Option (List ℕ)) × (h : H) × (copy_out P b off n s ≡ some (o, record s { heap = h }))
        × Holds o n
  unfolding copy_out
  copy_out_total b off n s room = elim (Bool-cases (n == 0)) [
    | inl zero ↦ (none, s.heap, rw zero refl, tt)
    | inr more ↦ (
      some (take n (drop off b)),
      (P.malloc s.heap n).1,
      rw (more, A.malloc_succeeds s.heap n, read_at_inside b off n room) refl,
      omega (arith, length-take-drop b off n room),
    )
  ]
