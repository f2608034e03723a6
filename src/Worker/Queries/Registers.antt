-- ===== src/Worker/Queries/Registers.antt =====
-- worker.c: the answer to GET_SDHCI_REGISTERS.
use aaruremote.Common.{
  ℕ, ◌≡◌, refl, Option, none, some, List, [], length, take, arith, length-append, ltb, min,
  Bool-cases, inl, inr,
}
use aaruremote.Common.Bytes.{read_at_inside}
use aaruremote.Protocol.Types.{type_response_get_sdhci_registers}
use aaruremote.Protocol.Structs.{array}
use aaruremote.Protocol.Layout.{length-array}
use aaruremote.Worker.Platform.{Platform}
use aaruremote.Worker.Session.{Session}
use aaruremote.Worker.Laws.{NetLaws, AllocLaws, with_block_runs}
use aaruremote.Worker.Served.{Ensures, Served, Request, Served-by_reply, request_runs}
use aaruremote.Worker.Transfers.Parts.{Holds}
use aaruremote.Worker.Queries.{register_field, sdhci_registers_size, on_get_sdhci_registers}

-- The four blocks have the lengths that are announced with them.
pub record RegistersLaws {C D H : Type 0} (P : Platform C D H) : Type 0 where
  pub csd_holds :
      (d : D) (ctx : ℕ) → let r = (P.get_sdhci_registers d ctx).0 in Holds r.csd r.csd_len
  pub cid_holds :
      (d : D) (ctx : ℕ) → let r = (P.get_sdhci_registers d ctx).0 in Holds r.cid r.cid_len
  pub ocr_holds :
      (d : D) (ctx : ℕ) → let r = (P.get_sdhci_registers d ctx).0 in Holds r.ocr r.ocr_len
  pub scr_holds :
      (d : D) (ctx : ℕ) → let r = (P.get_sdhci_registers d ctx).0 in Holds r.scr r.scr_len

register_field_total :
    (size len : ℕ) (reg : Option (List ℕ))
    → Holds reg len
    → (f : ℕ × List ℕ) × (register_field size len reg ≡ some f) × (length f.1 ≡ size)
unfolding register_field
register_field_total size len none h = ((len, array size []), refl, length-array size [])
register_field_total size len (some reg) h = elim (Bool-cases (ltb 0 len)) [
  | inl more ↦
      let copied = take (min len size) reg in
      (
        (min len size, array size copied),
        rw (more, read_at_inside reg 0 (min len size) (omega arith)) refl,
        length-array size copied,
      )
  | inr empty ↦ ((len, array size []), rw empty refl, length-array size [])
]

module _ {C D H : Type 0} {P : Platform C D H} (N : NetLaws P) (A : AllocLaws P) where
  -- On a network and an allocator that meet NetLaws and AllocLaws, for a complete Request, if each
  -- register that GetSdhciRegisters returns holds the bytes that it announces: the case sends one
  -- well-formed response and nothing else, and the request is off the connection.
  pub on_get_sdhci_registers-Served :
      {s : Session C D H} {n : ℕ} {p rest : List ℕ}
      → RegistersLaws P
      → Request N s n p rest
      → Ensures
          (λ _. Served N (N.sent s.conn) rest type_response_get_sdhci_registers)
          (on_get_sdhci_registers P s)
  unfolding on_get_sdhci_registers
  on_get_sdhci_registers-Served {s} {n} {p} {rest} L req =
      let r = (P.get_sdhci_registers s.devices s.device_ctx).0 in
      let (csd, e₁, h₁) =
        register_field_total 16 r.csd_len r.csd (L.csd_holds s.devices s.device_ctx) in
      let (cid, e₂, h₂) =
        register_field_total 16 r.cid_len r.cid (L.cid_holds s.devices s.device_ctx) in
      let (ocr, e₃, h₃) =
        register_field_total 4 r.ocr_len r.ocr (L.ocr_holds s.devices s.device_ctx) in
      let (scr, e₄, h₄) =
        register_field_total 8 r.scr_len r.scr (L.scr_holds s.devices s.device_ctx) in
      rw (request_runs N A req _, with_block_runs A sdhci_registers_size _ _, e₁, e₂, e₃, e₄)
        (Served-by_reply N req _ sdhci_registers_size _ _ _ refl refl refl refl refl (omega arith)
          (omega arith) refl (simp (length-append, h₁, h₂, h₃, h₄) (omega arith)))
