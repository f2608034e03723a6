-- ===== src/Win32/Sdhci/Registers.antt =====
-- win32/sdhci.c: GetSdhciRegisters and IsSdhci over SendSdhciCommand. The protocol that the driver
-- reports and what malloc gives are parameters.
pub mod Holding
use aaruremote.Common.{
  ℕ, ◌^◌, ◌-◌, Bool, not, ◌||◌, Option, none, some, List, [], ◌∷◌, ◌++◌, ◌==◌, ltb, if◌then◌else◌,
}
use aaruremote.Common.Bytes.{le_bytes}
use aaruremote.Common.Text.{starts_with}
use aaruremote.Worker.Platform.{SdhciCall, SdhciResult, SdhciRegisters}
use aaruremote.Win32.Sdhci.{SffCommand, SffReply, sff_sdhci_command}

-- The memory of a GUID.
unfoldable pub guid : ℕ → ℕ → ℕ → List ℕ → List ℕ
guid data1 data2 data3 data4 = le_bytes 4 data1 ++ (le_bytes 2 data2 ++ (le_bytes 2 data3 ++ data4))

unfoldable pub sd_protocol : List ℕ
unfolding guid
sd_protocol =
    guid 0xAD7536A8 0xD055 0x4C40 (0xAA ∷ 0x4D ∷ 0x96 ∷ 0x31 ∷ 0x2D ∷ 0xDB ∷ 0x6B ∷ 0x38 ∷ [])

unfoldable pub mmc_protocol : List ℕ
unfolding guid
mmc_protocol =
    guid 0x77274D3F 0x2365 0x4491 (0xA0 ∷ 0x30 ∷ 0x8B ∷ 0xB4 ∷ 0x4A ∷ 0xE6 ∷ 0x00 ∷ 0x97 ∷ [])

-- `GuidEquals` of two blocks of 16 bytes.
unfoldable pub guid_equals : List ℕ → List ℕ → Bool
guid_equals a b = starts_with a b

-- `IsSdhci`, for the protocol that the driver reports.
unfoldable pub is_sdhci : List ℕ → Bool
unfolding sd_protocol mmc_protocol guid_equals
is_sdhci protocol = guid_equals protocol sd_protocol || guid_equals protocol mmc_protocol

-- The flags of the commands for CSD and CID, and of those for SCR and OCR.
abbrev pub r2_ac : ℕ
r2_ac = 0x187

abbrev pub r1_adtc : ℕ
r1_adtc = 0xB5

unfoldable pub register_call : ℕ → ℕ → ℕ → List ℕ → SdhciCall
register_call command flags size b = record {
  command = command;
  write = 0;
  application = 0;
  flags = flags;
  argument = 0;
  block_size = size;
  blocks = 1;
  buffer = some b;
  buf_len = size;
  timeout = 1000;
}

-- A register's block and length, and what the variable `sense` holds.
pub record CardRegister : Type 0 where
  pub block : Option (List ℕ)
  pub len : ℕ
  pub sense : ℕ

-- A block that was freed, although its pointer stays, is `none` here.
unfoldable pub kept_register : ℕ → SdhciResult → CardRegister
kept_register size r = record {
  block = if r.sense == 0 then r.buffer else none;
  len = if r.sense == 0 then size else 0;
  sense = r.sense;
}

-- The outputs, when a register was asked for each.
unfoldable pub card_registers :
    CardRegister → CardRegister → CardRegister → CardRegister → SdhciRegisters
card_registers csd cid scr ocr = record {
  is_sdhci = if ltb 0 csd.len || (ltb 0 cid.len || (ltb 0 scr.len || ltb 0 ocr.len)) then 1 else 0;
  csd = csd.block;
  cid = cid.block;
  ocr = ocr.block;
  scr = scr.block;
  csd_len = csd.len;
  cid_len = cid.len;
  ocr_len = ocr.len;
  scr_len = scr.len;
}

-- When -1 is returned nothing is written: the lengths are 0 in the worker's answer.
unfoldable pub no_card : SdhciRegisters
no_card = record {
  is_sdhci = 2 ^ 32 - 1;
  csd = none;
  cid = none;
  ocr = none;
  scr = none;
  csd_len = 0;
  cid_len = 0;
  ocr_len = 0;
  scr_len = 0;
}

module _ {D : Type 0} (headers : ℕ) (room : ℕ → Bool) (malloc : ℕ → Option (List ℕ))
    (device_io_control : D → ℕ → SffCommand → SffReply × D) where
  -- One register. Without memory its length is not written: it is 0 in the answer that the worker
  -- zeroes.
  unfoldable pub ask_register : ℕ → D → ℕ → ℕ → ℕ → ℕ → Option (CardRegister × D)
  unfolding register_call kept_register
  ask_register sense d ctx command flags size = elim (malloc size) [
    | none ↦ some (record { block = none; len = 0; sense = sense }, d)
    | some b ↦
        elim (sff_sdhci_command headers room device_io_control
          (record { ret = 0; buffer = none; response = []; duration = 0; sense = sense }) d ctx
          (register_call command flags size b)) [
            | none ↦ none
            | some x ↦ let (r, d') = x in some (kept_register size r, d')
          ]
  ]

  -- The four registers; `sense` is what the variable held before.
  unfoldable pub read_card : ℕ → D → ℕ → Option (SdhciRegisters × D)
  unfolding ask_register card_registers
  read_card sense d0 ctx = elim (ask_register sense d0 ctx 9 r2_ac 16) [
    | none ↦ none
    | some x1 ↦
        let (csd, d1) = x1 in
        elim (ask_register csd.sense d1 ctx 10 r2_ac 16) [
          | none ↦ none
          | some x2 ↦
              let (cid, d2) = x2 in
              elim (ask_register cid.sense d2 ctx 10 r1_adtc 8) [
                | none ↦ none
                | some x3 ↦
                    let (scr, d3) = x3 in
                    let command = if ltb 0 scr.len then 41 else 1 in
                    elim (ask_register scr.sense d3 ctx command r1_adtc 4) [
                      | none ↦ none
                      | some x4 ↦ let (ocr, d4) = x4 in some (card_registers csd cid scr ocr, d4)
                    ]
              ]
        ]
  ]

  -- `GetSdhciRegisters`; `query_protocol` gives the protocol that the driver reports.
  unfoldable pub sff_sdhci_registers :
      (D → ℕ → List ℕ × D) → ℕ → D → ℕ → Option (SdhciRegisters × D)
  unfolding no_card is_sdhci read_card
  sff_sdhci_registers query_protocol sense d ctx =
      if ctx == 0
      then some (no_card, d)
      else (let (protocol, d') = query_protocol d ctx in
          if is_sdhci protocol then read_card sense d' ctx else some (no_card, d'))
