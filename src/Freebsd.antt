-- ===== src/Freebsd.antt =====
-- freebsd/: SendScsiCommand over the common access method (CAM) in scsi.c, the type of a device in
-- device.c, and the functions of sdhci.c, usb.c, ieee1394.c and pcmcia.c, which do nothing. The calls
-- of CAM and the allocations are parameters.
pub mod Freed
pub mod Ata
pub mod Listing
use aaruremote.Common.{
  ℕ, ◌^◌, ◌-◌, ◌%◌, Bool, true, false, not, ◌||◌, ◌&&◌, Option, none, some, List, [], ◌∷◌, take,
  ltb, leb, ◌==◌, if◌then◌else◌,
}
use aaruremote.Worker.Platform.{
  SenseOut, null_block, block, ScsiCall, ScsiResult, SdhciCall, SdhciResult, SdhciRegisters,
  MmcSingleCommand, MultiSdhciResult, UsbData, FireWireData, PcmciaData,
}
use aaruremote.Linux.DeviceType.{
  device_type_unknown, device_type_ata, device_type_atapi, device_type_scsi, device_type_mmc,
  device_type_nvme,
}

-- `flags`, which is not set for another direction.
pub data CamDirection : Type 0 where
  cam_dir_none cam_dir_out cam_dir_in cam_dir_both not_set : CamDirection

unfoldable pub cam_direction : ℕ → CamDirection
cam_direction direction =
    if direction == 0
    then cam_dir_none
    else if direction == 1
    then cam_dir_out
    else if direction == 2
    then cam_dir_in
    else if direction == 3
    then cam_dir_both
    else not_set

-- The fields of the CCB that the call sets; the command is copied, or its address is when it is
-- longer than CAM_MAX_CDBLEN.
pub record ScsiCcb : Type 0 where
  pub direction : CamDirection
  pub timeout : ℕ
  pub data_ptr : Option (List ℕ)
  pub dxfer_len : ℕ
  pub sense_len : ℕ
  pub cdb_len : ℕ
  pub cdb : Option (List ℕ)
  pub cdb_pointer : Bool

-- `status & CAM_STATUS_MASK`
pub data CamStatus : Type 0 where
  req_cmp scsi_status_error other_status : CamStatus

-- After `cam_send_ccb`: its result, negative for `none`, `errno`, the fields of the CCB and the time
-- that it took in milliseconds, 0 if the clock fails.
pub record CamReply : Type 0 where
  pub ret : Option ℕ
  pub errno : ℕ
  pub status : CamStatus
  pub autosns_valid : Bool
  pub scsi_status : ℕ
  pub sense_resid : ℕ
  pub error_code : ℕ
  pub sense_bytes : List ℕ
  pub data_ptr : Option (List ℕ)
  pub duration : ℕ

unfoldable pub scsi_ccb : ScsiCall → ScsiCcb
unfolding cam_direction
scsi_ccb call = record {
  direction = cam_direction call.direction;
  timeout = call.timeout;
  data_ptr = call.buffer;
  dxfer_len = call.buf_len;
  sense_len = 32;
  cdb_len = call.cdb_len % 256;
  cdb = call.cdb;
  cdb_pointer = ltb 16 call.cdb_len;
}

unfoldable pub is_complete : CamStatus → Bool
is_complete req_cmp = true
is_complete scsi_status_error = false
is_complete other_status = false

unfoldable pub is_scsi_error : CamStatus → Bool
is_scsi_error req_cmp = false
is_scsi_error scsi_status_error = true
is_scsi_error other_status = false

-- The error that is returned.
unfoldable pub cam_error : CamReply → ℕ
unfolding is_complete is_scsi_error
cam_error r =
    if not (is_complete r.status) && not (is_scsi_error r.status)
    then r.errno
    else elim r.ret [ none ↦ r.errno | some e ↦ e ]

-- There are sense bytes.
unfoldable pub has_sense : CamReply → Bool
has_sense r = r.autosns_valid && ltb r.sense_resid 32

-- `*sense`
unfoldable pub cam_sense : CamReply → ℕ
unfolding has_sense is_complete is_scsi_error
cam_sense r =
    if has_sense r
    then (if is_scsi_error r.status then 1 else 0)
    else if is_complete r.status
    then 0
    else 1

-- `*sense_buffer`, in front of which `raw` was allocated.
unfoldable pub cam_sense_block : CamReply → List ℕ → List ℕ
unfolding has_sense is_scsi_error
cam_sense_block r raw =
    if has_sense r
    then r.error_code ∷ take (31 - r.sense_resid) r.sense_bytes
    else if is_scsi_error r.status
    then r.scsi_status ∷ []
    else raw

unfoldable pub cam_failure : ScsiCall → SenseOut → ScsiResult
cam_failure call out = record {
  ret = 2 ^ 32 - 1;
  buffer = call.buffer;
  sense_buf = out;
  duration = 0;
  sense = 0;
  buf_len = call.buf_len;
  sense_len = 0;
}

-- `camccb->csio.dxfer_len` behind `cam_freeccb(camccb)`: an access to a freed block.
abbrev pub freed_dxfer_len : Option ℕ
freed_dxfer_len = none

-- `*buf_len` is read from the CCB that was freed; `*sense_len` is not set any more.
unfoldable pub cam_result : CamReply → List ℕ → Option ScsiResult
unfolding cam_error cam_sense cam_sense_block
cam_result r raw = elim freed_dxfer_len [
  | none ↦ none
  | some dxfer_len ↦ some record {
    ret = cam_error r;
    buffer = r.data_ptr;
    sense_buf = block (cam_sense_block r raw);
    duration = r.duration;
    sense = cam_sense r;
    buf_len = dxfer_len;
    sense_len = 0;
  }
]

module _ {D : Type 0} (has_device : ℕ → Bool) (malloc : ℕ → Option (List ℕ)) (has_ccb : Bool)
    (cam_send_ccb : D → ℕ → ScsiCcb → CamReply × D) where
  -- `SendScsiCommand`; the blocks that take the sense bytes are there, which the source does not
  -- test. `none` is undefined behaviour.
  unfoldable pub cam_scsi_command : D → ℕ → ScsiCall → Option ScsiResult × D
  unfolding scsi_ccb cam_failure cam_result
  cam_scsi_command d ctx call =
      if ctx == 0 || not (has_device ctx)
      then (some (cam_failure call null_block), d)
      else elim (malloc 32) [
        | none ↦ (some (cam_failure call null_block), d)
        | some raw ↦
            if not has_ccb
            then (some (cam_failure call (block raw)), d)
            else (let (r, d') = cam_send_ccb d ctx (scsi_ccb call) in (cam_result r raw, d'))
      ]

-- `camccb->cgd.protocol`
pub data CamProtocol : Type 0 where
  proto_ata proto_satapm proto_atapi proto_scsi proto_nvme proto_mmcsd proto_other : CamProtocol

unfoldable pub protocol_type : CamProtocol → ℕ
protocol_type proto_ata = device_type_ata
protocol_type proto_satapm = device_type_ata
protocol_type proto_atapi = device_type_atapi
protocol_type proto_scsi = device_type_scsi
protocol_type proto_nvme = device_type_nvme
protocol_type proto_mmcsd = device_type_mmc
protocol_type proto_other = device_type_unknown

-- `GetDeviceType`, with the answer to XPT_GDEV_TYPE, if there is one.
unfoldable pub cam_device_type : ℕ → Bool → Option CamProtocol → ℕ
unfolding protocol_type
cam_device_type ctx device answer =
    if ctx == 0 || not device
    then 2 ^ 32 - 1
    else elim answer [ none ↦ device_type_unknown | some p ↦ protocol_type p ]

-- The functions without a body of their own leave the outputs as they were.
unfoldable pub cam_sdhci_command : SdhciResult → SdhciCall → SdhciResult
cam_sdhci_command before call = record before { ret = 2 ^ 32 - 1; buffer = call.buffer }

unfoldable pub cam_sdhci_registers : SdhciRegisters → SdhciRegisters
cam_sdhci_registers before = record before { is_sdhci = 2 ^ 32 - 1 }

unfoldable pub cam_multi_sdhci :
    MultiSdhciResult → List MmcSingleCommand → List ℕ → MultiSdhciResult
cam_multi_sdhci before commands packet = record before {
  ret = 2 ^ 32 - 1;
  commands = commands;
  packet = packet;
}

unfoldable pub cam_usb_data : UsbData → UsbData
cam_usb_data before = record before { is_usb = 0 }

unfoldable pub cam_firewire_data : FireWireData → FireWireData
cam_firewire_data before = record before { is_firewire = 0 }

unfoldable pub cam_pcmcia_data : PcmciaData → PcmciaData
cam_pcmcia_data before = record before { is_pcmcia = 0 }
