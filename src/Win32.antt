-- ===== src/Win32.antt =====
-- win32/scsi.c and win32/device.c: SendScsiCommand over IOCTL_SCSI_PASS_THROUGH_DIRECT, and the type
-- of a device. DeviceIoControl and the allocations are parameters.
pub mod Hello
pub mod Refines
pub mod Listing
pub mod Sdhci
pub mod Usb
use aaruremote.Common.{
  ℕ, ◌^◌, ◌-◌, Bool, true, false, not, ◌||◌, Option, none, some, List, [], take, ltb, ◌==◌,
  if◌then◌else◌,
}
use aaruremote.Worker.Platform.{SenseOut, untouched, null_block, block, ScsiCall, ScsiResult}
use aaruremote.Linux.DeviceType.{
  device_type_unknown, device_type_ata, device_type_atapi, device_type_scsi,
  device_type_secure_digital, device_type_mmc, device_type_nvme,
}

-- `DataIn`
pub data DataDirection : Type 0 where
  data_in data_out bidirectional unspecified : DataDirection

-- The fields of SCSI_PASS_THROUGH_DIRECT that are set.
pub record PassThrough : Type 0 where
  pub cdb : List ℕ
  pub cdb_length : ℕ
  pub sense_info_length : ℕ
  pub direction : DataDirection
  pub data_transfer_length : ℕ
  pub time_out_value : ℕ
  pub data_buffer : Option (List ℕ)

-- After DeviceIoControl: whether it succeeded, what GetLastError gives, the time that it took in
-- milliseconds, the status, the data and the sense bytes behind the structure.
pub record PassReply : Type 0 where
  pub ok : Bool
  pub last_error : ℕ
  pub duration : ℕ
  pub scsi_status : ℕ
  pub data_buffer : Option (List ℕ)
  pub sense : List ℕ

-- The switch over the direction, a 32-bit pattern.
unfoldable pub data_direction : ℕ → DataDirection
data_direction direction =
    if direction == 2
    then data_in
    else if direction == 1
    then data_out
    else if direction == 3 || direction == 2 ^ 32 - 1
    then bidirectional
    else unspecified

-- `if(cdb_len > 16) cdb_len = 16;`
unfoldable pub capped_cdb_len : ℕ → ℕ
capped_cdb_len cdb_len = if ltb 16 cdb_len then 16 else cdb_len

unfoldable pub pass_through : ScsiCall → PassThrough
unfolding data_direction capped_cdb_len
pass_through call =
    let cdb_len = capped_cdb_len call.cdb_len in
    record {
      cdb = elim call.cdb [ none ↦ [] | some b ↦ take cdb_len b ];
      cdb_length = cdb_len;
      sense_info_length = 32;
      direction = data_direction call.direction;
      data_transfer_length = call.buf_len;
      time_out_value = call.timeout;
      data_buffer = call.buffer;
    }

-- The outputs when the function returns -1: `*sense_len` is set already, the sense pointer is not,
-- or is NULL. `sense` is what `*sense` held before.
unfoldable pub pass_failure : ℕ → ScsiCall → SenseOut → ScsiResult
pass_failure sense call out = record {
  ret = 2 ^ 32 - 1;
  buffer = call.buffer;
  sense_buf = out;
  duration = 0;
  sense = sense;
  buf_len = call.buf_len;
  sense_len = 32;
}

unfoldable pub pass_result : ScsiCall → PassReply → ScsiResult
pass_result call r = record {
  ret = if r.ok then 0 else r.last_error;
  buffer = r.data_buffer;
  sense_buf = block (take 32 r.sense);
  duration = r.duration;
  sense = if r.scsi_status == 0 then 0 else 1;
  buf_len = call.buf_len;
  sense_len = 32;
}

module _ {D : Type 0} (room : ℕ → Bool)
    (device_io_control : D → ℕ → PassThrough → PassReply × D) where
  -- `SendScsiCommand`; the structure has 56 bytes.
  unfoldable pub pass_scsi_command : ℕ → D → ℕ → ScsiCall → ScsiResult × D
  unfolding pass_through pass_failure pass_result
  pass_scsi_command sense d ctx call =
      if ctx == 0
      then (pass_failure sense call untouched, d)
      else if not (room 88)
      then (pass_failure sense call untouched, d)
      else if not (room 32)
      then (pass_failure sense call null_block, d)
      else (let (r, d') = device_io_control d ctx (pass_through call) in (pass_result call r, d'))

-- The switch of GetDeviceType over the type of the bus.
unfoldable pub bus_device_type : ℕ → ℕ
bus_device_type bus =
    if bus == 1 || (bus == 4 || (bus == 5 || (bus == 6 || (bus == 7 || (bus == 9 || bus == 0xA)))))
    then device_type_scsi
    else if bus == 2
    then device_type_atapi
    else if bus == 3 || bus == 0xB
    then device_type_ata
    else if bus == 0xC
    then device_type_secure_digital
    else if bus == 0xD
    then device_type_mmc
    else if bus == 0x11
    then device_type_nvme
    else device_type_unknown

-- `GetDeviceType`: the bus that IOCTL_STORAGE_QUERY_PROPERTY gives, or the error.
pub data BusQuery : Type 0 where
  bus_type : ℕ → BusQuery
  query_error : ℕ → BusQuery

-- An error of 0 is passed over, and the bus type is then that of the zeroed block.
unfoldable pub query_device_type : ℕ → Bool → BusQuery → ℕ
unfolding bus_device_type
query_device_type ctx room query =
    if ctx == 0 then 2 ^ 32 - 1 else if not room then device_type_unknown else elim query [
      | bus_type bus ↦ bus_device_type bus
      | query_error error ↦ if error == 0 then bus_device_type 0 else device_type_unknown
    ]
