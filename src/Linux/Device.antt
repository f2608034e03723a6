-- ===== src/Linux/Device.antt =====
-- linux/device.c: opening, closing and reading a device. The system calls and the two allocations
-- are parameters; a negative result is `none`, and `errno` is a part of the system's state.
pub mod Owned
pub mod Steps
pub mod Reads
use aaruremote.Common.{
  ℕ, ◌^◌, ◌-◌, Bool, true, false, ◌||◌, Option, none, some, List, [], ◌∷◌, take, ◌==◌, ltb,
  if◌then◌else◌,
}
use aaruremote.Common.Bytes.{overwrite}
use aaruremote.Worker.Platform.{ReopenResult, OsReadResult}

-- `O_RDWR | O_NONBLOCK | O_CREAT` and `O_RDONLY | O_NONBLOCK`.
pub data Mode : Type 0 where
  read_write read_only : Mode

-- The calls; `O` is the state of the system, and a descriptor `none` is a negative number.
pub record Calls (O : Type 0) : Type 0 where
  pub errno : O → ℕ
  pub realpath : O → List ℕ → Option (List ℕ) × O
  -- `malloc(sizeof(DeviceContext))`: the address, 0 being NULL.
  pub new_context : O → ℕ × O
  pub open_path : O → List ℕ → Mode → Option ℕ × O
  -- Whether the result is not negative.
  pub close : O → Option ℕ → Bool × O
  pub lseek : O → Option ℕ → ℕ → Bool × O
  -- The bytes read.
  pub read : O → Option ℕ → ℕ → Option (List ℕ) × O

-- DeviceContext, at its address.
pub record DeviceContext : Type 0 where
  pub address : ℕ
  pub fd : Option ℕ
  pub device_path : List ℕ

-- The system, and the contexts that were allocated and not freed.
pub record Devices (O : Type 0) : Type 0 where
  pub os : O
  pub contexts : List DeviceContext

-- The context at an address; `none` for an address where there is none.
unfoldable pub find_context : ℕ → List DeviceContext → Option DeviceContext
find_context address [] = none
find_context address (c ∷ cs) =
    let rest = find_context address cs in if c.address == address then some c else rest

-- `ctx->fd = fd`
unfoldable pub set_fd : ℕ → Option ℕ → List DeviceContext → List DeviceContext
set_fd address fd [] = []
set_fd address fd (c ∷ cs) =
    let rest = set_fd address fd cs in
    if c.address == address then record c { fd = fd } ∷ cs else c ∷ rest

-- `free(ctx)`
unfoldable pub free_context : ℕ → List DeviceContext → List DeviceContext
free_context address [] = []
free_context address (c ∷ cs) =
    let rest = free_context address cs in if c.address == address then cs else c ∷ rest

-- `fd <= 0`
unfoldable pub not_positive : Option ℕ → Bool
not_positive none = true
not_positive (some fd) = fd == 0

module _ {O : Type 0} (S : Calls O) where
  -- `errno == EACCES || errno == EROFS`
  unfoldable pub denied : O → Bool
  denied os = S.errno os == 13 || S.errno os == 30

  -- `open` for writing too, and for reading only where that is denied.
  unfoldable pub open_device : O → List ℕ → Option ℕ × O
  unfolding denied
  open_device os path =
      let (fd, os') = S.open_path os path read_write in
      elim fd [
        | some f ↦ (some f, os')
        | none ↦ if denied os' then S.open_path os' path read_only else (none, os')
      ]

  -- `DeviceOpen` once there is a block for the context.
  unfoldable pub fill_context : ℕ → List ℕ → O → List DeviceContext → ℕ × Devices O
  unfolding open_device not_positive
  fill_context address path os contexts =
      let (fd, os') = open_device os path in
      if not_positive fd then (0, record { os = os'; contexts = contexts }) else (
        address,
        record {
          os = os';
          contexts = record { address = address; fd = fd; device_path = take 4096 path } ∷ contexts;
        },
      )

  -- `DeviceOpen`: the address, 0 being NULL.
  unfoldable pub device_open : Devices O → List ℕ → ℕ × Devices O
  unfolding fill_context
  device_open d device_path =
      let (real, os) = S.realpath d.os device_path in
      let path : List ℕ = elim real [ none ↦ device_path | some p ↦ p ] in
      let (address, os') = S.new_context os in
      if address == 0 then (0, record d { os = os' }) else fill_context address path os' d.contexts

  -- `DeviceClose`; `none` is an access to a context that is not there.
  unfoldable pub device_close : Devices O → ℕ → Option (Devices O)
  unfolding find_context free_context
  device_close d ctx = if ctx == 0 then some d else elim (find_context ctx d.contexts) [
    | none ↦ none
    | some c ↦ some (record { os = (S.close d.os c.fd).1; contexts = free_context ctx d.contexts })
  ]

  -- `ReOpen`
  unfoldable pub reopen : Devices O → ℕ → Option (ReopenResult × Devices O)
  unfolding find_context set_fd open_device not_positive
  reopen d ctx =
      if ctx == 0
      then some (record { ret = 2 ^ 32 - 1; close_failed = 0 }, d)
      else elim (find_context ctx d.contexts) [
        | none ↦ none
        | some c ↦
            let (closed, os) = S.close d.os c.fd in
            if closed
            then (let (fd, os') = open_device os c.device_path in
                some (
                  record { ret = if not_positive fd then S.errno os' else 0; close_failed = 0 },
                  record { os = os'; contexts = set_fd ctx fd d.contexts },
                ))
            else some (record { ret = S.errno os; close_failed = 1 }, record d { os = os })
      ]

  -- `OsRead`. The offset is a 64-bit pattern, which `lseek` reads as a signed number.
  unfoldable pub os_read : Devices O → ℕ → List ℕ → ℕ → ℕ → Option (OsReadResult × Devices O)
  unfolding find_context
  os_read d ctx buffer offset len =
      if ctx == 0
      then some (record { ret = 2 ^ 32 - 1; buffer = buffer; duration = 0 }, d)
      else elim (find_context ctx d.contexts) [
        | none ↦ none
        | some c ↦
            let (sought, os) = S.lseek d.os c.fd offset in
            if sought
            then (let (got, os') = S.read os c.fd len in
                elim got [
                  | none ↦ some (
                    record { ret = S.errno os'; buffer = buffer; duration = 0 },
                    record d { os = os' },
                  )
                  | some bytes ↦ some (
                    record { ret = 0; buffer = overwrite buffer bytes; duration = 0 },
                    record d { os = os' },
                  )
                ])
            else some
                (record { ret = S.errno os; buffer = buffer; duration = 0 }, record d { os = os })
      ]
