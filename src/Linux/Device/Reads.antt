-- ===== src/Linux/Device/Reads.antt =====
-- linux/device.c: what OsRead and ReOpen give the worker.
use mathlib.Core.Option.{some-injective}
use aaruremote.Common.{
  Returns, ℕ, ◌≤◌, ◌≡◌, refl, ap, ◌∙◌, inl, inr, true, false, Option, none, some, List, [], ◌∷◌,
  ◌++◌, length, drop, ◌==◌, Bool-cases, Option-cases, arith,
}
use aaruremote.Common.Bytes.{length-overwrite}
use aaruremote.Linux.Device.{
  Calls, DeviceContext, Devices, find_context, reopen, os_read, open_device, set_fd,
}

find-set_fd :
    (a : ℕ) (fd : Option ℕ) (cs : List DeviceContext) (c : DeviceContext)
    → find_context a cs ≡ some c
    → find_context a (set_fd a fd cs) ≡ some (record c { fd = fd })
unfolding find_context set_fd
find-set_fd a fd [] c found = absurd (ground arith)
find-set_fd a fd (d ∷ cs) c found = elim (Bool-cases (d.address == a)) [
  | inl here ↦
      let found' : some d ≡ some c = rw here at found in
      let with_fd : DeviceContext → Option DeviceContext = λ x. some (record x { fd = fd }) in
      rw (here, set_fd, find_context, here) (ap with_fd (some-injective d c found'))
  | inr there ↦ rw (there, find_context, there) (find-set_fd a fd cs c (rw there at found))
]

abbrev without : DeviceContext → Option ℕ → Option DeviceContext
without c fd = some (record c { fd = fd })

module _ {O : Type 0} (S : Calls O) where
  -- For a context that is there, and a read that gives no more bytes than it is asked for: OsRead
  -- of Linux returns, and the buffer has the size that it had, if that was enough for the bytes
  -- that are asked for.
  pub os_read_keeps_buffer :
      ((os : O) (fd : Option ℕ) (n : ℕ) (bytes : List ℕ)
        → (S.read os fd n).0 ≡ some bytes
        → length bytes ≤ n)
      → (d : Devices O) (ctx : ℕ) (c : DeviceContext) (buffer : List ℕ) (offset len : ℕ)
      → find_context ctx d.contexts ≡ some c
      → len ≤ length buffer
      → Returns (λ x. length x.0.buffer ≡ length buffer) (os_read S d ctx buffer offset len)
  unfolding os_read
  os_read_keeps_buffer short d ctx c buffer offset len found room =
      let os = (S.lseek d.os c.fd offset).1 in
      let os' = (S.read os c.fd len).1 in
      elim (Bool-cases (ctx == 0)) [
        | inl null ↦ rw null refl
        | inr live ↦ elim (Bool-cases (S.lseek d.os c.fd offset).0) [
          | inr failed ↦ rw (live, found, failed) refl
          | inl sought ↦ elim (Option-cases (S.read os c.fd len).0) [
            | inl failed ↦ rw (live, found, sought, failed) refl
            | inr (bytes, got) ↦
                rw (live, found, sought, got)
                  (length-overwrite buffer bytes (omega (arith, short os c.fd len bytes got)))
          ]
        ]
      ]

  -- In a call of OsRead on a context that is there, where lseek succeeds and read gives some bytes,
  -- however few: the result is 0, and behind those bytes the buffer is as it was.
  pub os_read_of_bytes :
      (d : Devices O) (ctx : ℕ) (c : DeviceContext) (buffer : List ℕ) (offset len : ℕ)
      (bytes : List ℕ)
      → (ctx == 0) ≡ false
      → find_context ctx d.contexts ≡ some c
      → (S.lseek d.os c.fd offset).0 ≡ true
      → (S.read (S.lseek d.os c.fd offset).1 c.fd len).0 ≡ some bytes
      → Returns
          (λ x. (x.0.ret ≡ 0) × (x.0.buffer ≡ bytes ++ drop (length bytes) buffer))
          (os_read S d ctx buffer offset len)
  unfolding os_read
  os_read_of_bytes d ctx c buffer offset len bytes live found sought got =
      rw (live, found, sought, got) (refl, refl)

  reopen_without_fd :
      ((os : O) → (S.close os none).0 ≡ false)
      → (d : Devices O) (ctx : ℕ) (c : DeviceContext) → (ctx == 0) ≡ false
      → find_context ctx d.contexts ≡ some (record c { fd = none })
      → Returns (λ y. (y.0.close_failed ≡ 1) × (y.1.contexts ≡ d.contexts)) (reopen S d ctx)
  unfolding reopen
  reopen_without_fd no_close d ctx c live found = rw (live, found, no_close d.os) (refl, refl)

  -- If closing a negative descriptor fails: a ReOpen that closes the device and gets a negative
  -- descriptor of the open does not report a failed close, and the next ReOpen of the context does,
  -- and leaves the contexts as they are.
  pub reopen_stuck :
      ((os : O) → (S.close os none).0 ≡ false)
      → (d : Devices O) (ctx : ℕ) (c : DeviceContext) → (ctx == 0) ≡ false
      → find_context ctx d.contexts ≡ some c
      → (S.close d.os c.fd).0 ≡ true
      → (open_device S (S.close d.os c.fd).1 c.device_path).0 ≡ none
      → Returns
          (λ x.
            (x.0.close_failed ≡ 0)
            × Returns
                (λ y. (y.0.close_failed ≡ 1) × (y.1.contexts ≡ x.1.contexts))
                (reopen S x.1 ctx))
          (reopen S d ctx)
  unfolding reopen
  reopen_stuck no_close d ctx c live found closed failed =
      let (fd, os) = open_device S (S.close d.os c.fd).1 c.device_path in
      let d' : Devices O = record { os = os; contexts = set_fd ctx fd d.contexts } in
      let stuck : find_context ctx d'.contexts ≡ some (record c { fd = none }) =
        find-set_fd ctx fd d.contexts c found ∙ ap (without c) failed in
      rw (live, found, closed)
        (refl, rw (reopen, live) at (reopen_without_fd no_close d' ctx c live stuck))
