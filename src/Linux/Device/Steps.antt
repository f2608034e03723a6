-- ===== src/Linux/Device/Steps.antt =====
-- linux/device.c: which descriptors the open contexts hold, whatever is called.
use mathlib.Core.Option.{some-injective}
use aaruremote.Common.{
  ℕ, ◌≡◌, ◌≢◌, ◌⊎◌, ap, refl, sym, ◌∙◌, inl, inr, Bool, true, false, Option, none, some, List, [],
  ◌==◌, Bool-cases, Option-cases, subst, arith,
}
use aaruremote.Worker.Platform.{ReopenResult, OsReadResult}
use aaruremote.Linux.Device.{
  Calls, DeviceContext, Devices, read_write, read_only, Mode, find_context, free_context,
  not_positive, denied, open_device, fill_context, device_open, device_close, reopen, os_read,
}
use aaruremote.Linux.Device.Owned.{
  Owned, Owned-Apart, Owned-kept, Owned-without, Owned-free, Owned-set,
}

-- What the system promises of its open descriptors: a call of open gives a new one, a close touches
-- no other, whether it works or not, and nothing else opens or closes any.
pub record FdLaws {O : Type 0} (S : Calls O) : Type 0 where
  pub is_open : O → ℕ → Bool
  pub realpath_keeps : (os : O) (p : List ℕ) (g : ℕ) → is_open (S.realpath os p).1 g ≡ is_open os g
  pub new_keeps : (os : O) (g : ℕ) → is_open (S.new_context os).1 g ≡ is_open os g
  pub open_fresh :
      (os : O) (p : List ℕ) (m : Mode) (f : ℕ)
      → (S.open_path os p m).0 ≡ some f
      → is_open os f ≡ false
  pub open_opens :
      (os : O) (p : List ℕ) (m : Mode) (f : ℕ)
      → (S.open_path os p m).0 ≡ some f
      → is_open (S.open_path os p m).1 f ≡ true
  pub open_keeps :
      (os : O) (p : List ℕ) (m : Mode) (g : ℕ)
      → is_open os g ≡ true
      → is_open (S.open_path os p m).1 g ≡ true
  pub open_fails :
      (os : O) (p : List ℕ) (m : Mode) (g : ℕ)
      → (S.open_path os p m).0 ≡ none
      → is_open (S.open_path os p m).1 g ≡ is_open os g
  pub close_keeps :
      (os : O) (fd : Option ℕ) (g : ℕ) → fd ≢ some g → is_open (S.close os fd).1 g ≡ is_open os g
  pub lseek_keeps :
      (os : O) (fd : Option ℕ) (n g : ℕ) → is_open (S.lseek os fd n).1 g ≡ is_open os g
  pub read_keeps : (os : O) (fd : Option ℕ) (n g : ℕ) → is_open (S.read os fd n).1 g ≡ is_open os g

-- A ReOpen reports no close that fails, unless the context holds a negative descriptor. A close that
-- fails may have closed the descriptor all the same, and the context then keeps it.
unfoldable pub ClosesCleanly : List DeviceContext → ℕ → ReopenResult → Type 0
ClosesCleanly contexts ctx r =
    (c : DeviceContext) → find_context ctx contexts ≡ some c → (c.fd ≡ none) ⊎ (r.close_failed ≡ 0)

-- One call that the server makes on the devices.
pub data Step {O : Type 0} (S : Calls O) : Devices O → Devices O → Type 0 where
  opening : (d : Devices O) (path : List ℕ) → Step S d (device_open S d path).1
  closing : (d d' : Devices O) (ctx : ℕ) → device_close S d ctx ≡ some d' → Step S d d'
  reopening :
      (d d' : Devices O) (ctx : ℕ) (r : ReopenResult)
      → reopen S d ctx ≡ some (r, d')
      → ClosesCleanly d.contexts ctx r
      → Step S d d'
  reading :
      (d d' : Devices O) (ctx : ℕ) (buffer : List ℕ) (offset len : ℕ) (r : OsReadResult)
      → os_read S d ctx buffer offset len ≡ some (r, d')
      → Step S d d'

-- The states that calls lead to from one in which no device is open.
pub data Reachable {O : Type 0} (S : Calls O) : Devices O → Type 0 where
  starting : (os : O) → Reachable S (record { os = os; contexts = [] })
  stepping : (d d' : Devices O) → Reachable S d → Step S d d' → Reachable S d'

module _ {O : Type 0} {S : Calls O} (L : FdLaws S) where
  -- A descriptor from open_device was not open before and is open now, and those that were open
  -- still are.
  Opened : O → Option ℕ × O → Type 0
  Opened os r =
      ((f : ℕ) → r.0 ≡ some f → (L.is_open os f ≡ false) × (L.is_open r.1 f ≡ true))
      × ((g : ℕ) → L.is_open os g ≡ true → L.is_open r.1 g ≡ true)

  path-Opened : (os : O) (p : List ℕ) (m : Mode) → Opened os (S.open_path os p m)
  unfolding Opened
  path-Opened os p m =
      (λ f e. (L.open_fresh os p m f e, L.open_opens os p m f e), L.open_keeps os p m)

  open_device-Opened : (os : O) (p : List ℕ) → Opened os (open_device S os p)
  unfolding open_device Opened
  open_device-Opened os p =
      let r = S.open_path os p read_write in
      elim (Option-cases r.0) [
        | inr (f, e) ↦
            let eq : open_device S os p ≡ (some f, r.1) = rw (open_device, e) refl in
            subst (Opened os) (sym eq)
              (subst (λ o. Opened os (o, r.1)) e (path-Opened os p read_write))
        | inl e ↦ elim (Bool-cases (denied S r.1)) [
          | inl again ↦
              let eq : open_device S os p ≡ S.open_path r.1 p read_only =
                rw (open_device, e, again) refl in
              subst (Opened os) (sym eq) (
                λ f e'. (
                  sym (L.open_fails os p read_write f e) ∙ L.open_fresh r.1 p read_only f e',
                  L.open_opens r.1 p read_only f e',
                ),
                λ g was. L.open_keeps r.1 p read_only g (L.open_keeps os p read_write g was),
              )
          | inr never ↦
              let eq : open_device S os p ≡ (none, r.1) = rw (open_device, e, never) refl in
              subst (Opened os) (sym eq)
                (λ f none_some. absurd (ground arith), L.open_keeps os p read_write)
        ]
      ]

  -- Each descriptor that a context holds and that is not negative is open and held by it alone.
  KeepsOwned : Devices O → Type 0
  KeepsOwned d = Owned (L.is_open d.os) d.contexts

  fill_context-Owned :
      (address : ℕ) (path : List ℕ) (os : O) (cs : List DeviceContext)
      → Owned (L.is_open os) cs
      → KeepsOwned (fill_context S address path os cs).1
  unfolding fill_context KeepsOwned Opened Owned
  fill_context-Owned address path os cs held =
      let (fd, os') = open_device S os path in
      let (new, still) = open_device-Opened os path in
      let kept = Owned-kept (L.is_open os) (L.is_open os') cs still held in
      elim (Bool-cases (not_positive fd)) [
        | inl bad ↦ rw (fill_context, bad) kept
        | inr good ↦
            rw (fill_context, good)
              (
                (λ f e. (new f e).1),
                Owned-Apart (L.is_open os) fd cs (λ f e. (new f e).0) held,
                kept,
              )
      ]

  after : {R : Type 0} {x y : R × Devices O} → some x ≡ some y → KeepsOwned x.1 → KeepsOwned y.1
  after e = subst (λ x. KeepsOwned x.1) (some-injective _ _ e)

  device_open-Owned :
      (d : Devices O) (path : List ℕ) → KeepsOwned d → KeepsOwned (device_open S d path).1
  unfolding device_open KeepsOwned
  device_open-Owned d path held =
      let (real, os) = S.realpath d.os path in
      let name : List ℕ = elim real [ none ↦ path | some p ↦ p ] in
      let (address, os') = S.new_context os in
      let held' =
        Owned-kept (L.is_open d.os) (L.is_open os') d.contexts
          (λ f was. L.new_keeps os f ∙ L.realpath_keeps d.os path f ∙ was) held in
      elim (Bool-cases (address == 0)) [
        | inl null ↦ rw (device_open, null) held'
        | inr there ↦ rw (device_open, there) (fill_context-Owned address name os' d.contexts held')
      ]

  device_close-Owned :
      (d d' : Devices O) (ctx : ℕ) → device_close S d ctx ≡ some d' → KeepsOwned d → KeepsOwned d'
  unfolding device_close KeepsOwned
  device_close-Owned d d' ctx runs held = elim (Bool-cases (ctx == 0)) [
    | inl null ↦ subst KeepsOwned (some-injective d d' (rw null at runs)) held
    | inr live ↦ elim (Option-cases (find_context ctx d.contexts)) [
      | inl gone ↦ absurd (ground (arith, rw (live, gone) at runs))
      | inr (c, found) ↦
          let (kept, others) = Owned-free (L.is_open d.os) ctx d.contexts c held found in
          let eq : record { os = (S.close d.os c.fd).1; contexts = free_context ctx d.contexts }
              ≡ d' =
            some-injective _ d' (rw (live, found) at runs) in
          subst KeepsOwned eq (
            Owned-without (L.is_open d.os) (L.is_open (S.close d.os c.fd).1) c.fd _
              (λ f other was. L.close_keeps d.os c.fd f other ∙ was) others kept)
    ]
  ]

  reopen-Owned :
      (d d' : Devices O) (ctx : ℕ) (r : ReopenResult)
      → reopen S d ctx ≡ some (r, d')
      → ClosesCleanly d.contexts ctx r
      → KeepsOwned d
      → KeepsOwned d'
  unfolding reopen KeepsOwned Opened ClosesCleanly
  reopen-Owned d d' ctx r runs clean held = elim (Bool-cases (ctx == 0)) [
    | inl null ↦ after (rw null at runs) held
    | inr live ↦ elim (Option-cases (find_context ctx d.contexts)) [
      | inl gone ↦ absurd (ground (arith, rw (live, gone) at runs))
      | inr (c, found) ↦ elim (Bool-cases (S.close d.os c.fd).0) [
        | inl closed ↦
            let os = (S.close d.os c.fd).1 in
            let (fd, os') = open_device S os c.device_path in
            let (kept, others) = Owned-free (L.is_open d.os) ctx d.contexts c held found in
            let kept' =
              Owned-without (L.is_open d.os) (L.is_open os) c.fd _
                (λ f other was. L.close_keeps d.os c.fd f other ∙ was) others kept in
            let (new, still) = open_device-Opened os c.device_path in
            after (rw (live, found, closed) at runs) (
              Owned-set (L.is_open os') ctx fd d.contexts (λ f e. (new f e).1)
                (Owned-kept (L.is_open os) (L.is_open os') _ still kept')
                (Owned-Apart (L.is_open os) fd _ (λ f e. (new f e).0) kept'))
        | inr failed ↦
            let told : 1 ≡ r.close_failed =
              ap (λ x. x.0.close_failed)
                (some-injective _ (r, d') (rw (live, found, failed) at runs)) in
            after (rw (live, found, failed) at runs) (
              Owned-kept (L.is_open d.os) (L.is_open (S.close d.os c.fd).1) d.contexts
                (λ f was.
                  L.close_keeps d.os c.fd f (λ e. elim (clean c found) [
                    | inl negative ↦ absurd (ground (arith, sym negative ∙ e))
                    | inr reported ↦ absurd (omega (arith, told, reported))
                  ])
                  ∙ was)
                held)
      ]
    ]
  ]

  os_read-Owned :
      (d d' : Devices O) (ctx : ℕ) (buffer : List ℕ) (offset len : ℕ) (r : OsReadResult)
      → os_read S d ctx buffer offset len ≡ some (r, d')
      → KeepsOwned d
      → KeepsOwned d'
  unfolding os_read KeepsOwned
  os_read-Owned d d' ctx buffer offset len r runs held = elim (Bool-cases (ctx == 0)) [
    | inl null ↦ after (rw null at runs) held
    | inr live ↦ elim (Option-cases (find_context ctx d.contexts)) [
      | inl gone ↦ absurd (ground (arith, rw (live, gone) at runs))
      | inr (c, found) ↦
          let os = (S.lseek d.os c.fd offset).1 in
          let kept =
            Owned-kept (L.is_open d.os) (L.is_open os) d.contexts
              (λ f was. L.lseek_keeps d.os c.fd offset f ∙ was) held in
          elim (Bool-cases (S.lseek d.os c.fd offset).0) [
            | inr failed ↦ after (rw (live, found, failed) at runs) kept
            | inl sought ↦
                let kept' =
                  Owned-kept (L.is_open os) (L.is_open (S.read os c.fd len).1) d.contexts
                    (λ f was. L.read_keeps os c.fd len f ∙ was) kept in
                elim (Option-cases (S.read os c.fd len).0) [
                  | inl failed ↦ after (rw (live, found, sought, failed) at runs) kept'
                  | inr (bytes, got) ↦ after (rw (live, found, sought, got) at runs) kept'
                ]
          ]
    ]
  ]

  Step-Owned : (d d' : Devices O) → Step S d d' → KeepsOwned d → KeepsOwned d'
  Step-Owned d d' (opening _ path) held = device_open-Owned d path held
  Step-Owned d d' (closing _ _ ctx runs) held = device_close-Owned d d' ctx runs held
  Step-Owned d d' (reopening _ _ ctx r runs clean) held = reopen-Owned d d' ctx r runs clean held
  Step-Owned d d' (reading _ _ ctx buffer offset len r runs) held =
      os_read-Owned d d' ctx buffer offset len r runs held

  -- On a system that meets FdLaws, in every state that calls of DeviceOpen, DeviceClose, ReOpen and
  -- OsRead of Linux lead to from one without contexts, where no ReOpen of a context whose
  -- descriptor is not negative sees close fail: every descriptor that a context holds and that is
  -- not negative (it is negative after a ReOpen that could not open the device) is open, and no two
  -- contexts hold the same one of these.
  pub Reachable-Owned : (d : Devices O) → Reachable S d → Owned (L.is_open d.os) d.contexts
  unfolding KeepsOwned Owned
  Reachable-Owned d (starting os) = tt
  Reachable-Owned d' (stepping d _ before step) = Step-Owned d d' step (Reachable-Owned d before)
