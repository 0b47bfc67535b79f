-- ===== src/Irq/Limits.antt =====
-- modules/dnvme/irq.c: what `check_interrupt` lets through, and the pointers that `init_msix_ptr`
-- leaves behind.
use dnvme.Base.{
  ℕ, ◌%◌, ◌≤◌, ◌<◌, ◌≡◌, true, false, ◌||◌, Option, none, some, ltb, ◌==◌, if-elim, Bool-cases, inl,
  inr, arith, Option-cases,
}
use mathlib.Core.Path.{subst}
use dnvme.Device.{Status, done, fail, einval, IrqType, msi_single, msi_multi, msix, pin, int_none}
use dnvme.Irq.Check.{
  Interrupt, CapMsix, IrqHw, MsixPtr, init_msix_ptr, has_msi, check_msi_single, check_msi_multi,
  msi_capable, check_table, check_msix, check_scheme, check_interrupt,
}

-- How many interrupts a scheme that was let through has.
abbrev pub Fits : IrqHw → Option IrqType → ℕ → Status × MsixPtr → Type 0
Fits hw asked num (fail e, ptr) = Unit
Fits hw none num (done, ptr) = true ≡ false
Fits hw (some msi_single) num (done, ptr) = (num ≡ 1) × (has_msi hw.msi ≡ true)
Fits hw (some msi_multi) num (done, ptr) =
    (0 < num) × (num ≤ 32) × (num ≤ msi_capable hw.msi_mc) × (has_msi hw.msi ≡ true)
Fits hw (some msix) num (done, ptr) = (0 < num) × (num ≤ 2048) × (num ≤ ptr.irqs)
Fits hw (some pin) num (done, ptr) = Unit
Fits hw (some int_none) num (done, ptr) = Unit

module _ (hw : IrqHw) (num : ℕ) (ptr : MsixPtr) where
  check_msi_single-Fits : Fits hw (some msi_single) num (check_msi_single hw num, ptr)
  unfolding check_msi_single
  check_msi_single-Fits = ground arith

  check_msi_multi-Fits : Fits hw (some msi_multi) num (check_msi_multi hw num, ptr)
  unfolding check_msi_multi
  check_msi_multi-Fits = ground arith

  check_table-Fits :
      (r : Status × MsixPtr) → 0 < num → num ≤ 2048 → Fits hw (some msix) num (check_table num r)
  unfolding check_table
  check_table-Fits (fail e, p) a b = tt
  check_table-Fits (done, p) a b = ground arith

  check_msix-Fits : Fits hw (some msix) num (check_msix hw num ptr)
  unfolding check_msix
  check_msix-Fits = elim (Bool-cases (ltb 2048 num || (num == 0))) [
    | inl e ↦ rw (e, check_msix) tt
    | inr e ↦ elim (Option-cases hw.msix) [
      | inl f ↦ rw (e, f, check_msix) tt
      | inr (cap, f) ↦
          rw (e, f, check_msix)
            (if-elim (Fits hw (some msix) num) (cap.offset == 0) (λ _. tt)
              (λ _. check_table-Fits (init_msix_ptr hw.bar0 cap ptr) (ground arith) (ground arith)))
    ]
  ]

  check_scheme-Fits : (asked : Option IrqType) → Fits hw asked num (check_scheme hw num asked ptr)
  unfolding check_scheme
  check_scheme-Fits none = tt
  check_scheme-Fits (some msi_single) = check_msi_single-Fits
  check_scheme-Fits (some msi_multi) = check_msi_multi-Fits
  check_scheme-Fits (some msix) = check_msix-Fits
  check_scheme-Fits (some pin) = tt
  check_scheme-Fits (some int_none) = tt

-- Whatever `check_interrupt` lets through: the controller is disabled, the type is one that there
-- is, a single MSI is one interrupt, several MSI are 1 to 32 and no more than the capability has, and
-- MSI-X interrupts are 1 to 2048 and no more than the table has entries.
pub check_interrupt-Fits :
    (hw : IrqHw) (irq : Interrupt) (ptr ptr' : MsixPtr)
    → check_interrupt hw irq ptr ≡ (done, ptr')
    → (hw.cc % 2 ≡ 0) × Fits hw irq.irq_type irq.num_irqs (done, ptr')
unfolding check_interrupt
check_interrupt-Fits hw irq ptr ptr' run = elim (Bool-cases (hw.cc % 2 == 1)) [
  | inl e ↦ absurd (ground arith)
  | inr e ↦
      let ran : check_scheme hw irq.num_irqs irq.irq_type ptr ≡ (done, ptr') = ground arith in
      (
        ground arith,
        subst (Fits hw irq.irq_type irq.num_irqs) ran
            (check_scheme-Fits hw irq.num_irqs ptr irq.irq_type),
      )
]

-- A device whose MSI-X table is not in BAR0 is refused by the first `init_msix_ptr`, and accepted by
-- the next, though the pointer to the table is still the one from before.
pub init_msix_ptr-forgets :
    (bar0 : ℕ) (cap : CapMsix) (ptr : MsixPtr)
    → ptr.irqs ≡ 0
    → (cap.table % 8 == 0) ≡ false
    → let first = init_msix_ptr bar0 cap ptr in
      (first.0 ≡ fail einval)
      × (init_msix_ptr bar0 cap first.1 ≡ (done, first.1))
      × (first.1.tb ≡ ptr.tb)
unfolding init_msix_ptr
init_msix_ptr-forgets bar0 cap ptr fresh elsewhere = ground arith
