-- ===== src/Irq/Check.antt =====
-- modules/dnvme/irq.c: what `dnvme_set_interrupt` tests before it touches the active scheme:
-- `init_msix_ptr` and `check_interrupt`. What the registers and PCI capabilities hold is an argument.
use dnvme.Base.{
  ℕ, ◌+◌, ◌-◌, ◌/◌, ◌%◌, ◌^◌, Bool, ◌||◌, Option, none, some, ltb, ◌==◌, if◌then◌else◌, not,
}
use dnvme.Device.{Status, done, fail, einval, IrqType, msi_single, msi_multi, msix, pin, int_none}

-- `struct nvme_interrupt`; `none` is a number that no type has.
pub record Interrupt : Type 0 where
  pub irq_type : Option IrqType
  pub num_irqs : ℕ

-- `struct pci_cap_msix`, with the offset at which it stands.
pub record CapMsix : Type 0 where
  pub offset : ℕ
  pub mc : ℕ
  pub table : ℕ
  pub pba : ℕ

-- The capabilities found at probe, CC as it reads, and `pci_msi_read_mc` with what it answers.
pub record IrqHw : Type 0 where
  pub cc : ℕ
  pub msi : Option ℕ
  pub msi_mc_ret : Status
  pub msi_mc : ℕ
  pub msix : Option CapMsix
  pub bar0 : ℕ

-- The `msix` part of `struct nvme_irq_set`; 0 is a null pointer, or no size known yet.
pub record MsixPtr : Type 0 where
  pub irqs : ℕ
  pub tb : ℕ
  pub pba : ℕ

-- PCI_MSI_VEC_MAX and PCI_MSIX_VEC_MAX
abbrev pub pci_msi_vec_max : ℕ
pci_msi_vec_max = 32

abbrev pub pci_msix_vec_max : ℕ
pci_msix_vec_max = 2048

-- Both `switch` statements: the table and the pending bits have to lie in BAR0, and the size is
-- stored before either test.
unfoldable pub init_msix_ptr : ℕ → CapMsix → MsixPtr → Status × MsixPtr
init_msix_ptr bar0 cap ptr =
    if not (ptr.irqs == 0)
    then (done, ptr)
    else let sized = record ptr { irqs = cap.mc % 2048 + 1 } in
      if not (cap.table % 8 == 0)
      then (fail einval, sized)
      else let tabled = record sized { tb = bar0 + (cap.table - cap.table % 8) } in
        if not (cap.pba % 8 == 0)
        then (fail einval, tabled)
        else (done, record tabled { pba = bar0 + (cap.pba - cap.pba % 8) })

-- `!cap->msi || !cap->msi->offset`
unfoldable pub has_msi : Option ℕ → Bool
has_msi none = Bool.false
has_msi (some offset) = not (offset == 0)

unfoldable pub check_msi_single : IrqHw → ℕ → Status
unfolding has_msi
check_msi_single hw num =
    if not (num == 1) then fail einval else if has_msi hw.msi then done else fail einval

-- `1 << ((mc & PCI_MSI_FLAGS_QMASK) >> 1)`
abbrev pub msi_capable : ℕ → ℕ
msi_capable mc = 2 ^ (mc / 2 % 8)

unfoldable pub check_msi_multi : IrqHw → ℕ → Status
unfolding has_msi
check_msi_multi hw num =
    if ltb pci_msi_vec_max num || (num == 0)
    then fail einval
    else if has_msi hw.msi
    then elim hw.msi_mc_ret [
      | fail e ↦ fail e
      | done ↦ if ltb (msi_capable hw.msi_mc) num then fail einval else done
    ]
    else fail einval

unfoldable pub check_table : ℕ → Status × MsixPtr → Status × MsixPtr
check_table num (fail e, ptr) = (fail e, ptr)
check_table num (done, ptr) = if ltb ptr.irqs num then (fail einval, ptr) else (done, ptr)

unfoldable pub check_msix : IrqHw → ℕ → MsixPtr → Status × MsixPtr
unfolding init_msix_ptr check_table
check_msix hw num ptr =
    if ltb pci_msix_vec_max num || (num == 0) then (fail einval, ptr) else elim hw.msix [
      | none ↦ (fail einval, ptr)
      | some cap ↦
          if cap.offset == 0
          then (fail einval, ptr)
          else check_table num (init_msix_ptr hw.bar0 cap ptr)
    ]

-- The `switch` of `check_interrupt`.
unfoldable pub check_scheme : IrqHw → ℕ → Option IrqType → MsixPtr → Status × MsixPtr
unfolding check_msi_single check_msi_multi check_msix
check_scheme hw num none ptr = (fail einval, ptr)
check_scheme hw num (some msi_single) ptr = (check_msi_single hw num, ptr)
check_scheme hw num (some msi_multi) ptr = (check_msi_multi hw num, ptr)
check_scheme hw num (some msix) ptr = check_msix hw num ptr
check_scheme hw num (some pin) ptr = (done, ptr)
check_scheme hw num (some int_none) ptr = (done, ptr)

unfoldable pub check_interrupt : IrqHw → Interrupt → MsixPtr → Status × MsixPtr
unfolding check_scheme
check_interrupt hw irq ptr =
    if hw.cc % 2 == 1 then (fail einval, ptr) else check_scheme hw irq.num_irqs irq.irq_type ptr
