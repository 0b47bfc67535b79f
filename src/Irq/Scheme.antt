-- ===== src/Irq/Scheme.antt =====
-- modules/dnvme/irq.c: the pin and the two MSI schemes, `dnvme_clean_interrupt`, and
-- `dnvme_set_interrupt`, which leaves one scheme for another.
use dnvme.Base.{ℕ, ◌+◌, Bool, true, false, Option, none, some, List, [], ◌∷◌, ◌++◌, if◌then◌else◌}
use dnvme.Device.{
  efault, ebadrqc, enomem, Status, done, fail, Irq, IrqType, msi_single, msi_multi, msix, pin,
  int_none, IrqSet, Effect, write_reg, request_irq, free_irq, disable_msix, enable_msi, disable_msi,
  enable_int_pin, disable_int_pin,
}
use dnvme.Irq.{inc_isr_count, create_irq_work_pair}
use dnvme.Irq.Handler.{reg_intms, reg_intmc}
use dnvme.Irq.Setup.{MsixMem, request_irqs, free_irqs, create_pairs, destroy_pairs, set_int_msix}
use dnvme.Irq.Check.{Interrupt, IrqHw, MsixPtr, check_interrupt}

-- What the kernel answers: the copy from the user, the work queue, `pci_enable_msi` or
-- `pci_alloc_irq_vectors`, `pdev->irq` as it is then, the vectors of the MSI-X entries, and the answers
-- to `request_irq` and to the allocations, of which the other schemes read their parts.
pub record SchemeMem : Type 0 where
  pub copy_in : Bool
  pub wq : Bool
  pub msi : Status
  pub irq : ℕ
  pub entry_vec : ℕ → ℕ
  pub answers : MsixMem

-- The interrupt set, and what has been done to the outside.
abbrev pub Run : Type 0
Run = Status × IrqSet × List Effect

-- `clear_int_mask(bar0, UINT_MAX)` and `set_int_mask(bar0, UINT_MAX)`
abbrev pub clear_int_mask : Effect
clear_int_mask = write_reg reg_intmc 4294967295

abbrev pub set_int_mask : Effect
set_int_mask = write_reg reg_intms 4294967295

unfoldable pub finish_pin : ℕ → Status × IrqSet → List Effect → Run
finish_pin irq (fail e, set) io = (fail e, set, free_irq irq ∷ io)
finish_pin irq (done, set) io = (done, set, enable_int_pin ∷ clear_int_mask ∷ io)

unfoldable pub set_int_pin : SchemeMem → IrqSet → List Effect → Run
unfolding finish_pin
set_int_pin mem set io = elim (mem.answers.request 0) [
  | fail e ↦ (fail e, set, io)
  | done ↦
      finish_pin mem.irq (create_irq_work_pair (mem.answers.pair 0) set mem.irq 0)
        (request_irq mem.irq ∷ io)
]

unfoldable pub finish_msi_single : ℕ → Status × IrqSet → List Effect → Run
finish_msi_single irq (fail e, set) io =
    (fail e, set, set_int_mask ∷ disable_msi ∷ free_irq irq ∷ io)
finish_msi_single irq (done, set) io = (done, set, io)

unfoldable pub set_int_msi_single : SchemeMem → IrqSet → List Effect → Run
unfolding finish_msi_single
set_int_msi_single mem set io = elim mem.msi [
  | fail e ↦ (fail e, set, set_int_mask ∷ clear_int_mask ∷ io)
  | done ↦ elim (mem.answers.request 0) [
    | fail e ↦ (fail e, set, set_int_mask ∷ disable_msi ∷ enable_msi ∷ clear_int_mask ∷ io)
    | done ↦
        finish_msi_single mem.irq (create_irq_work_pair (mem.answers.pair 0) set mem.irq 0)
          (request_irq mem.irq ∷ enable_msi ∷ clear_int_mask ∷ io)
  ]
]

-- The vectors of the MSI block.
abbrev pub msi_vec : ℕ → ℕ → ℕ
msi_vec irq i = irq + i

-- From the label `out3` or the end of the loop over the pairs on.
unfoldable pub finish_msi_multi : ℕ → ℕ → Status × ℕ × IrqSet → List Effect → Run
finish_msi_multi irq i (fail e, j, set) io =
    (fail e, destroy_pairs j set, set_int_mask ∷ free_irqs (msi_vec irq) i io)
finish_msi_multi irq i (done, j, set) io = (done, set, io)

unfoldable pub pair_msi_multi : SchemeMem → ℕ → IrqSet → Status × ℕ × List Effect → Run
unfolding finish_msi_multi
pair_msi_multi mem num set (fail e, i, io) =
    (fail e, set, set_int_mask ∷ free_irqs (msi_vec mem.irq) i io)
pair_msi_multi mem num set (done, i, io) =
    finish_msi_multi mem.irq i (create_pairs mem.answers.pair (msi_vec mem.irq) num 0 set) io

unfoldable pub set_int_msi_multi : SchemeMem → ℕ → IrqSet → List Effect → Run
unfolding pair_msi_multi
set_int_msi_multi mem num set io = elim mem.msi [
  | fail e ↦ (fail e, set, set_int_mask ∷ clear_int_mask ∷ io)
  | done ↦
      pair_msi_multi mem num set (
        request_irqs mem.answers.request (msi_vec mem.irq) num 0 (enable_msi ∷ clear_int_mask ∷ io))
]

-- The work items that wait are run to their end.
unfoldable pub flush_workqueue : List ℕ → IrqSet → IrqSet
flush_workqueue [] set = record set { queued = [] }
flush_workqueue (irq_id ∷ ids) set = flush_workqueue ids (inc_isr_count set irq_id)

unfoldable pub destroy_irq_work_queue : IrqSet → IrqSet
unfolding flush_workqueue
destroy_irq_work_queue set =
    if set.wq then record (flush_workqueue set.queued set) { wq = false } else set

unfoldable pub create_irq_work_queue : Bool → IrqSet → Status × IrqSet
create_irq_work_queue alloc set =
    if set.wq
    then (done, set)
    else if alloc
    then (done, record set { wq = true })
    else (fail enomem, set)

-- `free_irq` of every node.
unfoldable pub free_nodes : List Irq → List Effect → List Effect
free_nodes [] io = io
free_nodes (n ∷ ns) io = free_nodes ns (free_irq n.int_vec ∷ io)

unfoldable pub disable_scheme : IrqType → List Effect
disable_scheme msi_single = disable_msi ∷ []
disable_scheme msi_multi = disable_msi ∷ []
disable_scheme msix = disable_msix ∷ []
disable_scheme pin = disable_int_pin ∷ []
disable_scheme int_none = []

-- `delete_irq_list` and `delete_work_list` delete every node.
unfoldable pub clean_interrupt : IrqSet → List Effect → IrqSet × List Effect
unfolding free_nodes disable_scheme destroy_irq_work_queue
clean_interrupt set io = (
  record (destroy_irq_work_queue set) {
    irq_list = [];
    work_list = [];
    irq_type = int_none;
    nr_irq = 0;
  },
  disable_scheme set.irq_type ++ free_nodes set.irq_list io,
)

-- The `switch` over the types of `dnvme_set_interrupt`.
unfoldable pub set_scheme : SchemeMem → MsixPtr → IrqType → ℕ → IrqSet → List Effect → Run
unfolding set_int_msi_single set_int_msi_multi set_int_pin
set_scheme mem ptr msi_single num set io = set_int_msi_single mem set io
set_scheme mem ptr msi_multi num set io = set_int_msi_multi mem num set io
set_scheme mem ptr msix num set io = set_int_msix mem.answers ptr mem.entry_vec num set io
set_scheme mem ptr pin num set io = set_int_pin mem set io
set_scheme mem ptr int_none num set io = (done, set, io)

unfoldable pub finish_interrupt : IrqType → ℕ → Run → Run
finish_interrupt type num (fail e, set, io) = (fail e, destroy_irq_work_queue set, io)
finish_interrupt type num (done, set, io) = (done, record set { irq_type = type; nr_irq = num }, io)

-- From the `switch` on, with the work queue made or not.
unfoldable pub start_scheme :
    SchemeMem → MsixPtr → Option IrqType → ℕ → Status × IrqSet → List Effect → Run
unfolding set_scheme finish_interrupt
start_scheme mem ptr asked num (fail e, set) io = (fail e, set, io)
start_scheme mem ptr none num (done, set) io = (fail ebadrqc, destroy_irq_work_queue set, io)
start_scheme mem ptr (some type) num (done, set) io =
    finish_interrupt type num (set_scheme mem ptr type num set io)

-- `if (act_irq != NVME_INT_NONE) dnvme_clean_interrupt(ndev)`
unfoldable pub leave_scheme : IrqType → IrqSet → List Effect → IrqSet × List Effect
unfolding clean_interrupt
leave_scheme int_none set io = (set, io)
leave_scheme msi_single set io = clean_interrupt set io
leave_scheme msi_multi set io = clean_interrupt set io
leave_scheme msix set io = clean_interrupt set io
leave_scheme pin set io = clean_interrupt set io

unfoldable pub change_scheme : SchemeMem → MsixPtr → Interrupt → IrqSet → List Effect → Run
unfolding leave_scheme create_irq_work_queue start_scheme
change_scheme mem ptr irq set io =
    let (left, io') = leave_scheme set.irq_type set io in
    start_scheme mem ptr irq.irq_type irq.num_irqs (create_irq_work_queue mem.wq left) io'

unfoldable pub after_check :
    SchemeMem → Interrupt → Status × MsixPtr → IrqSet → List Effect → Run × MsixPtr
unfolding change_scheme
after_check mem irq (fail e, ptr) set io = ((fail e, set, io), ptr)
after_check mem irq (done, ptr) set io = (change_scheme mem ptr irq set io, ptr)

-- The pointers of MSI-X are kept whatever comes of the call.
unfoldable pub set_interrupt :
    SchemeMem → IrqHw → Interrupt → MsixPtr → IrqSet → List Effect → Run × MsixPtr
unfolding check_interrupt after_check
set_interrupt mem hw irq ptr set io =
    if mem.copy_in
    then after_check mem irq (check_interrupt hw irq ptr) set io
    else ((fail efault, set, io), ptr)
