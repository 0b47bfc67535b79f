-- ===== src/Irq/Handler.antt =====
-- modules/dnvme/irq.c: masks, the interrupt handler, and the work item that it queues.
use dnvme.Base.{ℕ, ◌%◌, ◌^◌, Bool, true, false, none, some, List, [], ◌∷◌, ◌++◌, if◌then◌else◌}
use dnvme.Device.{
  IrqType, msi_single, msi_multi, msix, pin, int_none, IrqSet, Device, Effect, write_reg,
  mask_vector, unmask_vector,
}
use dnvme.Irq.{find_icq_node, find_work_node_by_vec, delete_icq_node, inc_isr_count}

-- NVME_REG_INTMS and NVME_REG_INTMC
abbrev pub reg_intms : ℕ
reg_intms = 0x0c

abbrev pub reg_intmc : ℕ
reg_intmc = 0x10

-- `0x1 << irq_no`
abbrev pub mask_bit : ℕ → ℕ
mask_bit irq_no = 2 ^ irq_no % 4294967296

-- `dnvme_mask_interrupt`; with MSI-X the mask bit of the table entry is set.
unfoldable pub mask_effect : IrqType → ℕ → List Effect
mask_effect pin irq_no = write_reg reg_intms (mask_bit irq_no) ∷ []
mask_effect msi_single irq_no = write_reg reg_intms (mask_bit irq_no) ∷ []
mask_effect msi_multi irq_no = write_reg reg_intms (mask_bit irq_no) ∷ []
mask_effect msix irq_no = mask_vector irq_no ∷ []
mask_effect int_none irq_no = []

unfoldable pub mask_interrupt : Device → ℕ → Device
unfolding mask_effect
mask_interrupt dev irq_no = record dev { io = mask_effect dev.irq_set.irq_type irq_no ++ dev.io }

unfoldable pub unmask_effect : IrqType → ℕ → List Effect
unmask_effect pin irq_no = write_reg reg_intmc (mask_bit irq_no) ∷ []
unmask_effect msi_single irq_no = write_reg reg_intmc (mask_bit irq_no) ∷ []
unmask_effect msi_multi irq_no = write_reg reg_intmc (mask_bit irq_no) ∷ []
unmask_effect msix irq_no = unmask_vector irq_no ∷ []
unmask_effect int_none irq_no = []

unfoldable pub unmask_interrupt : Device → ℕ → Device
unfolding unmask_effect
unmask_interrupt dev irq_no = record dev {
  io = unmask_effect dev.irq_set.irq_type irq_no ++ dev.io;
}

-- `queue_work`: an item that is queued already is not queued twice.
unfoldable pub queue_work : IrqSet → ℕ → IrqSet
unfolding find_icq_node
queue_work set irq_id =
    if find_icq_node set.queued irq_id
    then set
    else record set { queued = set.queued ++ (irq_id ∷ []) }

-- `dnvme_interrupt`: whether the interrupt was handled, and the device.
unfoldable pub interrupt : Device → ℕ → Bool × Device
unfolding mask_interrupt queue_work
interrupt dev int_vec = elim (find_work_node_by_vec dev.irq_set.work_list int_vec) [
  | none ↦ (false, dev)
  | some w ↦
      let dev' = mask_interrupt dev w.irq_id in
      (true, record dev' { irq_set = queue_work dev'.irq_set w.irq_id })
]

-- `update_irq_flag`, once the kernel takes the work item off its queue.
unfoldable pub update_irq_flag : Device → ℕ → Device
update_irq_flag dev irq_id = record dev {
  irq_set =
      inc_isr_count (record dev.irq_set { queued = delete_icq_node irq_id dev.irq_set.queued })
        irq_id;
}
