-- ===== src/Queue/Admin.antt =====
-- modules/dnvme/queue.c: the admin queues, the doorbell of a submission queue, and the end of all
-- queues.
use dnvme.Base.{
  ℕ, ◌+◌, ◌-◌, ◌*◌, ◌/◌, ◌%◌, Bool, true, false, ◌&&◌, ◌||◌, Option, none, some, [], ◌∷◌, ◌++◌, ltb,
  ◌==◌, if◌then◌else◌, replicate, length,
}
use dnvme.Base.Dict.{Dict, lookup, update}
use dnvme.Device.{
  Status, done, fail, einval, eexist, eperm, enomem, Cq, Sq, Device, write_reg, write_db, State,
  disable_complete,
}
use dnvme.Phase.{blank}
use dnvme.Queue.{
  PrepSq, PrepCq, QueueMem, alloc_sq, alloc_cq, release_sq, release_cq, release_cmds, blank_command,
}

-- Offsets of the registers, include/uapi/nvme/property.h.
abbrev pub reg_aqa : ℕ
reg_aqa = 0x24

abbrev pub reg_asq : ℕ
reg_asq = 0x28

abbrev pub reg_acq : ℕ
reg_acq = 0x30

abbrev pub aq_max_size : ℕ
aq_max_size = 4096

-- `cc & NVME_CC_ENABLE`
unfoldable pub cc_enabled : ℕ → Bool
cc_enabled cc = cc % 2 == 1

-- `dnvme_check_qid_unique` for either kind of queue.
unfoldable pub check_qid_unique {ℓ} : {V : Type ℓ} → Dict V → ℕ → Status
check_qid_unique m id = elim (lookup id m) [ some _ ↦ fail eexist | none ↦ done ]

-- `aqa` with the size of the admin submission queue, 0's based, in bits 11:0.
unfoldable pub aqa_with_asqs : ℕ → ℕ → ℕ
aqa_with_asqs aqa elements = aqa / 4096 * 4096 + (elements - 1) % 4096

-- `aqa` with the size of the admin completion queue in bits 27:16.
unfoldable pub aqa_with_acqs : ℕ → ℕ → ℕ
aqa_with_acqs aqa elements =
    aqa / 268435456 * 268435456 + (elements - 1) % 4096 * 65536 + aqa % 65536

abbrev pub asq_prep : ℕ → PrepSq
asq_prep elements = record {
  elements = elements;
  sq_id = 0;
  cq_id = 0;
  contig = true;
  use_cmb = false;
}

abbrev pub acq_prep : ℕ → PrepCq
acq_prep elements = record {
  elements = elements;
  cq_id = 0;
  cq_irq_en = true;
  cq_irq_no = 0;
  contig = true;
  use_cmb = false;
}

unfoldable pub program_asq : ℕ → ℕ → Option Sq × Device → Status × Device
program_asq aqa elements (none, dev) = (fail enomem, dev)
program_asq aqa elements (some sq, dev) = (
  done,
  record dev {
    io = write_reg reg_asq sq.dma ∷ write_reg reg_aqa (aqa_with_asqs aqa elements) ∷ dev.io;
  },
)

-- `cc` and `aqa` are what the controller's registers read as.
unfoldable pub create_asq : QueueMem → ℕ → ℕ → Device → ℕ → Status × Device
unfolding check_qid_unique program_asq cc_enabled
create_asq mem cc aqa dev elements =
    if elements == 0 || ltb aq_max_size elements
    then (fail einval, dev)
    else elim (check_qid_unique dev.sqs 0) [
      | fail e ↦ (fail e, dev)
      | done ↦
          if cc_enabled cc
          then (fail eperm, dev)
          else program_asq aqa elements (alloc_sq mem dev (asq_prep elements) 6)
    ]

unfoldable pub program_acq : ℕ → ℕ → Option Cq × Device → Status × Device
program_acq aqa elements (none, dev) = (fail enomem, dev)
program_acq aqa elements (some cq, dev) = (
  done,
  record dev {
    io = write_reg reg_acq cq.dma ∷ write_reg reg_aqa (aqa_with_acqs aqa elements) ∷ dev.io;
  },
)

unfoldable pub create_acq : QueueMem → ℕ → ℕ → Device → ℕ → Status × Device
unfolding check_qid_unique program_acq cc_enabled
create_acq mem cc aqa dev elements =
    if elements == 0 || ltb aq_max_size elements
    then (fail einval, dev)
    else elim (check_qid_unique dev.cqs 0) [
      | fail e ↦ (fail e, dev)
      | done ↦
          if cc_enabled cc
          then (fail eperm, dev)
          else program_acq aqa elements (alloc_cq mem dev (acq_prep elements) 4)
    ]

-- `dnvme_reinit_asq`, on the node and on the device.
unfoldable pub reinit_asq_node : Sq → Sq
reinit_asq_node sq = record sq {
  cmd_list = [];
  head_ptr = 0;
  tail_ptr = 0;
  tail_ptr_virt = 0;
  next_cid = 0;
  slots = replicate (length sq.slots) blank_command;
}

unfoldable pub reinit_asq : Device → Sq → Device
unfolding reinit_asq_node
reinit_asq dev sq = record dev {
  sqs = update sq.sq_id reinit_asq_node dev.sqs;
  io = release_cmds sq.cmd_list ++ dev.io;
}

unfoldable pub reinit_acq_node : Cq → Cq
reinit_acq_node cq = record cq {
  head_ptr = 0;
  tail_ptr = 0;
  pbit_new_entry = true;
  irq_enabled = true;
  slots = replicate (length cq.slots) blank;
}

unfoldable pub reinit_acq : Device → Cq → Device
unfolding reinit_acq_node
reinit_acq dev cq = record dev { cqs = update cq.q_id reinit_acq_node dev.cqs }

unfoldable pub ring_sq_doorbell : Device → ℕ → Status × Device
ring_sq_doorbell dev sq_id = elim (lookup sq_id dev.sqs) [
  | none ↦ (fail einval, dev)
  | some sq ↦ (
    done,
    record dev {
      sqs = update sq_id (λ q. record q { tail_ptr = q.tail_ptr_virt }) dev.sqs;
      io = write_db sq.db sq.tail_ptr_virt ∷ dev.io;
    },
  )
]

-- The two `xa_for_each` loops, over the entries as they stand when the loop starts.
unfoldable pub delete_all_sqs : Bool → Dict Sq → Device → Device
delete_all_sqs save_aq [] dev = dev
delete_all_sqs save_aq ((i, sq) ∷ m) dev =
    delete_all_sqs save_aq m
      (if save_aq && sq.sq_id == 0 then reinit_asq dev sq else release_sq dev sq)

unfoldable pub delete_all_cqs : Bool → Dict Cq → Device → Device
delete_all_cqs save_aq [] dev = dev
delete_all_cqs save_aq ((i, cq) ∷ m) dev =
    delete_all_cqs save_aq m
      (if save_aq && cq.q_id == 0 then reinit_acq dev cq else release_cq dev cq)

-- Whether the admin queues are saved.
abbrev pub saves_aq : State → Bool
saves_aq disable_complete = false
saves_aq _ = true

unfoldable pub delete_all_queues : Device → State → Device
delete_all_queues dev state =
    let save_aq = saves_aq state in
    let dev₁ = delete_all_sqs save_aq dev.sqs dev in
    let dev₂ = delete_all_cqs save_aq dev₁.cqs dev₁ in
    if save_aq then dev₂ else record dev₂ {
      io = write_reg reg_acq 0 ∷ write_reg reg_asq 0 ∷ write_reg reg_aqa 0 ∷ dev₂.io;
    }
