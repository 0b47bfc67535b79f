-- ===== src/Queue/Prepare.antt =====
-- modules/dnvme/ioctl.c: the ioctls that allocate the memory of an I/O queue before its create
-- command is sent.
use dnvme.Base.{ℕ, ◌/◌, ◌%◌, Bool, not, ◌&&◌, ◌||◌, Option, none, some, ltb, ◌==◌, if◌then◌else◌}
use dnvme.Device.{Status, done, fail, einval, enomem, Cq, Sq, Device}
use dnvme.Irq.{dnvme_create_icq_node}
use dnvme.Queue.{PrepSq, PrepCq, QueueMem, alloc_sq, alloc_cq, release_cq}
use dnvme.Queue.Admin.{check_qid_unique}

-- NVME_CAP_CQR
unfoldable pub cap_cqr : ℕ → Bool
cap_cqr cap = cap / 65536 % 2 == 1

unfoldable pub prepared_sq : Option Sq × Device → Status × Device
prepared_sq (none, dev) = (fail enomem, dev)
prepared_sq (some sq, dev) = (done, dev)

unfoldable pub prepare_sq : QueueMem → Device → PrepSq → Status × Device
unfolding check_qid_unique prepared_sq cap_cqr
prepare_sq mem dev prep =
    if prep.elements == 0 || ltb dev.q_depth prep.elements
    then (fail einval, dev)
    else elim (check_qid_unique dev.sqs prep.sq_id) [
      | fail e ↦ (fail e, dev)
      | done ↦
          if cap_cqr dev.reg_cap && not prep.contig
          then (fail einval, dev)
          else prepared_sq (alloc_sq mem dev prep 6)
    ]

-- The end of `dnvme_prepare_cq`: the queue is tracked by its interrupt, or released again.
unfoldable pub track_cq : Bool → Device → Cq → Status × Device
track_cq alloc dev cq =
    let (ret, irqs) = dnvme_create_icq_node alloc dev.irq_set cq.q_id cq.irq_no in
    elim ret [
      | done ↦ (done, record dev { irq_set = irqs })
      | fail e ↦ (fail e, release_cq (record dev { irq_set = irqs }) cq)
    ]

unfoldable pub prepared_cq : Bool → Option Cq × Device → Status × Device
unfolding track_cq
prepared_cq alloc (none, dev) = (fail enomem, dev)
prepared_cq alloc (some cq, dev) = if cq.irq_enabled then track_cq alloc dev cq else (done, dev)

-- The second argument is whether the `icq` node can be allocated.
unfoldable pub prepare_cq : QueueMem → Bool → Device → PrepCq → Status × Device
unfolding check_qid_unique prepared_cq cap_cqr
prepare_cq mem alloc dev prep =
    if prep.elements == 0 || ltb dev.q_depth prep.elements
    then (fail einval, dev)
    else elim (check_qid_unique dev.cqs prep.cq_id) [
      | fail e ↦ (fail e, dev)
      | done ↦
          if cap_cqr dev.reg_cap && not prep.contig
          then (fail einval, dev)
          else prepared_cq alloc (alloc_cq mem dev prep 4)
    ]
