-- ===== src/Cmd/Reap.antt =====
-- modules/dnvme: the ioctls that count and reap completion entries, and `dnvme_reset_isr_flag` of
-- irq.c, which they call when a queue has run empty. `hang` is a walk over a queue that never ends,
-- `crash` an access through a null pointer.
use dnvme.Base.{
  ℕ, ◌+◌, ◌-◌, ◌/◌, ◌^◌, Bool, true, false, not, ◌&&◌, none, some, List, [], ◌∷◌, leb, ◌==◌,
  if◌then◌else◌, min,
}
use dnvme.Base.Dict.{lookup, update}
use dnvme.Device.{
  Errno, einval, efault, ebadslt, eperm, done, fail, Completion, Cq, Device, IrqType, int_none,
  msi_single, msi_multi, msix, pin, is_sound,
}
use dnvme.Phase.{null_prps, endless, counted, get_cqe_remain}
use dnvme.Irq.{find_irq_node_by_id, update_irq_node}
use dnvme.Irq.Handler.{unmask_interrupt}
use dnvme.Cmd.Complete.{Copied, copy_cq_data, update_cq_head}

-- How a call of this file ends.
pub data Reaped {ℓ} (A : Type ℓ) : Type ℓ where
  answer : A → Device → Reaped A
  error : Errno → Device → Reaped A
  hang : Reaped A
  crash : Reaped A

-- `dnvme_get_cqe_remain` of a queue of the device, with the tail that it leaves.
unfoldable pub remain_of : Device → Cq → Reaped ℕ
remain_of dev cq = elim (get_cqe_remain (cq.elements + 1) cq) [
  | null_prps ↦ crash
  | endless ↦ hang
  | counted cq' remain ↦
      answer remain
        (record dev { cqs = update cq.q_id (λ q. record q { tail_ptr = cq'.tail_ptr }) dev.cqs })
]

-- The loop over the tracked queues of an interrupt: the entries left in the first that is not empty.
unfoldable pub icqs_remain : Device → List ℕ → Reaped ℕ
icqs_remain dev [] = answer 0 dev
icqs_remain dev (cq_id ∷ ids) = elim (lookup cq_id dev.cqs) [
  | none ↦ error ebadslt dev
  | some cq ↦ elim (remain_of dev cq) [
    | hang ↦ hang
    | crash ↦ crash
    | error e dev' ↦ error e dev'
    | answer remain dev' ↦ elim (remain == 0) [
      | true ↦ icqs_remain dev' ids
      | false ↦ answer remain dev'
    ]
  ]
]

abbrev pub clear_fired : ℕ → Device → Device
clear_fired irq_no dev = record dev {
  irq_set = record dev.irq_set {
    irq_list = update_irq_node irq_no (λ n. record n { isr_fired = false }) dev.irq_set.irq_list;
  };
}

unfoldable pub reset_isr_flag : Device → ℕ → Reaped (Unit {0})
unfolding icqs_remain
reset_isr_flag dev irq_no = elim (find_irq_node_by_id dev.irq_set.irq_list irq_no) [
  | none ↦ error einval dev
  | some irq ↦ elim (icqs_remain dev irq.icq_list) [
    | hang ↦ hang
    | crash ↦ crash
    | error e dev' ↦ error e dev'
    | answer remain dev' ↦ answer tt (if remain == 0 then clear_fired irq_no dev' else dev')
  ]
]

-- `dnvme_inquiry_cqe`, with the answers of the two copies; the count is what the user is shown.
unfoldable pub inquiry_cqe : Bool → Bool → Device → ℕ → Reaped ℕ
unfolding remain_of
inquiry_cqe copy_in copy_out dev cqid =
    if not copy_in then error efault dev else elim (lookup cqid dev.cqs) [
      | none ↦ error einval dev
      | some cq ↦ elim (remain_of dev cq) [
        | hang ↦ hang
        | crash ↦ crash
        | error e dev' ↦ error e dev'
        | answer remain dev' ↦
            if not copy_out
            then error efault dev'
            else if leb cq.elements remain
            then error eperm dev'
            else answer remain dev'
      ]
    ]

abbrev pub irq_active : IrqType → Bool
irq_active int_none = false
irq_active msi_single = true
irq_active msi_multi = true
irq_active msix = true
irq_active pin = true

-- `struct nvme_reap` of `dnvme_reap_cqe_legacy`, and what the kernel answers to its copies.
pub record ReapReq : Type 0 where
  pub cqid : ℕ
  pub expect : ℕ
  pub size : ℕ
  pub copy_in : Bool
  pub copy_out : Bool
  pub copies : ℕ → Bool

-- What the user is shown.
pub record ReapAns : Type 0 where
  pub reaped : ℕ
  pub remained : ℕ
  pub out : List Completion

-- The number of entries the user has asked for and has room for.
unfoldable pub expected : ReapReq → Cq → ℕ
expected req cq =
    let room = req.size / 2 ^ cq.cqes in if req.expect == 0 then room else min req.expect room

-- The end of the call, with the interrupt of an empty queue reset and unmasked.
unfoldable pub finish_reap : ReapAns → Cq → Device → Reaped ReapAns
unfolding reset_isr_flag
finish_reap ans cq dev =
    if irq_active dev.irq_set.irq_type && (cq.irq_enabled && (ans.remained == 0))
    then elim (reset_isr_flag dev cq.irq_no) [
      | hang ↦ hang
      | crash ↦ crash
      | error e dev' ↦ error e dev'
      | answer _ dev' ↦ answer ans (unmask_interrupt dev' cq.irq_no)
    ]
    else answer ans dev

unfoldable pub reap_copied : ReapReq → Cq → ℕ → ℕ → Copied → Reaped ReapAns
unfolding finish_reap
reap_copied req cq wanted remain c =
    let ans : ReapAns = record {
      reaped = wanted - c.left;
      remained = remain - wanted + c.left;
      out = c.out;
    } in
    if not (is_sound c.dev.io)
    then crash
    else if not req.copy_out
    then elim c.ret [ done ↦ error efault c.dev | fail e ↦ error e c.dev ]
    else if ans.reaped == 0
    then finish_reap ans cq c.dev
    else finish_reap ans cq (update_cq_head c.dev cq ans.reaped)

unfoldable pub reap_cqe_legacy : Device → ReapReq → Reaped ReapAns
unfolding remain_of expected reap_copied
reap_cqe_legacy dev req =
    if not req.copy_in then error efault dev else elim (lookup req.cqid dev.cqs) [
      | none ↦ error ebadslt dev
      | some cq ↦ elim (remain_of dev cq) [
        | hang ↦ hang
        | crash ↦ crash
        | error e dev' ↦ error e dev'
        | answer remain dev' ↦
            if leb cq.elements remain
            then error eperm dev'
            else reap_copied req cq (min (expected req cq) remain) remain (
                copy_cq_data req.copies cq.slots cq.elements (min (expected req cq) remain)
                  cq.head_ptr [] dev')
      ]
    ]
