-- ===== src/Cmd/Direct.antt =====
-- modules/dnvme/queue.c: `dnvme_reap_cqe`, which reaps a given number of entries of a queue that its
-- caller has found and counted.
use dnvme.Base.{
  ℕ, ◌-◌, ◌*◌, ◌%◌, ◌^◌, ◌≤◌, ◌<◌, ◌≡◌, Bool, true, false, not, ◌&&◌, List, [], ltb, ◌==◌,
  if◌then◌else◌,
}
use dnvme.Device.{einval, efault, enomem, Completion, Cq, Device, is_sound}
use dnvme.Irq.Handler.{unmask_interrupt}
use dnvme.Cmd.Complete.{Copied, copy_cq_data, update_cq_head_node, update_cq_head}
use dnvme.Cmd.Copy.{window}
use dnvme.Phase.{is_backed}
use dnvme.Cmd.Reap.{Reaped, answer, error, hang, crash, remain_of, irq_active, reset_isr_flag}

-- The arguments; `buf` is 0 for a null pointer.
pub record DirectReq : Type 0 where
  pub expect : ℕ
  pub buf : ℕ
  pub size : ℕ
  pub copies : ℕ → Bool

-- What is returned, and what the user's buffer holds then.
pub record DirectAns : Type 0 where
  pub reaped : ℕ
  pub out : List Completion

-- The interrupt of a queue that has run empty is unmasked whether its flag could be reset or not.
unfoldable pub rearm : Cq → DirectAns → Device → Reaped DirectAns
unfolding reset_isr_flag
rearm cq ans dev = elim (reset_isr_flag dev cq.irq_no) [
  | hang ↦ hang
  | crash ↦ crash
  | error e dev' ↦ answer ans (unmask_interrupt dev' cq.irq_no)
  | answer _ dev' ↦ answer ans (unmask_interrupt dev' cq.irq_no)
]

-- From the second `dnvme_get_cqe_remain` on, of the node as it is then.
unfoldable pub finish_direct : Cq → DirectAns → Device → Reaped DirectAns
unfolding remain_of rearm
finish_direct cq ans dev = elim (remain_of dev cq) [
  | hang ↦ hang
  | crash ↦ crash
  | error e dev' ↦ error e dev'
  | answer remain dev' ↦
      if irq_active dev.irq_set.irq_type && (cq.irq_enabled && (remain == 0))
      then rearm cq ans dev'
      else answer ans dev'
]

-- What the copy has returned is not looked at.
unfoldable pub after_copy : DirectReq → Cq → Copied → Reaped DirectAns
unfolding finish_direct
after_copy req cq c =
    let ans : DirectAns = record { reaped = req.expect - c.left; out = c.out } in
    if not (is_sound c.dev.io)
    then crash
    else if ans.reaped == 0
    then finish_direct cq ans c.dev
    else finish_direct (update_cq_head_node ans.reaped cq) ans (update_cq_head c.dev cq ans.reaped)

-- `expect << cq->pub.cqes` in 32 bits.
abbrev pub bytes_wanted : DirectReq → Cq → ℕ
bytes_wanted req cq = req.expect * 2 ^ cq.cqes % 4294967296

unfoldable pub reap_cqe : Device → Cq → DirectReq → Reaped DirectAns
unfolding after_copy
reap_cqe dev cq req =
    if req.expect == 0
    then error einval dev
    else if req.buf == 0
    then error efault dev
    else if ltb req.size (bytes_wanted req cq)
    then error enomem dev
    else if not (is_backed cq)
    then crash
    else after_copy req cq
        (copy_cq_data req.copies cq.slots cq.elements req.expect cq.head_ptr [] dev)

-- What the caller may rely on.
pub record IsHanded (req : DirectReq) (cq : Cq) (ans : DirectAns) : Type 0 where
  pub bounded : ans.reaped ≤ req.expect
  pub entries : ans.out ≡ window cq.slots cq.elements cq.head_ptr ans.reaped

-- The copy of the entries, which settles the commands that they name.
abbrev pub copied_by : Device → Cq → DirectReq → Copied
copied_by dev cq req = copy_cq_data req.copies cq.slots cq.elements req.expect cq.head_ptr [] dev

-- The call ends with an answer, or settling a command has gone through a null pointer.
abbrev pub Hands : Device → DirectReq → Cq → Reaped DirectAns → Type 0
Hands dev req cq (answer ans dev') = IsHanded req cq ans
Hands dev req cq (error e dev') = true ≡ false
Hands dev req cq hang = true ≡ false
Hands dev req cq crash = is_sound (copied_by dev cq req).dev.io ≡ false

-- A queue whose head lies inside and whose interrupt is not enabled.
record IsPolled (cq : Cq) : Type 0 where
  inside : cq.head_ptr < cq.elements
  small : cq.elements < 65536
  polled : cq.irq_enabled ≡ false
  backed : is_backed cq ≡ true
