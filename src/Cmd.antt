-- ===== src/Cmd.antt =====
-- modules/dnvme/cmd.c: the list of commands in flight, and how a command is made ready.
pub mod Prepare
pub mod Submit
pub mod Complete
pub mod Reap
pub mod Direct
pub mod Advance
pub mod Copy
pub mod Account
pub mod Reject
pub mod Accept
pub mod Settle
pub mod Cycle
pub mod Target
pub mod Occupied
pub mod Refine
pub mod Fifo
use dnvme.Base.{
  ℕ, ◌+◌, ◌*◌, ◌/◌, ◌%◌, Bool, true, false, not, ◌&&◌, ◌||◌, Option, none, some, List, [], ◌∷◌,
  ◌++◌, ◌==◌, if◌then◌else◌, ◌⊎◌, inl, inr, length,
}
use dnvme.Base.Dict.{lookup, update}
use dnvme.Device.{
  Errno, einval, enomem, ebadslt, Prps, Scatter, Command, Cmd, Sq, Device, SglDesc, release_prps,
}
use dnvme.Prp.{PrpMask, PrpAlloc, PrpList, Setup, error, crash, set_up, setup_prps}
use dnvme.Sgl.{
  BitBucket, SglAlloc, SglList, SglSetup, sgl_error, sgl_crash, sgl_set_up, cmd_setup_sgl,
  blank_desc,
}

-- `struct nvme_64b_cmd`; `mptr` is NVME_MASK_MPTR of `bit_mask`.
pub record UserCmd : Type 0 where
  pub sqid : ℕ
  pub cmd_buf_ptr : ℕ
  pub prp_mask : PrpMask
  pub mptr : Bool
  pub data_buf_ptr : ℕ
  pub data_buf_size : ℕ
  pub meta_id : ℕ
  pub bit_bucket : List BitBucket

-- enum nvme_admin_opcode, as far as the driver tells them apart.
abbrev pub delete_sq_op : ℕ
delete_sq_op = 0

abbrev pub create_sq_op : ℕ
create_sq_op = 1

abbrev pub delete_cq_op : ℕ
delete_cq_op = 4

abbrev pub create_cq_op : ℕ
create_cq_op = 5

-- `sqid`, `cqid` or `qid` of the three queue commands, and `sq_flags` or `cq_flags`.
unfoldable pub qid_of : Command → ℕ
qid_of c = c.cdw10 % 65536

-- NVME_QUEUE_PHYS_CONTIG and NVME_CQ_IRQ_ENABLED
unfoldable pub flag_contig : Command → Bool
flag_contig c = c.cdw11 % 2 == 1

unfoldable pub flag_irq : Command → Bool
flag_irq c = c.cdw11 / 2 % 2 == 1

-- How a call ends: with a device, with an error and a device, or in a BUG_ON or a null pointer.
pub data Run : Type 0 where
  ran : Device → Run
  failed : Errno → Device → Run
  bug : Run

unfoldable pub find_cmd : List Cmd → ℕ → Option Cmd
find_cmd [] cid = none
find_cmd (c ∷ cs) cid = if cid == c.cid then some c else find_cmd cs cid

-- `dnvme_delete_cmd` of the node that `dnvme_find_cmd` returns.
unfoldable pub delete_cmd : ℕ → List Cmd → List Cmd
delete_cmd cid [] = []
delete_cmd cid (c ∷ cs) = let rest = delete_cmd cid cs in if cid == c.cid then cs else c ∷ rest

-- The queue that a create or delete command names, else 0.
unfoldable pub target_of : ℕ → Command → ℕ
unfolding qid_of
target_of sqid c =
    if sqid == 0
      && (c.opcode == create_sq_op
          || c.opcode == create_cq_op
          || c.opcode == delete_sq_op
          || c.opcode == delete_cq_op)
    then qid_of c
    else 0

unfoldable pub is_create_sq : ℕ → Command → Bool
is_create_sq sqid c = sqid == 0 && c.opcode == create_sq_op

unfoldable pub is_create_cq : ℕ → Command → Bool
is_create_cq sqid c = sqid == 0 && c.opcode == create_cq_op

-- The queue that a create command names is there (`BUG_ON` otherwise).
unfoldable pub target_exists : Device → ℕ → Command → Bool
unfolding is_create_sq is_create_cq qid_of
target_exists dev sqid c =
    if is_create_sq sqid c
    then elim (lookup (qid_of c) dev.sqs) [ none ↦ false | some _ ↦ true ]
    else if is_create_cq sqid c
    then elim (lookup (qid_of c) dev.cqs) [ none ↦ false | some _ ↦ true ]
    else true

-- The PRPs of a create command go to the queue that it names, those of others stay at the node.
unfoldable pub attach_prps : Device → ℕ → Command → Option Prps → Device
unfolding is_create_sq is_create_cq target_of
attach_prps dev sqid c none = dev
attach_prps dev sqid c (some p) =
    if target_of sqid c == 0
    then dev
    else if is_create_sq sqid c
    then record dev { sqs = update (target_of sqid c) (λ q. record q { prps = some p }) dev.sqs }
    else if is_create_cq sqid c
    then record dev { cqs = update (target_of sqid c) (λ q. record q { prps = some p }) dev.cqs }
    else dev

unfoldable pub new_cmd : Sq → ℕ → Command → Option Prps → Cmd
unfolding target_of
new_cmd sq sqid c prps = record {
  cid = c.command_id;
  sqid = sqid;
  target_qid = target_of sqid c;
  idx = sq.tail_ptr_virt;
  opcode = c.opcode;
  prps = if target_of sqid c == 0 then prps else none;
}

-- The node linked at the end of its queue's list.
unfoldable pub link_cmd : Device → ℕ → Cmd → Device
link_cmd dev sqid node = record dev {
  sqs = update sqid (λ q. record q { cmd_list = q.cmd_list ++ (node ∷ []) }) dev.sqs;
}

unfoldable pub add_cmd_node : Bool → Device → ℕ → Command → Option Prps → Run
unfolding target_exists attach_prps new_cmd link_cmd
add_cmd_node alloc dev sqid c prps = elim (lookup sqid dev.sqs) [
  | none ↦ failed ebadslt dev
  | some sq ↦
      if alloc
      then if target_exists dev sqid c
        then ran (link_cmd (attach_prps dev sqid c prps) sqid (new_cmd sq sqid c prps))
        else bug
      else failed enomem dev
]
