-- ===== src/User/Create.antt =====
-- lib/nvme/queue.c and lib/nvme/cmd: how the user library has an I/O submission queue created, up to the
-- doorbell of the admin queue.
pub mod Memory
pub mod Handler
pub mod Accepted
use dnvme.Base.{
  ℕ, ◌+◌, ◌*◌, ◌%◌, Bool, true, false, not, Option, none, some, [], ◌==◌, if◌then◌else◌,
}
use dnvme.Device.{eperm, Status, done, fail, Command, Device}
use dnvme.Queue.{PrepSq, QueueMem}
use dnvme.Queue.Prepare.{prepare_sq}
use dnvme.Queue.Admin.{ring_sq_doorbell}
use dnvme.Cmd.{UserCmd, Run, ran, failed, bug, create_sq_op}
use dnvme.Cmd.Prepare.{PrepareMem}
use dnvme.Cmd.Submit.{SubmitMem, submit_64b_cmd}
use dnvme.User.{Prio, urgent, high, medium, low}

-- `struct nvme_csq_wrapper`
pub record CsqWrapper : Type 0 where
  pub sqid : ℕ
  pub cqid : ℕ
  pub elements : ℕ
  pub prio : Prio
  pub contig : Bool
  pub buf : ℕ
  pub size : ℕ

-- The priority in bits 2:1 of the flags.
unfoldable pub prio_flags : Prio → ℕ
prio_flags urgent = 0
prio_flags high = 2
prio_flags medium = 4
prio_flags low = 6

unfoldable pub fill_prep_sq : CsqWrapper → PrepSq
fill_prep_sq w = record {
  elements = w.elements;
  sq_id = w.sqid;
  cq_id = w.cqid;
  contig = w.contig;
  use_cmb = false;
}

-- `elements - 1` is 32-bit, and its lower half goes into the command.
unfoldable pub fill_create_sq : CsqWrapper → Command
unfolding prio_flags
fill_create_sq w = record {
  opcode = create_sq_op;
  flags = 0;
  command_id = 0;
  nsid = 0;
  metadata = 0;
  prp1 = 0;
  prp2 = 0;
  cdw10 = w.sqid + (w.elements + 4294967295) % 65536 * 65536;
  cdw11 = (if w.contig then 1 else 0) + prio_flags w.prio + w.cqid * 65536;
  others = [];
}

-- The call of `nvme_cmd_create_iosq`; the command buffer, `cmd`, is one of the stack.
unfoldable pub create_sq_call : ℕ → CsqWrapper → UserCmd
create_sq_call cmd w = record {
  sqid = 0;
  cmd_buf_ptr = cmd;
  prp_mask = record {
    prp1_page = w.contig;
    prp1_list = not w.contig;
    prp2_page = false;
    prp2_list = false;
  };
  mptr = false;
  data_buf_ptr = w.buf;
  data_buf_size = w.size;
  meta_id = 0;
  bit_bucket = [];
}

-- What the kernel answers, and where the command buffer lies.
pub record CreateMem : Type 0 where
  pub queue : QueueMem
  pub submit : SubmitMem
  pub prepare : PrepareMem
  pub cmd : ℕ

-- How the calls end: in the driver, or with a status.
pub data Sent : Type 0 where
  stuck : Sent
  sent : Status → Device → Sent

unfoldable pub rung : Status × Device → Sent
rung (fail e, dev) = sent (fail eperm) dev
rung (done, dev) = sent done dev

unfoldable pub ring_after : Run → Sent
unfolding rung
ring_after (ran dev) = rung (ring_sq_doorbell dev 0)
ring_after (failed e dev) = sent (fail eperm) dev
ring_after bug = stuck

unfoldable pub send_after : CreateMem → CsqWrapper → Status × Device → Sent
unfolding fill_create_sq create_sq_call ring_after
send_after mem w (fail e, dev) = sent (fail eperm) dev
send_after mem w (done, dev) =
    ring_after
      (submit_64b_cmd mem.submit mem.prepare dev (create_sq_call mem.cmd w) (fill_create_sq w))

-- `nvme_create_iosq` up to the wait for the completion.
unfoldable pub send_create_sq : CreateMem → Device → CsqWrapper → Sent
unfolding fill_prep_sq send_after
send_create_sq mem dev w = send_after mem w (prepare_sq mem.queue dev (fill_prep_sq w))
