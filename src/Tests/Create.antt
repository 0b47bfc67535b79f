-- ===== src/Tests/Create.antt =====
-- The theorem on the creation of a submission queue at a concrete device with an admin queue.
use dnvme.Base.{refl, true, [], ◌∷◌, arith}
use dnvme.Base.Dict.{lookup}
use dnvme.Device.{Sq, Device}
use dnvme.Cmd.Submit.{sq_is_full}
use dnvme.Queue.{alloc_sq, alloc_buffer, new_sq}
use dnvme.Queue.Admin.{check_qid_unique}
use dnvme.Queue.Prepare.{prepare_sq, prepared_sq, cap_cqr}
use dnvme.User.{medium}
use dnvme.User.Create.{CsqWrapper, fill_prep_sq, CreateMem, send_create_sq}
use dnvme.User.Create.Handler.{IsSendable}
use dnvme.User.Create.Accepted.{IsSent, send_create_sq-IsSent}
use dnvme.Tests.Data.{two_commands, device, kernel_submit, kernel_prepare, kernel_memory}

abbrev admin_sq : Sq
admin_sq = record two_commands {
  sq_id = 0;
  cq_id = 0;
  cmd_list = [];
  tail_ptr_virt = 3;
  head_ptr = 1;
  db = 0;
}

abbrev with_admin : Device
with_admin = record device { sqs = (0, admin_sq) ∷ device.sqs }

abbrev third : CsqWrapper
third = record {
  sqid = 2;
  cqid = 1;
  elements = 16;
  prio = medium;
  contig = true;
  buf = 0;
  size = 0;
}

abbrev kernel_create : CreateMem
kernel_create = record {
  queue = kernel_memory;
  submit = kernel_submit;
  prepare = kernel_prepare;
  cmd = 64;
}

third-IsSendable : IsSendable kernel_create with_admin third admin_sq
unfolding prepare_sq fill_prep_sq check_qid_unique prepared_sq cap_cqr alloc_sq alloc_buffer lookup
    sq_is_full new_sq
third-IsSendable = record {
  contig = refl;
  no_buf = refl;
  no_size = refl;
  some_id = omega arith;
  id = omega arith;
  fits = omega arith;
  prepared = refl;
  admin = refl;
  room = refl;
  admin_contig = refl;
  copy_in = refl;
  cmd = omega arith;
  cmd_buf = refl;
  copy_cmd = refl;
  copy_out = refl;
  node = refl;
}

send_create_sq-IsSent_example :
    IsSent third with_admin admin_sq (send_create_sq kernel_create with_admin third)
send_create_sq-IsSent_example =
    send_create_sq-IsSent kernel_create with_admin third admin_sq third-IsSendable
