-- ===== src/User/Create/Handler.antt =====
-- modules/dnvme/cmd.c: a create command of the user library in the hands of the driver.
use dnvme.Base.{
  ℕ, ◌+◌, ◌/◌, ◌%◌, ◌≡◌, ◌≢◌, ◌<◌, ◌≤◌, refl, ap, ◌∙◌, true, false, none, some, [], ◌∷◌, ◌++◌, inr,
  set, arith,
}
use dnvme.Base.Dict.{lookup, update, lookup-update_here, lookup-update_there}
use dnvme.Device.{done, Command, Cmd, Sq, Device, write_db}
use dnvme.Queue.Admin.{ring_sq_doorbell}
use dnvme.Queue.Prepare.{prepare_sq}
use dnvme.Cmd.{
  UserCmd, ran, qid_of, flag_contig, create_sq_op, target_of, is_create_sq, target_exists,
  attach_prps, new_cmd, link_cmd, add_cmd_node,
}
use dnvme.Cmd.Prepare.{need_prp, link_ready, prepare_64b_cmd}
use dnvme.Cmd.Submit.{
  sq_is_full, sane, point_at, mark_sq, create_iosq, dispatch, fill_mptr, check_submit, set_next_cid,
  put_command, finish_submit, submit_checked, submit_64b_cmd,
}
use dnvme.User.{Prio, urgent, high, medium, low}
use dnvme.User.Create.{
  CsqWrapper, prio_flags, fill_prep_sq, fill_create_sq, create_sq_call, CreateMem, sent, rung,
  ring_after, send_after,
}

pub prio_flags-bound : (p : Prio) → (prio_flags p < 8) × (prio_flags p % 2 ≡ 0)
unfolding prio_flags
prio_flags-bound urgent = (omega arith, refl)
prio_flags-bound high = (omega arith, refl)
prio_flags-bound medium = (omega arith, refl)
prio_flags-bound low = (omega arith, refl)

-- What the driver stores of a command, and what it tells the controller, against the queue.
pub record Tells (c : Command) (q : Sq) : Type 0 where
  pub id : c.cdw10 % 65536 ≡ q.sq_id
  pub size : c.cdw10 / 65536 + 1 ≡ q.elements
  pub cq : c.cdw11 / 65536 ≡ q.cq_id
  pub contig : c.cdw11 % 2 ≡ 1
  pub place : c.prp1 ≡ q.dma

-- A create command whose call the kernel serves, for a contiguous queue that is allocated by the driver;
-- `asq` is the admin queue.
pub record IsSendable (mem : CreateMem) (dev : Device) (w : CsqWrapper) (asq : Sq) : Type 0 where
  pub contig : w.contig ≡ true
  pub no_buf : w.buf ≡ 0
  pub no_size : w.size ≡ 0
  pub some_id : 0 < w.sqid
  pub id : w.sqid < 65536
  pub fits : w.elements ≤ 65536
  pub prepared : (prepare_sq mem.queue dev (fill_prep_sq w)).0 ≡ done
  pub admin : lookup 0 dev.sqs ≡ some asq
  pub room : sq_is_full asq ≡ false
  pub admin_contig : asq.contig ≡ true
  pub copy_in : mem.submit.copy_in ≡ true
  pub cmd : 0 < mem.cmd
  pub cmd_buf : mem.submit.cmd_buf ≡ true
  pub copy_cmd : mem.submit.copy_cmd ≡ true
  pub copy_out : mem.submit.copy_out ≡ true
  pub node : mem.prepare.node ≡ true

-- The command with its identifier, and its node.
abbrev given_cid : CsqWrapper → Sq → Command
given_cid w asq = record (fill_create_sq w) { command_id = asq.next_cid }

abbrev pub told_place : CsqWrapper → Sq → Sq → Command
told_place w asq q = record (given_cid w asq) { prp1 = q.dma; prp2 = 0 }

abbrev create_node : CsqWrapper → Sq → Cmd
create_node w asq = record {
  cid = asq.next_cid;
  sqid = 0;
  target_qid = w.sqid;
  idx = asq.tail_ptr_virt;
  opcode = create_sq_op;
  prps = none;
}

-- The admin queue behind the call.
abbrev pub admin_after : CsqWrapper → Sq → Sq → Sq
admin_after w asq q = record asq {
  next_cid = (asq.next_cid + 1) % 65536;
  cmd_list = asq.cmd_list ++ create_node w asq ∷ [];
  slots = set asq.slots asq.tail_ptr_virt (told_place w asq q);
  tail_ptr_virt = (asq.tail_ptr_virt + 1) % asq.elements % 65536;
  tail_ptr = (asq.tail_ptr_virt + 1) % asq.elements % 65536;
}

module _ (mem : CreateMem) (dev : Device) (w : CsqWrapper) (asq q : Sq) (dev₁ : Device)
    (h : IsSendable mem dev w asq) (admin : lookup 0 dev₁.sqs ≡ some asq)
    (new : lookup w.sqid dev₁.sqs ≡ some q) (contig : q.contig ≡ true) (created : q.created ≡ false)
    (buf : q.buf ≢ 0) where
  u : UserCmd
  u = create_sq_call mem.cmd w

  fields :
      (u.sqid ≡ 0)
      × (u.mptr ≡ false)
      × (u.cmd_buf_ptr ≡ mem.cmd)
      × (u.data_buf_ptr ≡ 0)
      × (u.data_buf_size ≡ 0)
  unfolding u create_sq_call
  fields = (refl, refl, refl, h.no_buf, h.no_size)

  qid_of-given : qid_of (given_cid w asq) ≡ w.sqid
  unfolding qid_of fill_create_sq
  qid_of-given = let a = h.id in omega arith

  flag_contig-given : flag_contig (given_cid w asq) ≡ true
  unfolding flag_contig fill_create_sq
  flag_contig-given = let a = h.contig in let b = prio_flags-bound w.prio in ground (arith, a, b)

  opcode-given : (given_cid w asq).opcode ≡ create_sq_op
  unfolding fill_create_sq
  opcode-given = refl

  checks : check_submit mem.submit dev₁ u ≡ inr asq
  unfolding check_submit
  checks =
      let (a, _, b, c, d) = fields in
      let e = h.copy_in in
      let f = h.cmd in
      let g = h.cmd_buf in
      let i = h.copy_cmd in let r = h.room in ground (arith, a, b, c, d, e, f, g, i, r, admin)

  given : Device
  given = set_next_cid 0 ((asq.next_cid + 1) % 65536) dev₁

  asq₁ : Sq
  asq₁ = record asq { next_cid = (asq.next_cid + 1) % 65536 }

  admin-given : lookup 0 given.sqs ≡ some asq₁
  unfolding given asq₁
  admin-given = lookup-update_here 0 _ asq dev₁.sqs admin

  new-given : lookup w.sqid given.sqs ≡ some q
  unfolding given
  new-given =
      lookup-update_there 0 w.sqid _ dev₁.sqs (let a = h.some_id in λ e. absurd (omega arith)) ∙ new

  new_cmd-given : new_cmd asq₁ 0 (given_cid w asq) none ≡ create_node w asq
  unfolding new_cmd target_of asq₁ qid_of
  new_cmd-given = let a = qid_of-given in let b = opcode-given in ground (arith, a, b)

  target_exists-given : target_exists given 0 (given_cid w asq) ≡ true
  unfolding target_exists is_create_sq
  target_exists-given =
      let a = qid_of-given in let b = opcode-given in ground (arith, a, b, new-given)

  linked : Device
  linked = link_cmd given 0 (create_node w asq)

  prepares :
      prepare_64b_cmd mem.prepare given u (given_cid w asq)
      ≡ record { command = given_cid w asq; run = ran linked }
  unfolding prepare_64b_cmd need_prp link_ready add_cmd_node attach_prps linked
  prepares =
      let (a, _, _, c, _) = fields in
      let b = target_exists-given in
      let n = h.node in ground (arith, a, b, c, n, admin-given, new_cmd-given)

  marked : Device
  marked = record linked { sqs = update w.sqid (λ q. record q { created = true }) linked.sqs }

  creates :
      create_iosq mem.prepare given u (given_cid w asq)
      ≡ record { command = told_place w asq q; run = ran marked }
  unfolding create_iosq sane point_at mark_sq marked
  creates =
      let a = flag_contig-given in
      let b = qid_of-given in
      let c = prepares in ground (arith, a, b, c, new-given, contig, created, buf)

  asq₂ : Sq
  asq₂ = record asq₁ { cmd_list = asq.cmd_list ++ create_node w asq ∷ [] }

  admin-marked : lookup 0 marked.sqs ≡ some asq₂
  unfolding marked linked link_cmd asq₁ asq₂
  admin-marked =
      lookup-update_there w.sqid 0 _ linked.sqs (let a = h.some_id in λ e. absurd (omega arith))
      ∙ lookup-update_here 0 _ asq₁ given.sqs admin-given

  put : Device
  put = record marked { sqs = update 0 (put_command (told_place w asq q)) marked.sqs }

  dispatches :
      dispatch mem.prepare given u (given_cid w asq)
      ≡ record { command = told_place w asq q; run = ran marked }
  unfolding dispatch
  dispatches = let (a, _, _, _, _) = fields in let d = opcode-given in ground (arith, a, d, creates)

  finishes : finish_submit 0 (record { command = told_place w asq q; run = ran marked }) ≡ ran put
  unfolding finish_submit put asq₂ asq₁
  finishes =
      let contig : asq₂.contig ≡ true = h.admin_contig in
      rw (admin-marked, contig, finish_submit) refl

  submits : submit_64b_cmd mem.submit mem.prepare dev₁ u (fill_create_sq w) ≡ ran put
  unfolding submit_64b_cmd submit_checked fill_mptr u create_sq_call given
  submits = let c = h.copy_out in rw (checks, c, dispatches, submit_64b_cmd) finishes

  asq₃ : Sq
  asq₃ = put_command (told_place w asq q) asq₂

  admin-put : lookup 0 put.sqs ≡ some asq₃
  unfolding put asq₃
  admin-put = lookup-update_here 0 _ asq₂ marked.sqs admin-marked

  pub belled : Device
  belled = record put {
    sqs = update 0 (λ q. record q { tail_ptr = q.tail_ptr_virt }) put.sqs;
    io = write_db asq₃.db asq₃.tail_ptr_virt ∷ put.io;
  }

  rings : ring_sq_doorbell put 0 ≡ (done, belled)
  unfolding ring_sq_doorbell belled
  rings = rw (admin-put, ring_sq_doorbell) refl

  pub admin-belled : lookup 0 belled.sqs ≡ some (admin_after w asq q)
  unfolding belled asq₃ asq₂ asq₁
  admin-belled = lookup-update_here 0 _ asq₃ put.sqs admin-put

  pub others-belled : (id : ℕ) → id ≢ 0 → id ≢ w.sqid → lookup id belled.sqs ≡ lookup id dev₁.sqs
  unfolding belled put marked linked link_cmd given
  others-belled id a b =
      lookup-update_there 0 id _ put.sqs a
      ∙ lookup-update_there 0 id _ marked.sqs a
      ∙ lookup-update_there w.sqid id _ linked.sqs b
      ∙ lookup-update_there 0 id _ given.sqs a
      ∙ lookup-update_there 0 id _ dev₁.sqs a

  pub new-belled : lookup w.sqid belled.sqs ≡ some (record q { created = true })
  unfolding belled put marked linked link_cmd
  new-belled =
      let a : w.sqid ≢ 0 = let p = h.some_id in λ e. absurd (omega arith) in
      lookup-update_there 0 w.sqid _ put.sqs a
      ∙ lookup-update_there 0 w.sqid _ marked.sqs a
      ∙ lookup-update_here w.sqid _ q linked.sqs
          (lookup-update_there 0 w.sqid _ given.sqs a ∙ new-given)

  pub log-belled : belled.io ≡ write_db asq.db (admin_after w asq q).tail_ptr ∷ dev₁.io
  unfolding belled put marked linked link_cmd given asq₃ asq₂ asq₁
  log-belled = refl

  pub sends : send_after mem w (done, dev₁) ≡ sent done belled
  unfolding send_after ring_after rung u
  sends = ap ring_after submits ∙ ap rung rings
