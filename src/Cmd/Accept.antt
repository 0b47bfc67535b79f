-- ===== src/Cmd/Accept.antt =====
-- modules/dnvme/cmd.c: a command of an I/O queue that is submitted, and its completion.
use dnvme.Base.{
  ℕ, ◌+◌, ◌%◌, ◌≡◌, ◌≢◌, refl, ◌∙◌, true, false, Option, none, some, arith, inr, [], ◌∷◌, ◌++◌, set,
  if◌then◌else◌,
}
use mathlib.Core.Path.{subst}
use dnvme.Base.Dict.{lookup, update, lookup-update_here, lookup-update_there}
use dnvme.Device.{Command, Cmd, Sq, Prps, Device}
use dnvme.Cmd.{
  UserCmd, Run, ran, add_cmd_node, target_of, target_exists, attach_prps, new_cmd, link_cmd,
  is_create_sq, is_create_cq,
}
use dnvme.Cmd.Prepare.{
  PrepareMem, Ready, ready, not_ready, bug_ready, need_prp, build_prps, link_ready, prepare_64b_cmd,
  undo_prps, ready_prps, ready_sgl, set_sgl,
}
use dnvme.Cmd.Submit.{
  SubmitMem, dispatch, finish_submit, check_submit, submit_checked, submit_64b_cmd, fill_mptr,
  set_next_cid, put_command, sq_is_full,
}
use dnvme.Prp.{Setup, error, crash, set_up}
use dnvme.Sgl.{SglSetup, sgl_error, sgl_crash, sgl_set_up}

-- The node of a command of an I/O queue.
abbrev pub node_of : Sq → ℕ → Command → Option Prps → Cmd
node_of sq sqid c prps = record {
  cid = c.command_id;
  sqid = sqid;
  target_qid = 0;
  idx = sq.tail_ptr_virt;
  opcode = c.opcode;
  prps = prps;
}

-- The queue behind a submission of `c`.
abbrev pub with_command : Sq → ℕ → Command → Option Prps → Sq
with_command sq sqid c prps = record sq {
  next_cid = (sq.next_cid + 1) % 65536;
  cmd_list = sq.cmd_list ++ node_of sq sqid c prps ∷ [];
  slots = set sq.slots sq.tail_ptr_virt c;
  tail_ptr_virt = (sq.tail_ptr_virt + 1) % sq.elements % 65536;
}

-- The command as `dnvme_prepare_64b_cmd` makes it ready.
abbrev pub made_ready : PrepareMem → UserCmd → Command → Ready
made_ready mem u c = if need_prp u c then build_prps mem u c else ready c none

undo_prps-ran : (p : Prps) (dev : Device) → undo_prps p (ran dev) ≡ ran dev
unfolding undo_prps
undo_prps-ran p dev = refl

module _ (mem : PrepareMem) (dev : Device) (u : UserCmd) (sq : Sq) (io : u.sqid ≢ 0) where
  new_cmd-io : (c : Command) (p : Option Prps) → new_cmd sq u.sqid c p ≡ node_of sq u.sqid c p
  unfolding new_cmd target_of
  new_cmd-io c p = ground arith

  attach_prps-io : (c : Command) (p : Option Prps) → attach_prps dev u.sqid c p ≡ dev
  unfolding attach_prps target_of
  attach_prps-io c none = refl
  attach_prps-io c (some p) = ground arith

  add_cmd_node-io :
      (c : Command) (p : Option Prps)
      → lookup u.sqid dev.sqs ≡ some sq
      → add_cmd_node true dev u.sqid c p ≡ ran (link_cmd dev u.sqid (node_of sq u.sqid c p))
  unfolding add_cmd_node target_exists is_create_sq is_create_cq
  add_cmd_node-io c p e =
      let a = attach_prps-io c p in let b = new_cmd-io c p in ground (arith, a, b)

  dispatch-io :
      (c c' : Command) (p : Option Prps)
      → mem.node ≡ true
      → lookup u.sqid dev.sqs ≡ some sq
      → made_ready mem u c ≡ ready c' p
      → dispatch mem dev u c
        ≡ record { command = c'; run = ran (link_cmd dev u.sqid (node_of sq u.sqid c' p)) }
  unfolding dispatch prepare_64b_cmd link_ready
  dispatch-io c c' none n e r = let a = add_cmd_node-io c' none e in ground (arith, a, r)
  dispatch-io c c' (some p) n e r =
      let a = add_cmd_node-io c' (some p) e in
      let b = undo_prps-ran p (link_cmd dev u.sqid (node_of sq u.sqid c' (some p))) in
      ground (arith, a, b, r)

check_submit-found :
    (smem : SubmitMem) (dev : Device) (u : UserCmd) (sq : Sq)
    → check_submit smem dev u ≡ inr sq
    → (lookup u.sqid dev.sqs ≡ some sq) × (sq_is_full sq ≡ false)
unfolding check_submit
check_submit-found smem dev u sq e = ground arith

-- The identifier survives to the slot.
fill_mptr-cid :
    (dev : Device) (u : UserCmd) (c c' : Command)
    → fill_mptr dev u c ≡ some (inr c')
    → c'.command_id ≡ c.command_id
unfolding fill_mptr
fill_mptr-cid dev u c c' e = ground arith

abbrev KeepsCid : Command → Ready → Type 0
KeepsCid c (ready c' p) = c'.command_id ≡ c.command_id
KeepsCid c (not_ready e undone) = Unit
KeepsCid c bug_ready = Unit

ready_prps-KeepsCid : (c : Command) (p : Prps) (s : Setup) → KeepsCid c (ready_prps c p s)
unfolding ready_prps
ready_prps-KeepsCid c p (error e) = tt
ready_prps-KeepsCid c p crash = tt
ready_prps-KeepsCid c p (set_up x y l) = refl

ready_sgl-KeepsCid : (c : Command) (p : Prps) (s : SglSetup) → KeepsCid c (ready_sgl c p s)
unfolding ready_sgl set_sgl
ready_sgl-KeepsCid c p (sgl_error e) = tt
ready_sgl-KeepsCid c p sgl_crash = tt
ready_sgl-KeepsCid c p (sgl_set_up d l) = refl

made_ready-KeepsCid :
    (mem : PrepareMem) (u : UserCmd) (c : Command) → KeepsCid c (made_ready mem u c)
unfolding build_prps
made_ready-KeepsCid mem u c = grind (arith, ready_prps-KeepsCid, ready_sgl-KeepsCid)

-- What a submission of `c` with the data pointer `p` has done.
pub record IsAccepted (r : Run) (dev : Device) (sqid : ℕ) (sq : Sq) (c : Command) (p : Option Prps)
    : Type 0 where
  pub after : Device
  pub returns : r ≡ ran after
  pub queue : lookup sqid after.sqs ≡ some (with_command sq sqid c p)
  pub others : (id : ℕ) → id ≢ sqid → lookup id after.sqs ≡ lookup id dev.sqs
  pub cqs : after.cqs ≡ dev.cqs
  pub log : after.io ≡ dev.io
  pub numbered : c.command_id ≡ sq.next_cid

module _ (smem : SubmitMem) (mem : PrepareMem) (dev : Device) (u : UserCmd) (c : Command) where
  -- The device once the identifier is given out, and the command that carries it.
  abbrev pub given : Sq → Device
  given sq = set_next_cid u.sqid ((sq.next_cid + 1) % 65536) dev

  abbrev pub numbered : Sq → Command
  numbered sq = record c { command_id = sq.next_cid }

  abbrev put : Sq → Command → Option Prps → Device
  put sq c p =
      let linked = link_cmd (given sq) u.sqid (node_of sq u.sqid c p) in
      record linked { sqs = update u.sqid (put_command c) linked.sqs }

  put-queue :
      (sq : Sq) (c' : Command) (p : Option Prps)
      → lookup u.sqid dev.sqs ≡ some sq
      → lookup u.sqid (put sq c' p).sqs ≡ some (with_command sq u.sqid c' p)
  unfolding link_cmd
  put-queue sq c' p e =
      lookup-update_here u.sqid _ _ _
        (lookup-update_here u.sqid _ _ _ (lookup-update_here u.sqid _ sq dev.sqs e))

  put-others :
      (sq : Sq) (c' : Command) (p : Option Prps) (id : ℕ)
      → id ≢ u.sqid
      → lookup id (put sq c' p).sqs ≡ lookup id dev.sqs
  unfolding link_cmd
  put-others sq c' p id d =
      lookup-update_there u.sqid id _ _ d
      ∙ lookup-update_there u.sqid id _ _ d
      ∙ lookup-update_there u.sqid id _ dev.sqs d

  finish_submit-io :
      (sq : Sq) (c' : Command) (p : Option Prps)
      → lookup u.sqid dev.sqs ≡ some sq
      → sq.contig ≡ true
      → finish_submit u.sqid
          (record { command = c'; run = ran (link_cmd (given sq) u.sqid (node_of sq u.sqid c' p)) })
        ≡ ran (put sq c' p)
  unfolding finish_submit link_cmd
  finish_submit-io sq c' p e contig =
      let linked =
        lookup-update_here u.sqid
          (λ q. record q { cmd_list = q.cmd_list ++ node_of sq u.sqid c' p ∷ [] }) _ _
          (lookup-update_here u.sqid (λ q. record q { next_cid = (sq.next_cid + 1) % 65536 }) sq
            dev.sqs e) in
      rw (linked, contig, finish_submit) refl

  submit-io :
      (sq : Sq) (c' c'' : Command) (p : Option Prps)
      → u.sqid ≢ 0
      → check_submit smem dev u ≡ inr sq
      → smem.copy_out ≡ true
      → mem.node ≡ true
      → sq.contig ≡ true
      → fill_mptr (given sq) u (numbered sq) ≡ some (inr c')
      → made_ready mem u c' ≡ ready c'' p
      → submit_64b_cmd smem mem dev u c ≡ ran (put sq c'' p)
  unfolding submit_64b_cmd submit_checked
  submit-io sq c' c'' p io ok out node contig mptr made =
      let e = (check_submit-found smem dev u sq ok).0 in
      let sq₁ : Sq = record sq { next_cid = (sq.next_cid + 1) % 65536 } in
      let found : lookup u.sqid (given sq).sqs ≡ some sq₁ =
        lookup-update_here u.sqid _ sq dev.sqs e in
      let sent = dispatch-io mem (given sq) u sq₁ io c' c'' p node found made in
      rw (ok, out, mptr, sent, submit_64b_cmd) (finish_submit-io sq c'' p e contig)

-- A command for a contiguous I/O queue whose checks pass, whose metadata pointer is found, whose
-- data pointer is made and whose node is allocated: the submission returns; the command stands
-- in the slot at the old tail with the next identifier of the queue, its node at the end of the
-- commands in flight, the tail and the next identifier have moved on by one around the ring and
-- modulo 2^16, and no other queue has changed.
pub submit_64b_cmd-IsAccepted :
    (smem : SubmitMem) (mem : PrepareMem) (dev : Device) (u : UserCmd) (c : Command) (sq : Sq)
    (c' c'' : Command) (p : Option Prps)
    → u.sqid ≢ 0
    → check_submit smem dev u ≡ inr sq
    → smem.copy_out ≡ true
    → mem.node ≡ true
    → sq.contig ≡ true
    → fill_mptr (given smem mem dev u c sq) u (numbered smem mem dev u c sq) ≡ some (inr c')
    → made_ready mem u c' ≡ ready c'' p
    → IsAccepted (submit_64b_cmd smem mem dev u c) dev u.sqid sq c'' p
unfolding link_cmd
submit_64b_cmd-IsAccepted smem mem dev u c sq c' c'' p io ok out node contig mptr made =
    let e = (check_submit-found smem dev u sq ok).0 in
    record {
      after = put smem mem dev u c sq c'' p;
      returns = submit-io smem mem dev u c sq c' c'' p io ok out node contig mptr made;
      queue = put-queue smem mem dev u c sq c'' p e;
      others = put-others smem mem dev u c sq c'' p;
      cqs = refl;
      log = refl;
      numbered =
          subst (KeepsCid c') made (made_ready-KeepsCid mem u c')
          ∙ fill_mptr-cid (given smem mem dev u c sq) u (numbered smem mem dev u c sq) c' mptr;
    }
