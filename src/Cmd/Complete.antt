-- ===== src/Cmd/Complete.antt =====
-- modules/dnvme/queue.c: a completion entry is matched with its command, and entries are reaped.
use dnvme.Base.{
  ℕ, zero, suc, ◌+◌, ◌%◌, Bool, not, none, some, List, [], ◌∷◌, ◌++◌, leb, ◌==◌, if◌then◌else◌,
  get_or,
}
use dnvme.Base.Dict.{lookup, update}
use dnvme.Device.{
  einval, efault, ebadslt, Status, done, fail, Completion, Cmd, Cq, Device, write_db,
}
use dnvme.Phase.{blank, status_to_state}
use dnvme.Queue.{delete_sq, delete_cq, release_ptr}
use dnvme.Cmd.{find_cmd, delete_cmd, delete_sq_op, create_sq_op, delete_cq_op, create_cq_op}

-- `dnvme_delete_cmd` of a node in the list of queue `sqid`.
unfoldable pub drop_cmd : ℕ → ℕ → Device → Device
drop_cmd sqid cid dev = record dev {
  sqs = update sqid (λ q. record q { cmd_list = delete_cmd cid q.cmd_list }) dev.sqs;
}

-- The queue type of the handlers below: NVME_SQ or NVME_CQ.
pub data QueueType : Type 0 where
  sq_type cq_type : QueueType

unfoldable pub delete_target : QueueType → Device → ℕ → Device
delete_target sq_type dev id = delete_sq dev id
delete_target cq_type dev id = delete_cq dev id

unfoldable pub handle_queue_cmd_completion : Device → ℕ → Cmd → QueueType → Bool → Status × Device
unfolding drop_cmd delete_target
handle_queue_cmd_completion dev sqid cmd type free_queue =
    if not free_queue
    then (done, drop_cmd sqid cmd.cid dev)
    else if cmd.target_qid == 0
    then (fail einval, drop_cmd sqid cmd.cid dev)
    else (done, drop_cmd sqid cmd.cid (delete_target type dev cmd.target_qid))

unfoldable pub handle_gen_cmd_completion : Device → ℕ → Cmd → Status × Device
unfolding drop_cmd release_ptr
handle_gen_cmd_completion dev sqid cmd =
    (done, drop_cmd sqid cmd.cid (record dev { io = release_ptr cmd.prps ++ dev.io }))

unfoldable pub handle_admin_cmd_completion : Device → ℕ → Cmd → ℕ → Status × Device
unfolding handle_queue_cmd_completion handle_gen_cmd_completion
handle_admin_cmd_completion dev sqid cmd status =
    if cmd.opcode == delete_sq_op
    then handle_queue_cmd_completion dev sqid cmd sq_type (status == 0)
    else if cmd.opcode == create_sq_op
    then handle_queue_cmd_completion dev sqid cmd sq_type (not (status == 0))
    else if cmd.opcode == delete_cq_op
    then handle_queue_cmd_completion dev sqid cmd cq_type (status == 0)
    else if cmd.opcode == create_cq_op
    then handle_queue_cmd_completion dev sqid cmd cq_type (not (status == 0))
    else handle_gen_cmd_completion dev sqid cmd

-- The status code and its type, without the phase bit and the upper bits.
unfoldable pub status_of : Completion → ℕ
unfolding status_to_state
status_of e = status_to_state e.status % 2048

abbrev pub set_head : ℕ → ℕ → Device → Device
set_head sqid head dev = record dev {
  sqs = update sqid (λ q. record q { head_ptr = head }) dev.sqs;
}

unfoldable pub handle_cmd_completion : Device → Completion → Status × Device
unfolding handle_admin_cmd_completion handle_gen_cmd_completion
handle_cmd_completion dev e = elim (lookup e.sq_id dev.sqs) [
  | none ↦ (fail ebadslt, dev)
  | some sq ↦
      let dev' = set_head e.sq_id e.sq_head dev in
      elim (find_cmd sq.cmd_list e.command_id) [
        | none ↦ (fail ebadslt, dev')
        | some cmd ↦
            if e.sq_id == 0
            then handle_admin_cmd_completion dev' e.sq_id cmd (status_of e)
            else handle_gen_cmd_completion dev' e.sq_id cmd
      ]
]

-- The result of `copy_cq_data`: its return value, what is left of `nr_reap`, and the entries copied.
pub record Copied : Type 0 where
  pub ret : Status
  pub left : ℕ
  pub out : List Completion
  pub dev : Device

-- The slot behind a slot of a queue of `elements` entries.
abbrev pub slot_behind : ℕ → ℕ → ℕ
slot_behind elements pos = if leb elements (pos + 1) then 0 else pos + 1

-- The loop, over the entries as they stand in the queue; `copies` is what `copy_to_user` answers
-- for each, by the number still to go.
unfoldable pub copy_cq_data :
    (ℕ → Bool) → List Completion → ℕ → ℕ → ℕ → List Completion → Device → Copied
copy_cq_data copies slots elements zero pos out dev = record {
  ret = done;
  left = 0;
  out = out;
  dev = dev;
}
copy_cq_data copies slots elements (suc n) pos out dev =
    let e = get_or slots pos blank in
    let (ret, dev') = handle_cmd_completion dev e in
    let further =
      copy_cq_data copies slots elements n (slot_behind elements pos) (out ++ e ∷ []) dev' in
    if not (copies (suc n))
    then record { ret = fail efault; left = suc n; out = out; dev = dev' }
    else elim ret [
      | done ↦ further
      | fail err ↦ record { ret = fail err; left = n; out = out ++ e ∷ []; dev = dev' }
    ]

-- `update_cq_head` of the node.
unfoldable pub update_cq_head_node : ℕ → Cq → Cq
update_cq_head_node num cq =
    let head = (cq.head_ptr + num) % 4294967296 in
    if leb cq.elements head
    then record cq { pbit_new_entry = not cq.pbit_new_entry; head_ptr = head % cq.elements % 65536 }
    else record cq { head_ptr = head % 65536 }

unfoldable pub update_cq_head : Device → Cq → ℕ → Device
unfolding update_cq_head_node
update_cq_head dev cq num = record dev {
  cqs = update cq.q_id (update_cq_head_node num) dev.cqs;
  io = write_db cq.db (update_cq_head_node num cq).head_ptr ∷ dev.io;
}
