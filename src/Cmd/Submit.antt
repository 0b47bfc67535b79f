-- ===== src/Cmd/Submit.antt =====
-- modules/dnvme/cmd.c: `dnvme_submit_64b_cmd` and the handlers that it dispatches to.
use dnvme.Base.{
  ℕ, ◌+◌, ◌%◌, Bool, true, false, not, ◌&&◌, ◌||◌, Option, none, some, ◌==◌, if◌then◌else◌, set,
  get_or, ◌⊎◌, inl, inr,
}
use dnvme.Base.Dict.{lookup, update}
use dnvme.Phase.{has_prps}
use dnvme.Device.{
  Errno, einval, efault, enomem, ebadslt, ebusy, eperm, Command, Sq, Meta, Device, IrqType,
  int_none, msi_single, msi_multi, msix, pin,
}
use dnvme.Cmd.{
  UserCmd, Run, ran, failed, bug, qid_of, flag_contig, flag_irq, create_sq_op, create_cq_op,
}
use dnvme.Cmd.Prepare.{PrepareMem, Prepared, prepare_64b_cmd}

-- modules/dnvme/queue.h
unfoldable pub sq_is_full : Sq → Bool
sq_is_full sq = (sq.tail_ptr_virt + 1) % sq.elements == sq.head_ptr

abbrev same_bit : Bool → Bool → Bool
same_bit true b = b
same_bit false b = not b

-- The sanity checks of both create handlers on the queue that waits for the command.
unfoldable pub sane : UserCmd → Command → Bool → ℕ → Bool
unfolding flag_contig
sane u c contig buf =
    same_bit (flag_contig c) contig
    && (if contig then not (buf == 0) else not (u.data_buf_ptr == 0))

-- A contiguous queue is named to the controller by its DMA address.
unfoldable pub point_at : Bool → ℕ → Command → Command
point_at contig dma c = if contig then record c { prp1 = dma; prp2 = 0 } else c

unfoldable pub mark_sq : ℕ → Run → Run
mark_sq id (ran dev) =
    ran (record dev { sqs = update id (λ q. record q { created = true }) dev.sqs })
mark_sq id (failed e dev) = failed e dev
mark_sq id bug = bug

unfoldable pub mark_cq : ℕ → Run → Run
mark_cq id (ran dev) =
    ran (record dev { cqs = update id (λ q. record q { created = true }) dev.cqs })
mark_cq id (failed e dev) = failed e dev
mark_cq id bug = bug

-- A handler that stops before anything is prepared.
abbrev pub refuse : Command → Errno → Device → Prepared
refuse c e dev = record { command = c; run = failed e dev }

unfoldable pub create_iosq : PrepareMem → Device → UserCmd → Command → Prepared
unfolding qid_of sane point_at mark_sq
create_iosq mem dev u c = elim (lookup (qid_of c) dev.sqs) [
  | none ↦ refuse c einval dev
  | some wait ↦
      let p = prepare_64b_cmd mem dev u c in
      if not (sane u c wait.contig wait.buf)
      then refuse c einval dev
      else if wait.created
      then refuse c eperm dev
      else record {
        command = point_at wait.contig wait.dma p.command;
        run = mark_sq (qid_of c) p.run;
      }
]

abbrev is_int_none : IrqType → Bool
is_int_none int_none = true
is_int_none msi_single = false
is_int_none msi_multi = false
is_int_none msix = false
is_int_none pin = false

unfoldable pub create_iocq : PrepareMem → Device → UserCmd → Command → Prepared
unfolding qid_of sane point_at mark_cq flag_irq
create_iocq mem dev u c = elim (lookup (qid_of c) dev.cqs) [
  | none ↦ refuse c ebadslt dev
  | some wait ↦
      let p = prepare_64b_cmd mem dev u c in
      if not (sane u c wait.contig wait.buf)
      then refuse c einval dev
      else if wait.created
      then refuse c einval dev
      else if flag_irq c && is_int_none dev.irq_set.irq_type
      then refuse c einval dev
      else record {
        command = point_at wait.contig wait.dma p.command;
        run = mark_cq (qid_of c) p.run;
      }
]

-- The `switch` on the opcode. `dnvme_delete_iosq`, `dnvme_delete_iocq` and `dnvme_deal_ccmd` only
-- prepare the command.
unfoldable pub dispatch : PrepareMem → Device → UserCmd → Command → Prepared
dispatch mem dev u c =
    if u.sqid == 0
    then if c.opcode == create_sq_op
      then create_iosq mem dev u c
      else if c.opcode == create_cq_op
      then create_iocq mem dev u c
      else prepare_64b_cmd mem dev u c
    else prepare_64b_cmd mem dev u c

abbrev pub meta_address : Meta → Option ℕ
meta_address m =
    if m.contig
    then some m.dma
    else elim m.prps [ none ↦ none | some p ↦ some (get_or p.pg_addr 0 0) ]

-- `dnvme_fill_mptr`, where the command asks for it; `none` is a null pointer.
unfoldable pub fill_mptr : Device → UserCmd → Command → Option (Errno ⊎ Command)
fill_mptr dev u c =
    if u.mptr
    then elim (lookup u.meta_id dev.metas) [
      | none ↦ some (inl einval)
      | some m ↦ elim (meta_address m) [
        | none ↦ none
        | some a ↦ some (inr (record c { metadata = a }))
      ]
    ]
    else some (inr c)

-- What the kernel answers to the copies and to `kzalloc` of the command buffer.
pub record SubmitMem : Type 0 where
  pub copy_in : Bool
  pub cmd_buf : Bool
  pub copy_cmd : Bool
  pub copy_out : Bool

-- Everything that is checked before a command identifier is given out.
unfoldable pub check_submit : SubmitMem → Device → UserCmd → Errno ⊎ Sq
unfolding sq_is_full
check_submit mem dev u =
    if not mem.copy_in || u.cmd_buf_ptr == 0
    then inl efault
    else if not (same_bit (u.data_buf_size == 0) (u.data_buf_ptr == 0))
    then inl einval
    else elim (lookup u.sqid dev.sqs) [
      | none ↦ inl ebadslt
      | some sq ↦
          if sq_is_full sq
          then inl ebusy
          else if not mem.cmd_buf
          then inl enomem
          else if not mem.copy_cmd
          then inl efault
          else inr sq
    ]

abbrev pub set_next_cid : ℕ → ℕ → Device → Device
set_next_cid sqid cid dev = record dev {
  sqs = update sqid (λ q. record q { next_cid = cid }) dev.sqs;
}

-- `memcpy` of the command into the slot at the tail, and the tail moved on.
abbrev pub put_command : Command → Sq → Sq
put_command c q = record q {
  slots = set q.slots q.tail_ptr_virt c;
  tail_ptr_virt = (q.tail_ptr_virt + 1) % q.elements % 65536;
}

-- The end of `dnvme_submit_64b_cmd`: the command goes to its slot; or, behind `out2`, the
-- identifier is taken back. A queue that is not contiguous is written through its PRPs.
unfoldable pub finish_submit : ℕ → Prepared → Run
finish_submit sqid p = elim p.run [
  | bug ↦ bug
  | failed e dev ↦ elim (lookup sqid dev.sqs) [
    | none ↦ bug
    | some sq ↦ failed e (set_next_cid sqid ((sq.next_cid + 65535) % 65536) dev)
  ]
  | ran dev ↦ elim (lookup sqid dev.sqs) [
    | none ↦ bug
    | some sq ↦
        if sq.contig || has_prps sq.prps
        then ran (record dev { sqs = update sqid (put_command p.command) dev.sqs })
        else bug
  ]
]

-- From the identifier on, with the queue found.
unfoldable pub submit_checked : SubmitMem → PrepareMem → Device → UserCmd → Command → Sq → Run
unfolding fill_mptr finish_submit dispatch
submit_checked smem mem dev u c sq =
    let dev₁ = set_next_cid u.sqid ((sq.next_cid + 1) % 65536) dev in
    if not smem.copy_out
    then failed efault dev₁
    else elim (fill_mptr dev₁ u (record c { command_id = sq.next_cid })) [
      | none ↦ bug
      | some (inl e) ↦ failed e dev₁
      | some (inr c') ↦ finish_submit u.sqid (dispatch mem dev₁ u c')
    ]

-- `c` is what the user's command buffer holds.
unfoldable pub submit_64b_cmd : SubmitMem → PrepareMem → Device → UserCmd → Command → Run
unfolding check_submit submit_checked
submit_64b_cmd smem mem dev u c = elim (check_submit smem dev u) [
  | inl e ↦ failed e dev
  | inr sq ↦ submit_checked smem mem dev u c sq
]
