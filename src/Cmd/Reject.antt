-- ===== src/Cmd/Reject.antt =====
-- modules/dnvme/cmd.c: the device behind a command that is not submitted.
use dnvme.Base.{
  ℕ, ◌+◌, ◌%◌, ◌==◌, ◌≡◌, refl, ap, ◌∙◌, Bool, Option, none, some, arith, inl, inr, Option-cases,
  sum-cases, Bool-cases,
}
use mathlib.Core.Path.{subst}
use mathlib.Core.Option
use dnvme.Base.Dict.{Dict, lookup, update, lookup-update}
use dnvme.Device.{Errno, Command, Sq, Device}
use dnvme.Cmd.{UserCmd, Run, ran, failed, bug, add_cmd_node, qid_of}
use dnvme.Cmd.Prepare.{
  PrepareMem, Prepared, Ready, ready, not_ready, bug_ready, link_ready, prepare_64b_cmd, undo_prps,
}
use dnvme.Cmd.Submit.{
  SubmitMem, create_iosq, create_iocq, dispatch, finish_submit, check_submit, submit_checked,
  submit_64b_cmd, fill_mptr, set_next_cid, mark_sq, mark_cq,
}

-- The tables of the device are the same; the log may have grown.
pub record SameTables (dev dev' : Device) : Type 0 where
  pub sqs : dev'.sqs ≡ dev.sqs
  pub cqs : dev'.cqs ≡ dev.cqs
  pub metas : dev'.metas ≡ dev.metas
  pub irq_set : dev'.irq_set ≡ dev.irq_set

-- A run that fails has left the tables alone.
abbrev pub FailsClean : Device → Run → Type 0
FailsClean dev (ran dev') = Unit
FailsClean dev (failed e dev') = SameTables dev dev'
FailsClean dev bug = Unit

SameTables-refl : (dev : Device) → SameTables dev dev
SameTables-refl dev = record { sqs = refl; cqs = refl; metas = refl; irq_set = refl }

add_cmd_node-FailsClean :
    (alloc : Bool) (dev : Device) (sqid : ℕ) (c : Command) (p : Option _)
    → FailsClean dev (add_cmd_node alloc dev sqid c p)
unfolding add_cmd_node
add_cmd_node-FailsClean alloc dev sqid c p = let r = SameTables-refl dev in ground (arith, r)

undo_prps-FailsClean :
    (dev : Device) (p : _) (r : Run) → FailsClean dev r → FailsClean dev (undo_prps p r)
unfolding undo_prps
undo_prps-FailsClean dev p (ran d) h = tt
undo_prps-FailsClean dev p (failed e d) h = record {
  sqs = h.sqs;
  cqs = h.cqs;
  metas = h.metas;
  irq_set = h.irq_set;
}
undo_prps-FailsClean dev p bug h = tt

link_ready-FailsClean :
    (mem : PrepareMem) (dev : Device) (sqid : ℕ) (c : Command) (r : Ready)
    → FailsClean dev (link_ready mem dev sqid c r).run
unfolding link_ready
link_ready-FailsClean mem dev sqid c (ready c' none) =
    add_cmd_node-FailsClean mem.node dev sqid c' none
link_ready-FailsClean mem dev sqid c (ready c' (some p)) =
    undo_prps-FailsClean dev p _ (add_cmd_node-FailsClean mem.node dev sqid c' (some p))
link_ready-FailsClean mem dev sqid c (not_ready e undone) = record {
  sqs = refl;
  cqs = refl;
  metas = refl;
  irq_set = refl;
}
link_ready-FailsClean mem dev sqid c bug_ready = tt

prepare_64b_cmd-FailsClean :
    (mem : PrepareMem) (dev : Device) (u : UserCmd) (c : Command)
    → FailsClean dev (prepare_64b_cmd mem dev u c).run
unfolding prepare_64b_cmd
prepare_64b_cmd-FailsClean mem dev u c = link_ready-FailsClean mem dev u.sqid c _

mark_sq-FailsClean :
    (dev : Device) (id : ℕ) (r : Run) → FailsClean dev r → FailsClean dev (mark_sq id r)
unfolding mark_sq
mark_sq-FailsClean dev id (ran d) h = tt
mark_sq-FailsClean dev id (failed e d) h = h
mark_sq-FailsClean dev id bug h = tt

mark_cq-FailsClean :
    (dev : Device) (id : ℕ) (r : Run) → FailsClean dev r → FailsClean dev (mark_cq id r)
unfolding mark_cq
mark_cq-FailsClean dev id (ran d) h = tt
mark_cq-FailsClean dev id (failed e d) h = h
mark_cq-FailsClean dev id bug h = tt

module _ (mem : PrepareMem) (dev : Device) (u : UserCmd) (c : Command) where
  create_iosq-FailsClean : FailsClean dev (create_iosq mem dev u c).run
  unfolding create_iosq
  create_iosq-FailsClean =
      let same = SameTables-refl dev in
      let h = mark_sq-FailsClean dev (qid_of c) _ (prepare_64b_cmd-FailsClean mem dev u c) in
      ground (arith, same, h)

  create_iocq-FailsClean : FailsClean dev (create_iocq mem dev u c).run
  unfolding create_iocq
  create_iocq-FailsClean =
      let same = SameTables-refl dev in
      let h = mark_cq-FailsClean dev (qid_of c) _ (prepare_64b_cmd-FailsClean mem dev u c) in
      ground (arith, same, h)

  pub dispatch-FailsClean : FailsClean dev (dispatch mem dev u c).run
  unfolding dispatch
  dispatch-FailsClean =
      let a = create_iosq-FailsClean in
      let b = create_iocq-FailsClean in
      let h = prepare_64b_cmd-FailsClean mem dev u c in ground (arith, a, b, h)

-- A queue but for the identifier that its next command gets.
abbrev pub body : Sq → Sq
body q = record q { next_cid = 0 }

-- Between the two devices only the next identifiers of submission queues and the log differ.
pub record IsRejected (dev dev' : Device) : Type 0 where
  pub sqs : (id : ℕ) → Option.map body (lookup id dev'.sqs) ≡ Option.map body (lookup id dev.sqs)
  pub cqs : dev'.cqs ≡ dev.cqs
  pub metas : dev'.metas ≡ dev.metas
  pub irq_set : dev'.irq_set ≡ dev.irq_set

abbrev pub Rejects : Device → Run → Type 0
Rejects dev (ran dev') = Unit
Rejects dev (failed e dev') = IsRejected dev dev'
Rejects dev bug = Unit

IsRejected-refl : (dev : Device) → IsRejected dev dev
IsRejected-refl dev = record { sqs = λ id. refl; cqs = refl; metas = refl; irq_set = refl }

body-same :
    (o : Option Sq) (k : ℕ)
    → Option.map body (Option.map {A = Sq} (λ q. record q { next_cid = k }) o) ≡ Option.map body o
body-same none k = refl
body-same (some q) k = refl

body-update :
    (m : Dict Sq) (sqid k id : ℕ)
    → Option.map body (lookup id (update sqid (λ q. record q { next_cid = k }) m))
      ≡ Option.map body (lookup id m)
body-update m sqid k id =
    ap (Option.map body) (lookup-update sqid id _ m) ∙ elim (Bool-cases (sqid == id)) [
      | inl e ↦ rw e (body-same (lookup id m) k)
      | inr e ↦ rw e refl
    ]

-- The identifier written on a device that was rejected already.
IsRejected-next_cid :
    {dev dev' : Device} (sqid k : ℕ)
    → IsRejected dev dev'
    → IsRejected dev (record dev' { sqs = update sqid (λ q. record q { next_cid = k }) dev'.sqs })
IsRejected-next_cid {dev} {dev'} sqid k h = record {
  sqs = λ id. body-update dev'.sqs sqid k id ∙ h.sqs id;
  cqs = h.cqs;
  metas = h.metas;
  irq_set = h.irq_set;
}

IsRejected-SameTables :
    {dev dev' dev'' : Device} → IsRejected dev dev' → SameTables dev' dev'' → IsRejected dev dev''
IsRejected-SameTables h t = record {
  sqs = λ id. ap (λ m. Option.map body (lookup id m)) t.sqs ∙ h.sqs id;
  cqs = t.cqs ∙ h.cqs;
  metas = t.metas ∙ h.metas;
  irq_set = t.irq_set ∙ h.irq_set;
}

finish_submit-Rejects :
    {dev dev' : Device} (sqid : ℕ) (p : Prepared)
    → IsRejected dev dev'
    → (r : Run) → p.run ≡ r
    → FailsClean dev' r
    → Rejects dev (finish_submit sqid p)
unfolding finish_submit
finish_submit-Rejects sqid p h (ran d) e clean = ground (arith, e)
finish_submit-Rejects sqid p h bug e clean = ground (arith, e)
finish_submit-Rejects sqid p h (failed err d) e clean =
    let undone = IsRejected-SameTables h clean in
    elim (Option-cases (lookup sqid d.sqs)) [
      | inl n ↦ rw (e, n, finish_submit) tt
      | inr (sq, n) ↦ rw (e, n, finish_submit) (IsRejected-next_cid sqid _ undone)
    ]

submit_checked-Rejects :
    (smem : SubmitMem) (mem : PrepareMem) (dev : Device) (u : UserCmd) (c : Command) (sq : Sq)
    → Rejects dev (submit_checked smem mem dev u c sq)
unfolding submit_checked
submit_checked-Rejects smem mem dev u c sq =
    let given = IsRejected-next_cid u.sqid ((sq.next_cid + 1) % 65536) (IsRejected-refl dev) in
    let numbered : Command = record c { command_id = sq.next_cid } in
    let dev₁ = set_next_cid u.sqid ((sq.next_cid + 1) % 65536) dev in
    elim (Bool-cases smem.copy_out) [
      | inr e ↦ rw (e, submit_checked) given
      | inl e ↦ elim (Option-cases (fill_mptr dev₁ u numbered)) [
        | inl f ↦ rw (e, f, submit_checked) tt
        | inr (inl err, f) ↦ rw (e, f, submit_checked) given
        | inr (inr c', f) ↦
            rw (e, f, submit_checked)
              (finish_submit-Rejects u.sqid (dispatch mem dev₁ u c') given _ refl
                (dispatch-FailsClean mem dev₁ u c'))
      ]
    ]

submit_64b_cmd-Rejects :
    (smem : SubmitMem) (mem : PrepareMem) (dev : Device) (u : UserCmd) (c : Command)
    → Rejects dev (submit_64b_cmd smem mem dev u c)
unfolding submit_64b_cmd submit_checked
submit_64b_cmd-Rejects smem mem dev u c = elim (sum-cases (check_submit smem dev u)) [
  | inl (e, p) ↦ rw (p, submit_64b_cmd) (IsRejected-refl dev)
  | inr (sq, p) ↦ rw (p, submit_64b_cmd) (submit_checked-Rejects smem mem dev u c sq)
]

-- A command that `dnvme_submit_64b_cmd` refuses, for whatever reason and after whatever it had done,
-- is in no queue: every submission queue is the same but for its next identifier, with its
-- commands in flight, its slots and its tail, and completion queues, meta buffers and the interrupt
-- set are the same.
pub submit_64b_cmd-IsRejected :
    (smem : SubmitMem) (mem : PrepareMem) (dev : Device) (u : UserCmd) (c : Command) (err : Errno)
    (dev' : Device)
    → submit_64b_cmd smem mem dev u c ≡ failed err dev'
    → IsRejected dev dev'
submit_64b_cmd-IsRejected smem mem dev u c err dev' e =
    subst (Rejects dev) e (submit_64b_cmd-Rejects smem mem dev u c)
