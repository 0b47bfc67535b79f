-- ===== src/Cmd/Target.antt =====
-- modules/dnvme/queue.c: what the completion of a create or delete queue command does to the queue.
use dnvme.Base.{
  ℕ, ◌==◌, ◌≡◌, ◌≢◌, refl, ap, ◌∙◌, Bool, true, false, not, none, some, arith, Option-cases, inl,
  inr, if◌then◌else◌, ◌||◌, ◌&&◌,
}
use dnvme.Base.Dict.{lookup, erase, lookup-erase, lookup-update_there}
use dnvme.Device.{Status, done, Cmd, Sq, Cq, Device, is_sound}
use dnvme.Queue.{delete_sq, release_sq, delete_cq, release_cq}
use dnvme.Cmd.{create_sq_op, delete_sq_op, create_cq_op, delete_cq_op}
use dnvme.Cmd.Complete.{
  drop_cmd, delete_target, handle_queue_cmd_completion, handle_admin_cmd_completion,
}

-- A queue is found under the number that it carries.
abbrev pub IsKeyedSq : Device → Type 0
IsKeyedSq dev = (id : ℕ) (q : Sq) → lookup id dev.sqs ≡ some q → q.sq_id ≡ id

abbrev pub IsKeyedCq : Device → Type 0
IsKeyedCq dev = (id : ℕ) (q : Cq) → lookup id dev.cqs ≡ some q → q.q_id ≡ id

-- `dnvme_delete_sq` takes the queue out and no other.
pub delete_sq-lookup :
    (dev : Device) (id j : ℕ)
    → IsKeyedSq dev
    → lookup j (delete_sq dev id).sqs ≡ (if id == j then none else lookup j dev.sqs)
unfolding delete_sq release_sq
delete_sq-lookup dev id j keyed = elim (Option-cases (lookup id dev.sqs)) [
  | inl e ↦ rw (e, delete_sq) (ground arith)
  | inr (q, e) ↦
      rw (e, delete_sq)
        (ap (λ k. lookup j (erase k dev.sqs)) (keyed id q e) ∙ lookup-erase id j dev.sqs)
]

pub delete_cq-lookup :
    (dev : Device) (id j : ℕ)
    → IsKeyedCq dev
    → lookup j (delete_cq dev id).cqs ≡ (if id == j then none else lookup j dev.cqs)
unfolding delete_cq release_cq
delete_cq-lookup dev id j keyed = elim (Option-cases (lookup id dev.cqs)) [
  | inl e ↦ rw (e, delete_cq) (ground arith)
  | inr (q, e) ↦
      rw (e, delete_cq)
        (ap (λ k. lookup j (erase k dev.cqs)) (keyed id q e) ∙ lookup-erase id j dev.cqs)
]

-- Whether the controller has the queue behind the completion: a create that went well, or a delete
-- that did not.
abbrev pub stays_sq : Cmd → ℕ → Bool
stays_sq cmd status = if cmd.opcode == create_sq_op then status == 0 else not (status == 0)

abbrev pub stays_cq : Cmd → ℕ → Bool
stays_cq cmd status = if cmd.opcode == create_cq_op then status == 0 else not (status == 0)

handle_admin-sq :
    (dev : Device) (cmd : Cmd) (status : ℕ)
    → cmd.target_qid ≢ 0
    → (cmd.opcode == create_sq_op) || (cmd.opcode == delete_sq_op) ≡ true
    → handle_admin_cmd_completion dev 0 cmd status ≡ (
      done,
      drop_cmd 0 cmd.cid (if stays_sq cmd status then dev else delete_sq dev cmd.target_qid),
    )
unfolding handle_admin_cmd_completion handle_queue_cmd_completion delete_target
handle_admin-sq dev cmd status t op = ground arith

handle_admin-cq :
    (dev : Device) (cmd : Cmd) (status : ℕ)
    → cmd.target_qid ≢ 0
    → (cmd.opcode == create_cq_op) || (cmd.opcode == delete_cq_op) ≡ true
    → handle_admin_cmd_completion dev 0 cmd status ≡ (
      done,
      drop_cmd 0 cmd.cid (if stays_cq cmd status then dev else delete_cq dev cmd.target_qid),
    )
unfolding handle_admin_cmd_completion handle_queue_cmd_completion delete_target
handle_admin-cq dev cmd status t op = ground arith

drop_cmd-others :
    (cid id : ℕ) (dev : Device) → id ≢ 0 → lookup id (drop_cmd 0 cid dev).sqs ≡ lookup id dev.sqs
unfolding drop_cmd
drop_cmd-others cid id dev d = lookup-update_there 0 id _ dev.sqs d

drop_cmd-cqs : (cid : ℕ) (dev : Device) → (drop_cmd 0 cid dev).cqs ≡ dev.cqs
unfolding drop_cmd
drop_cmd-cqs cid dev = refl

kept_or_gone_sq :
    (stays : Bool) (dev : Device) (target j : ℕ)
    → IsKeyedSq dev
    → lookup j (if stays then dev else delete_sq dev target).sqs
      ≡ (if not stays && (target == j) then none else lookup j dev.sqs)
kept_or_gone_sq true dev target j keyed = refl
kept_or_gone_sq false dev target j keyed = delete_sq-lookup dev target j keyed

kept_or_gone_cq :
    (stays : Bool) (dev : Device) (target j : ℕ)
    → IsKeyedCq dev
    → lookup j (if stays then dev else delete_cq dev target).cqs
      ≡ (if not stays && (target == j) then none else lookup j dev.cqs)
kept_or_gone_cq true dev target j keyed = refl
kept_or_gone_cq false dev target j keyed = delete_cq-lookup dev target j keyed

-- The submission queues behind the completion of a create or delete command for one of them.
pub record IsTargetSq (dev : Device) (cmd : Cmd) (status : ℕ) (r : Status × Device) : Type 0 where
  pub succeeds : r.0 ≡ done
  pub sqs :
      (id : ℕ)
      → id ≢ 0
      → lookup id r.1.sqs
        ≡ (if not (stays_sq cmd status) && (cmd.target_qid == id) then none else lookup id dev.sqs)

-- Where submission queues stand under the numbers that they carry: the completion of a create or
-- delete command for a submission queue other than the admin queue is handled without error, and
-- the queue that the command names is gone if the controller does not have it, that is, if the
-- create command failed or the delete command succeeded. Every other I/O queue, and that one in
-- the other cases, stays as it was. The log is to show no access through a null pointer, as the
-- deletion makes for a queue, or a command in flight, that has no PRPs to give back.
pub handle_admin_cmd_completion-IsTargetSq :
    (dev : Device) (cmd : Cmd) (status : ℕ)
    → IsKeyedSq dev
    → cmd.target_qid ≢ 0
    → (cmd.opcode == create_sq_op) || (cmd.opcode == delete_sq_op) ≡ true
    → is_sound (handle_admin_cmd_completion dev 0 cmd status).1.io ≡ true
    → IsTargetSq dev cmd status (handle_admin_cmd_completion dev 0 cmd status)
handle_admin_cmd_completion-IsTargetSq dev cmd status keyed t op safe =
    let run = handle_admin-sq dev cmd status t op in
    record {
      succeeds = ap (λ r. r.0) run;
      sqs = λ id d.
          ap (λ r. lookup id r.1.sqs) run
          ∙ drop_cmd-others cmd.cid id
              (if stays_sq cmd status then dev else delete_sq dev cmd.target_qid) d
          ∙ kept_or_gone_sq (stays_sq cmd status) dev cmd.target_qid id keyed;
    }

-- The completion queues behind the completion of a create or delete command for one of them.
pub record IsTargetCq (dev : Device) (cmd : Cmd) (status : ℕ) (r : Status × Device) : Type 0 where
  pub succeeds : r.0 ≡ done
  pub cqs :
      (id : ℕ)
      → lookup id r.1.cqs
        ≡ (if not (stays_cq cmd status) && (cmd.target_qid == id) then none else lookup id dev.cqs)

-- Where completion queues stand under the numbers that they carry: the completion of a create or
-- delete command for a completion queue other than the admin queue is handled without error, and
-- the queue that the command names is gone if the controller does not have it, that is, if the
-- create command failed or the delete command succeeded. Every other completion queue, and that
-- one in the other cases, stays as it was.
pub handle_admin_cmd_completion-IsTargetCq :
    (dev : Device) (cmd : Cmd) (status : ℕ)
    → IsKeyedCq dev
    → cmd.target_qid ≢ 0
    → (cmd.opcode == create_cq_op) || (cmd.opcode == delete_cq_op) ≡ true
    → is_sound (handle_admin_cmd_completion dev 0 cmd status).1.io ≡ true
    → IsTargetCq dev cmd status (handle_admin_cmd_completion dev 0 cmd status)
handle_admin_cmd_completion-IsTargetCq dev cmd status keyed t op safe =
    let run = handle_admin-cq dev cmd status t op in
    record {
      succeeds = ap (λ r. r.0) run;
      cqs = λ id.
          ap (λ r. lookup id r.1.cqs) run
          ∙ ap (lookup id) (
              drop_cmd-cqs cmd.cid
                (if stays_cq cmd status then dev else delete_cq dev cmd.target_qid))
          ∙ kept_or_gone_cq (stays_cq cmd status) dev cmd.target_qid id keyed;
    }
