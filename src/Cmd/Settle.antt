-- ===== src/Cmd/Settle.antt =====
-- modules/dnvme/queue.c: a completion entry and the command that it names.
use dnvme.Base.{ℕ, ◌≡◌, ◌≢◌, ap, ◌∙◌, none, some, arith, List, [], ◌∷◌, ◌++◌}
use dnvme.Base.Dict.{lookup, lookup-update_here, lookup-update_there}
use dnvme.Device.{done, Completion, Cmd, Prps, Sq, Device, release_prps}
use dnvme.Queue.{release_ptr}
use dnvme.Cmd.{find_cmd, delete_cmd}
use dnvme.Cmd.Complete.{drop_cmd, set_head, handle_cmd_completion, handle_gen_cmd_completion}

find_cmd-split :
    (earlier later : List Cmd) (cmd : Cmd) (cid : ℕ)
    → find_cmd earlier cid ≡ none
    → cmd.cid ≡ cid
    → find_cmd (earlier ++ cmd ∷ later) cid ≡ some cmd
unfolding find_cmd
find_cmd-split [] later cmd cid n e = ground arith
find_cmd-split (k ∷ ks) later cmd cid n e = ground (arith, find_cmd-split ks later cmd cid)

delete_cmd-split :
    (earlier later : List Cmd) (cmd : Cmd) (cid : ℕ)
    → find_cmd earlier cid ≡ none
    → cmd.cid ≡ cid
    → delete_cmd cid (earlier ++ cmd ∷ later) ≡ earlier ++ later
unfolding find_cmd delete_cmd
delete_cmd-split [] later cmd cid n e = ground arith
delete_cmd-split (k ∷ ks) later cmd cid n e = ground (arith, delete_cmd-split ks later cmd cid)

-- What the completion `e` of a command with the PRPs `p` has done; `rest` are the other commands in flight.
pub record IsSettled (dev : Device) (e : Completion) (sq : Sq) (p : Prps) (rest : List Cmd)
    : Type 0 where
  pub succeeds : (handle_cmd_completion dev e).0 ≡ done
  pub queue :
      lookup e.sq_id (handle_cmd_completion dev e).1.sqs
      ≡ some (record sq { head_ptr = e.sq_head; cmd_list = rest })
  pub released : (handle_cmd_completion dev e).1.io ≡ release_prps p ∷ dev.io
  pub others :
      (id : ℕ) → id ≢ e.sq_id → lookup id (handle_cmd_completion dev e).1.sqs ≡ lookup id dev.sqs
  pub cqs : (handle_cmd_completion dev e).1.cqs ≡ dev.cqs

module _ (dev : Device) (e : Completion) (sq : Sq) (cmd : Cmd) where
  -- The device behind the completion of an I/O command.
  abbrev settled : Device
  settled =
      let headed = set_head e.sq_id e.sq_head dev in
      drop_cmd e.sq_id cmd.cid (record headed { io = release_ptr cmd.prps ++ headed.io })

  handle_cmd_completion-io :
      e.sq_id ≢ 0
      → lookup e.sq_id dev.sqs ≡ some sq
      → find_cmd sq.cmd_list e.command_id ≡ some cmd
      → handle_cmd_completion dev e ≡ (done, settled)
  unfolding handle_cmd_completion handle_gen_cmd_completion
  handle_cmd_completion-io io p q = ground arith

-- A completion entry of an I/O queue that names a command in flight that has PRPs, at whatever place in
-- the list but with no earlier command of that identifier, is handled without error: that command
-- alone leaves the list, its PRPs are given back, the head of the queue is the one that the
-- controller reports, and no other submission queue and no completion queue changes.
pub handle_cmd_completion-IsSettled :
    (dev : Device) (e : Completion) (sq : Sq) (cmd : Cmd) (p : Prps) (earlier later : List Cmd)
    → e.sq_id ≢ 0
    → lookup e.sq_id dev.sqs ≡ some sq
    → sq.cmd_list ≡ earlier ++ cmd ∷ later
    → find_cmd earlier e.command_id ≡ none
    → cmd.cid ≡ e.command_id
    → cmd.prps ≡ some p
    → IsSettled dev e sq p (earlier ++ later)
unfolding drop_cmd release_ptr
handle_cmd_completion-IsSettled dev e sq cmd prps earlier later io p l n c has =
    let found =
      ap (λ cs. find_cmd cs e.command_id) l ∙ find_cmd-split earlier later cmd e.command_id n c in
    let run = handle_cmd_completion-io dev e sq cmd io p found in
    let left : delete_cmd cmd.cid sq.cmd_list ≡ earlier ++ later =
      ap (λ i. delete_cmd i sq.cmd_list) c
      ∙ ap (delete_cmd e.command_id) l
      ∙ delete_cmd-split earlier later cmd e.command_id n c in
    record {
      succeeds = ap (λ r. r.0) run;
      queue =
          ap (λ r. lookup e.sq_id r.1.sqs) run
          ∙ lookup-update_here e.sq_id _ _ _ (lookup-update_here e.sq_id _ sq dev.sqs p)
          ∙ ap (λ cs. some (record sq { head_ptr = e.sq_head; cmd_list = cs })) left;
      released = ap (λ r. r.1.io) run ∙ ap (λ o. release_ptr o ++ dev.io) has;
      others = λ id d.
          ap (λ r. lookup id r.1.sqs) run
          ∙ lookup-update_there e.sq_id id _ _ d
          ∙ lookup-update_there e.sq_id id _ dev.sqs d;
      cqs = ap (λ r. r.1.cqs) run;
    }
