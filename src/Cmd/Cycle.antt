-- ===== src/Cmd/Cycle.antt =====
-- modules/dnvme/cmd.c and queue.c: a command from its submission to its completion.
use dnvme.Base.{ℕ, ◌≡◌, ◌≢◌, refl, ap, ◌∙◌, sym, none, some, [], ◌++◌}
use dnvme.Base.Dict.{lookup}
use dnvme.Device.{Command, Completion, Prps, Sq, Device}
use dnvme.Cmd.{Run, find_cmd}
use dnvme.Cmd.Accept.{IsAccepted, with_command, node_of}
use dnvme.Cmd.Settle.{IsSettled, handle_cmd_completion-IsSettled}

-- A command with PRPs that an I/O queue has accepted, under an identifier that no command in flight
-- carried, is settled by the completion entry with that identifier: the commands in flight are
-- those from before the submission, and the PRPs of the command are given back.
pub accepted-IsSettled :
    (r : Run) (dev : Device) (sqid : ℕ) (sq : Sq) (c : Command) (p : Prps) (e : Completion)
    → (h : IsAccepted r dev sqid sq c (some p)) → sqid ≢ 0
    → find_cmd sq.cmd_list sq.next_cid ≡ none
    → e.sq_id ≡ sqid
    → e.command_id ≡ sq.next_cid
    → IsSettled h.after e (with_command sq sqid c (some p)) p (sq.cmd_list ++ [])
accepted-IsSettled r dev sqid sq c p e h io fresh same named =
    handle_cmd_completion-IsSettled h.after e (with_command sq sqid c (some p))
      (node_of sq sqid c (some p)) p sq.cmd_list [] (λ zero_id. io (sym same ∙ zero_id))
      (ap (λ i. lookup i h.after.sqs) same ∙ h.queue) refl (ap (find_cmd sq.cmd_list) named ∙ fresh)
      (h.numbered ∙ sym named) refl
