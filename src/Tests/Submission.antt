-- ===== src/Tests/Submission.antt =====
-- The theorems on submission at concrete commands.
use dnvme.Base.{false, refl, none, arith}
use dnvme.Base.Dict.{lookup}
use dnvme.Device.{efault, Command, Scatter, Prps}
use dnvme.Cmd.Prepare.{need_prp, PrepareMem, mapped_prps, build_prps, ready_prps, with_list}
use dnvme.Prp.{setup_prps}
use dnvme.Cmd.Submit.{check_submit, fill_mptr, set_next_cid, submit_64b_cmd, submit_checked}
use dnvme.Cmd.Accept.{IsAccepted, submit_64b_cmd-IsAccepted}
use dnvme.Cmd.Reject.{IsRejected, submit_64b_cmd-IsRejected}
use dnvme.Base.{List, [], ◌∷◌, ◌++◌, inr, some}
use dnvme.Cmd.{UserCmd, find_cmd}
use dnvme.Cmd.Accept.{with_command}
use dnvme.Cmd.Settle.{IsSettled}
use dnvme.Cmd.Cycle.{accepted-IsSettled}
use dnvme.Tests.Data.{entry, two_commands, device, flush, flush_call, kernel_submit, kernel_prepare}

submit_64b_cmd-IsAccepted_example :
    IsAccepted
      (submit_64b_cmd kernel_submit kernel_prepare device flush_call flush)
      device
      1
      two_commands
      (record flush { command_id = 8 })
      none
unfolding check_submit fill_mptr need_prp lookup
submit_64b_cmd-IsAccepted_example =
    submit_64b_cmd-IsAccepted kernel_submit kernel_prepare device flush_call flush two_commands
      (record flush { command_id = 8 }) (record flush { command_id = 8 }) none (ground arith) refl
      refl refl refl refl refl

submit_64b_cmd-IsRejected_example : IsRejected device (set_next_cid 1 9 device)
unfolding submit_64b_cmd check_submit submit_checked lookup
submit_64b_cmd-IsRejected_example =
    submit_64b_cmd-IsRejected (record kernel_submit { copy_out = false }) kernel_prepare device
      flush_call flush efault (set_next_cid 1 9 device) refl

-- A read of one page, which the kernel maps in one piece.
abbrev read : Command
read = record flush { opcode = 2 }

abbrev read_call : UserCmd
read_call = record flush_call { data_buf_ptr = 65536; data_buf_size = 4096 }

abbrev one_page : List Scatter
one_page = record { dma_address = 20480; dma_len = 4096 } ∷ []

abbrev mapping : PrepareMem
mapping = record kernel_prepare { mapped = inr (one_page, 1, 4096) }

abbrev read_sent : Command
read_sent = record read { command_id = 8; prp1 = 20480 }

abbrev read_prps : Prps
read_prps = mapped_prps read_call one_page 1 4096

-- The read is accepted, and then its completion comes.
read-IsAccepted :
    IsAccepted
      (submit_64b_cmd kernel_submit mapping device read_call read)
      device
      1
      two_commands
      read_sent
      (some read_prps)
unfolding check_submit fill_mptr need_prp build_prps ready_prps setup_prps with_list lookup
read-IsAccepted =
    submit_64b_cmd-IsAccepted kernel_submit mapping device read_call read two_commands
      (record read { command_id = 8 }) read_sent (some read_prps) (ground arith) refl refl refl refl
      refl refl

accepted-IsSettled_example :
    IsSettled read-IsAccepted.after
      (entry 8 0)
      (with_command two_commands 1 read_sent (some read_prps))
      read_prps
      (two_commands.cmd_list ++ [])
unfolding find_cmd
accepted-IsSettled_example =
    accepted-IsSettled (submit_64b_cmd kernel_submit mapping device read_call read) device 1
      two_commands read_sent read_prps (entry 8 0) read-IsAccepted (ground arith) refl refl refl
