-- ===== src/Tests/Completion.antt =====
-- The theorems on completion queues at concrete queues.
use dnvme.Base.{ℕ, ◌≡◌, ◌<◌, refl, true, false, [], ◌∷◌, arith}
use dnvme.Base.Dict.{lookup}
use dnvme.Device.{Cq, Cmd, is_sound}
use dnvme.Phase.{get_cqe_remain, entry_is_new, counted, endless, is_backed}
use dnvme.Phase.Remain.{IsCount, slot_at, get_cqe_remain-IsCount}
use dnvme.Phase.FullRange.{get_cqe_remain-diverges}
use dnvme.Cmd.{find_cmd, create_sq_op}
use dnvme.Queue.{delete_sq, release_sq, free_sq_buffer, release_cmds, release_ptr}
use dnvme.Cmd.Complete.{update_cq_head_node, handle_admin_cmd_completion}
use dnvme.Cmd.Advance.{reads_new, update_cq_head_node-reads}
use dnvme.Cmd.Reap.{ReapReq}
use dnvme.Cmd.Settle.{IsSettled, handle_cmd_completion-IsSettled}
use dnvme.Cmd.Target.{IsTargetSq, IsKeyedSq, handle_admin_cmd_completion-IsTargetSq}
use dnvme.Tests.Data.{entry, four_entries, two_commands, one_mapped, in_flight, device}

get_cqe_remain-IsCount_example :
    (tail : ℕ) × (remain : ℕ) × (get_cqe_remain 5 four_entries
      ≡ counted (record four_entries { tail_ptr = tail }) remain)
    × IsCount four_entries.slots 4 3 true tail remain
unfolding is_backed
get_cqe_remain-IsCount_example =
    get_cqe_remain-IsCount four_entries (omega arith) (omega arith) refl

-- A queue of the largest depth, in memory that reads as ones.
abbrev deep : Cq
deep = record four_entries { elements = 65536; slots = []; pbit_new_entry = false }

deep_is_new : (i : ℕ) → i < 65536 → entry_is_new [] i false ≡ true
unfolding entry_is_new
deep_is_new i h = refl

get_cqe_remain-diverges_example : get_cqe_remain 100000 deep ≡ endless
unfolding is_backed
get_cqe_remain-diverges_example =
    get_cqe_remain-diverges 100000 deep refl (omega arith) deep_is_new refl

update_cq_head_node-reads_example :
    let cq' = update_cq_head_node 2 four_entries in
    (cq'.head_ptr < cq'.elements)
    × (slot_at cq'.elements cq'.head_ptr 1 ≡ slot_at 4 3 3)
    × (reads_new cq' 1 ≡ reads_new four_entries 3)
update_cq_head_node-reads_example =
    update_cq_head_node-reads four_entries 2 1 (omega arith) (omega arith) (omega arith)

abbrev request : ReapReq
request = record {
  cqid = 1;
  expect = 0;
  size = 4096;
  copy_in = true;
  copy_out = true;
  copies = λ n. true;
}

handle_cmd_completion-IsSettled_example :
    IsSettled device (entry 7 0) two_commands one_mapped (in_flight 6 ∷ [])
unfolding lookup find_cmd
handle_cmd_completion-IsSettled_example =
    handle_cmd_completion-IsSettled device (entry 7 0) two_commands (in_flight 7) one_mapped
      (in_flight 6 ∷ []) [] (ground arith) refl refl refl refl refl

-- The admin command that creates submission queue 1, and the one that deletes completion queue 1.
abbrev creates_sq : Cmd
creates_sq = record (in_flight 0) { sqid = 0; opcode = create_sq_op; target_qid = 1 }

device-IsKeyedSq : IsKeyedSq device
unfolding lookup
device-IsKeyedSq id q e = ground arith

handle_admin_cmd_completion-IsTargetSq_example :
    IsTargetSq device creates_sq 5 (handle_admin_cmd_completion device 0 creates_sq 5)
unfolding handle_admin_cmd_completion is_sound delete_sq lookup release_sq free_sq_buffer
    release_cmds release_ptr
handle_admin_cmd_completion-IsTargetSq_example =
    handle_admin_cmd_completion-IsTargetSq device creates_sq 5 device-IsKeyedSq (ground arith) refl
      refl
