-- ===== src/Cmd/Prepare.antt =====
-- modules/dnvme/cmd.c: `dnvme_prepare_64b_cmd`, from the mapping of the user's buffer to the node in
-- the list of its queue. Pages that a failing call takes from the pool and returns are not logged.
use dnvme.Base.{
  ℕ, ◌+◌, ◌*◌, ◌/◌, ◌%◌, Bool, true, false, not, ◌&&◌, ◌||◌, Option, none, some, List, [], ◌∷◌,
  ◌++◌, ◌==◌, if◌then◌else◌, ◌⊎◌, inl, inr, length,
}
use dnvme.Device.{
  Errno, einval, enomem, Prps, Scatter, Command, Device, SglDesc, Effect, release_prps,
  unmap_user_page,
}
use dnvme.Prp.{PrpAlloc, PrpList, Setup, error, crash, set_up, setup_prps}
use dnvme.Sgl.{
  BitBucket, SglAlloc, SglList, SglSetup, sgl_error, sgl_crash, sgl_set_up, cmd_setup_sgl,
  blank_desc,
}
use dnvme.Cmd.{
  UserCmd, Run, ran, failed, bug, delete_sq_op, delete_cq_op, is_create_sq, is_create_cq,
  add_cmd_node,
}

-- What the kernel answers while a command is made ready: the allocations of the node and of the
-- PRPs, the mapped scatterlist with the number of its pages, or an error, and the list pages.
pub record PrepareMem : Type 0 where
  pub node : Bool
  pub prps : Bool
  pub mapped : Errno ⊎ (List Scatter × ℕ × ℕ)
  pub prp : PrpAlloc
  pub sgl : SglAlloc
  pub sort : List BitBucket → List BitBucket

-- `dnvme_use_sgls`; the two bits of NVME_CMD_SGL_ALL are bits 7:6 of the flags.
unfoldable pub use_sgls : Command → ℕ → Bool
use_sgls c sqid = not (c.flags / 64 % 4 == 0) && not (sqid == 0)

-- Whether a command needs PRPs.
unfoldable pub need_prp : UserCmd → Command → Bool
need_prp u c =
    if u.sqid == 0 && (c.opcode == delete_sq_op || c.opcode == delete_cq_op)
    then false
    else not (u.data_buf_ptr == 0)

-- The checks that `dnvme_map_user_page` makes before it asks the kernel.
unfoldable pub mappable : UserCmd → Bool
mappable u = not (u.data_buf_ptr == 0) && (u.data_buf_ptr % 4 == 0) && not (u.data_buf_size == 0)

-- A command with its data pointer set, and the PRPs that belong to it, if it has any.
pub data Ready : Type 0 where
  ready : Command → Option Prps → Ready
  not_ready : Errno → List Effect → Ready
  bug_ready : Ready

abbrev pub mapped_prps : UserCmd → List Scatter → ℕ → ℕ → Prps
mapped_prps u sg nr_map buf = record {
  prp_list = λ _ _. 0;
  sgl_list = λ _ _. blank_desc;
  pg_addr = [];
  nr_pages = 0;
  nr_entry = 0;
  is_sgl = false;
  buf = buf;
  sg = sg;
  num_map_pgs = nr_map;
  data_buf_size = u.data_buf_size;
  data_buf_addr = u.data_buf_ptr;
}

unfoldable pub with_list : Prps → Option PrpList → Prps
with_list p none = p
with_list p (some l) = record p {
  prp_list = l.mem;
  pg_addr = l.pg_addr;
  nr_pages = length l.pg_addr;
  nr_entry = l.nr_entry;
}

unfoldable pub with_segments : Prps → Option SglList → Prps
with_segments p none = record p { is_sgl = true }
with_segments p (some l) = record p {
  sgl_list = l.mem;
  pg_addr = l.pg_addr;
  nr_pages = length l.pg_addr;
  nr_entry = l.nr_entry;
  is_sgl = true;
}

-- The data pointer is a union: an SGL descriptor lies over both PRPs, its reserved bytes in bits
-- 55:32 of the second.
unfoldable pub set_sgl : Command → SglDesc → Command
set_sgl c d = record c {
  prp1 = d.addr;
  prp2 = d.length + c.prp2 / 4294967296 % 16777216 * 4294967296 + d.type * 72057594037927936;
}

unfoldable pub ready_prps : Command → Prps → Setup → Ready
unfolding with_list
ready_prps c p (error e) = not_ready e (unmap_user_page p ∷ [])
ready_prps c p crash = bug_ready
ready_prps c p (set_up prp1 prp2 l) =
    ready (record c { prp1 = prp1; prp2 = prp2 }) (some (with_list p l))

unfoldable pub ready_sgl : Command → Prps → SglSetup → Ready
unfolding with_segments set_sgl
ready_sgl c p (sgl_error e) = not_ready e (unmap_user_page p ∷ [])
ready_sgl c p sgl_crash = bug_ready
ready_sgl c p (sgl_set_up d l) = ready (set_sgl c d) (some (with_segments p l))

-- From `dnvme_cmd_map_user_page` to the PRPs or SGL of a command that needs them.
unfoldable pub build_prps : PrepareMem → UserCmd → Command → Ready
unfolding mappable use_sgls is_create_sq is_create_cq ready_prps ready_sgl
build_prps mem u c =
    if mem.prps
    then if mappable u
      then elim mem.mapped [
        | inl e ↦ not_ready e []
        | inr (sg, nr_map, buf) ↦
            if use_sgls c u.sqid
            then ready_sgl c (mapped_prps u sg nr_map buf)
                (cmd_setup_sgl mem.sort mem.sgl sg nr_map u.bit_bucket)
            else ready_prps c (mapped_prps u sg nr_map buf) (
                setup_prps mem.prp u.prp_mask (is_create_sq u.sqid c || is_create_cq u.sqid c)
                  c.prp2 u.data_buf_size sg)
      ]
      else not_ready einval []
    else not_ready enomem []

-- A command prepared: the command with its data pointer, and the run that linked its node.
pub record Prepared : Type 0 where
  pub command : Command
  pub run : Run

-- Where linking the node fails, the PRPs are given back.
unfoldable pub undo_prps : Prps → Run → Run
undo_prps p (ran dev) = ran dev
undo_prps p (failed e dev) = failed e (record dev { io = release_prps p ∷ dev.io })
undo_prps p bug = bug

unfoldable pub link_ready : PrepareMem → Device → ℕ → Command → Ready → Prepared
unfolding add_cmd_node undo_prps
link_ready mem dev sqid c (ready c' none) = record {
  command = c';
  run = add_cmd_node mem.node dev sqid c' none;
}
link_ready mem dev sqid c (ready c' (some p)) = record {
  command = c';
  run = undo_prps p (add_cmd_node mem.node dev sqid c' (some p));
}
link_ready mem dev sqid c (not_ready e undone) = record {
  command = c;
  run = failed e (record dev { io = undone ++ dev.io });
}
link_ready mem dev sqid c bug_ready = record { command = c; run = bug }

unfoldable pub prepare_64b_cmd : PrepareMem → Device → UserCmd → Command → Prepared
unfolding need_prp build_prps link_ready
prepare_64b_cmd mem dev u c =
    link_ready mem dev u.sqid c (if need_prp u c then build_prps mem u c else ready c none)
