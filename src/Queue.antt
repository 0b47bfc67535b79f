-- ===== src/Queue.antt =====
-- modules/dnvme/queue.c: how queues come and go. What the kernel's allocators answer is an argument;
-- a null pointer is 0.
pub mod Admin
pub mod Prepare
pub mod Refuse
pub mod Teardown
pub mod Memory
use dnvme.Base.{
  ℕ, ◌+◌, ◌*◌, ◌%◌, ◌^◌, Bool, true, false, ◌&&◌, Option, none, some, List, [], ◌∷◌, ◌++◌, ◌==◌,
  if◌then◌else◌, replicate,
}
use dnvme.Base.Dict.{lookup, insert, erase}
use dnvme.Device.{
  Prps, Command, Completion, Cmd, Cq, Sq, Cmb, Device, Effect, free_p2pmem, free_coherent,
  release_prps, null_access,
}
use dnvme.Phase.{blank}
use dnvme.Irq.{dnvme_delete_icq_node}

-- `struct nvme_prep_sq`.
pub record PrepSq : Type 0 where
  pub elements : ℕ
  pub sq_id : ℕ
  pub cq_id : ℕ
  pub contig : Bool
  pub use_cmb : Bool

-- `struct nvme_prep_cq`.
pub record PrepCq : Type 0 where
  pub elements : ℕ
  pub cq_id : ℕ
  pub cq_irq_en : Bool
  pub cq_irq_no : ℕ
  pub contig : Bool
  pub use_cmb : Bool

-- What the allocators answer to one queue allocation: `kzalloc` of the node, `pci_alloc_p2pmem` and
-- its bus address, `dma_alloc_coherent` and its DMA address, and the `xa_insert` at a free index; and
-- what stands in the user's memory, which backs a queue that is not contiguous.
pub record QueueMem : Type 0 where
  pub node : Bool
  pub p2pmem : ℕ
  pub p2p_bus : ℕ
  pub coherent : ℕ
  pub coherent_dma : ℕ
  pub xa_ok : Bool
  pub user_commands : List Command
  pub user_entries : List Completion

-- A slot after the `memset` of its queue.
abbrev pub blank_command : Command
blank_command = record {
  opcode = 0;
  flags = 0;
  command_id = 0;
  nsid = 0;
  metadata = 0;
  prp1 = 0;
  prp2 = 0;
  cdw10 = 0;
  cdw11 = 0;
  others = [];
}

-- The buffer of a queue, if the allocation went well, and what was given back if not.
pub record Buffer : Type 0 where
  pub buf : ℕ
  pub dma : ℕ
  pub in_cmb : Bool

unfoldable pub cmb_support_sq : Option Cmb → Bool
cmb_support_sq none = false
cmb_support_sq (some cmb) = cmb.sqs

unfoldable pub cmb_support_cq : Option Cmb → Bool
cmb_support_cq none = false
cmb_support_cq (some cmb) = cmb.cqs

-- The part that `dnvme_alloc_sq` and `dnvme_alloc_cq` share: `supported` is the CMB test of each.
unfoldable pub alloc_buffer : QueueMem → Bool → Bool → Bool → ℕ → Option Buffer × List Effect
alloc_buffer mem supported contig use_cmb size =
    if contig
    then if use_cmb
      then if supported
        then if mem.p2pmem == 0
          then (none, [])
          else if mem.p2p_bus == 0
          then (none, free_p2pmem mem.p2pmem size ∷ [])
          else (some (record { buf = mem.p2pmem; dma = mem.p2p_bus; in_cmb = true }), [])
        else (none, [])
      else if mem.coherent == 0
      then (none, [])
      else (some (record { buf = mem.coherent; dma = mem.coherent_dma; in_cmb = false }), [])
    else (some (record { buf = 0; dma = 0; in_cmb = false }), [])

-- `elements << es` in a `u32`.
abbrev pub queue_size : ℕ → ℕ → ℕ
queue_size elements es = elements * 2 ^ es % 4294967296

-- The node that `dnvme_alloc_sq` fills in.
unfoldable pub new_sq : QueueMem → Device → PrepSq → ℕ → Buffer → Sq
new_sq mem dev prep sqes b = record {
  sq_id = prep.sq_id;
  cq_id = prep.cq_id;
  tail_ptr = 0;
  tail_ptr_virt = 0;
  head_ptr = 0;
  elements = prep.elements;
  sqes = sqes;
  cmd_list = [];
  slots = if prep.contig then replicate prep.elements blank_command else mem.user_commands;
  buf = b.buf;
  dma = b.dma;
  size = queue_size prep.elements sqes;
  prps = none;
  db = prep.sq_id * 2 * dev.db_stride;
  next_cid = 0;
  contig = prep.contig;
  created = false;
  use_cmb = b.in_cmb;
}

-- The way a contiguous submission queue gives its memory back.
unfoldable pub free_sq_buffer : Sq → Effect
free_sq_buffer sq =
    if sq.use_cmb then free_p2pmem sq.buf sq.size else free_coherent sq.size sq.buf sq.dma

-- `goto out2` of `dnvme_alloc_sq`.
unfoldable pub undo_sq_buffer : Sq → List Effect
undo_sq_buffer sq = if sq.contig then free_sq_buffer sq ∷ [] else []

-- The `xa_insert` of a filled node, and `goto out2` where it fails.
unfoldable pub insert_sq : Bool → Device → Sq → Option Sq × Device
insert_sq xa_ok dev sq = elim (lookup sq.sq_id dev.sqs) [
  | some _ ↦ (none, record dev { io = undo_sq_buffer sq ++ dev.io })
  | none ↦
      if xa_ok
      then (some sq, record dev { sqs = insert sq.sq_id sq dev.sqs })
      else (none, record dev { io = undo_sq_buffer sq ++ dev.io })
]

unfoldable pub fill_sq :
    QueueMem → Device → PrepSq → ℕ → Option Buffer × List Effect → Option Sq × Device
fill_sq mem dev prep sqes (none, undone) = (none, record dev { io = undone ++ dev.io })
fill_sq mem dev prep sqes (some b, undone) = insert_sq mem.xa_ok dev (new_sq mem dev prep sqes b)

unfoldable pub alloc_sq : QueueMem → Device → PrepSq → ℕ → Option Sq × Device
unfolding fill_sq insert_sq
alloc_sq mem dev prep sqes =
    if mem.node
    then fill_sq mem dev prep sqes (
        alloc_buffer mem (cmb_support_sq dev.cmb) prep.contig prep.use_cmb
          (queue_size prep.elements sqes))
    else (none, dev)

-- `dnvme_release_prps` of a pointer: `dnvme_free_prp_list` reads the pool through it before it tests it.
unfoldable pub release_ptr : Option Prps → List Effect
release_ptr none = null_access ∷ []
release_ptr (some p) = release_prps p ∷ []

-- `dnvme_delete_cmd_list`: what it gives back, the last command first.
unfoldable pub release_cmds : List Cmd → List Effect
release_cmds [] = []
release_cmds (c ∷ cs) = release_cmds cs ++ release_ptr c.prps

unfoldable pub release_sq : Device → Sq → Device
release_sq dev sq = record dev {
  sqs = erase sq.sq_id dev.sqs;
  io =
      (if sq.contig then free_sq_buffer sq ∷ [] else release_ptr sq.prps)
      ++ (release_cmds sq.cmd_list ++ dev.io);
}

unfoldable pub delete_sq : Device → ℕ → Device
delete_sq dev sq_id = elim (lookup sq_id dev.sqs) [ none ↦ dev | some sq ↦ release_sq dev sq ]

-- The node that `dnvme_alloc_cq` fills in.
unfoldable pub new_cq : QueueMem → Device → PrepCq → ℕ → Buffer → Cq
new_cq mem dev prep cqes b = record {
  q_id = prep.cq_id;
  tail_ptr = 0;
  head_ptr = 0;
  elements = prep.elements;
  irq_enabled = prep.cq_irq_en;
  irq_no = prep.cq_irq_no;
  pbit_new_entry = true;
  cqes = cqes;
  slots = if prep.contig then replicate prep.elements blank else mem.user_entries;
  buf = b.buf;
  dma = b.dma;
  size = queue_size prep.elements cqes;
  prps = none;
  db = (prep.cq_id * 2 + 1) * dev.db_stride;
  contig = prep.contig;
  created = false;
  use_cmb = b.in_cmb;
}

-- The way a contiguous completion queue gives its memory back: to `pci_free_p2pmem` the source
-- passes the DMA address where the size belongs.
unfoldable pub free_cq_buffer : Cq → Effect
free_cq_buffer cq =
    if cq.use_cmb then free_p2pmem cq.buf cq.dma else free_coherent cq.size cq.buf cq.dma

unfoldable pub undo_cq_buffer : Cq → List Effect
undo_cq_buffer cq = if cq.contig then free_cq_buffer cq ∷ [] else []

-- The `xa_insert` of a filled node, and `goto out2` where it fails.
unfoldable pub insert_cq : Bool → Device → Cq → Option Cq × Device
insert_cq xa_ok dev cq = elim (lookup cq.q_id dev.cqs) [
  | some _ ↦ (none, record dev { io = undo_cq_buffer cq ++ dev.io })
  | none ↦
      if xa_ok
      then (some cq, record dev { cqs = insert cq.q_id cq dev.cqs })
      else (none, record dev { io = undo_cq_buffer cq ++ dev.io })
]

unfoldable pub fill_cq :
    QueueMem → Device → PrepCq → ℕ → Option Buffer × List Effect → Option Cq × Device
fill_cq mem dev prep cqes (none, undone) = (none, record dev { io = undone ++ dev.io })
fill_cq mem dev prep cqes (some b, undone) = insert_cq mem.xa_ok dev (new_cq mem dev prep cqes b)

unfoldable pub alloc_cq : QueueMem → Device → PrepCq → ℕ → Option Cq × Device
unfolding fill_cq insert_cq
alloc_cq mem dev prep cqes =
    if mem.node
    then fill_cq mem dev prep cqes (
        alloc_buffer mem (cmb_support_cq dev.cmb) prep.contig prep.use_cmb
          (queue_size prep.elements cqes))
    else (none, dev)

unfoldable pub release_cq : Device → Cq → Device
release_cq dev cq = record dev {
  cqs = erase cq.q_id dev.cqs;
  io = (if cq.contig then free_cq_buffer cq ∷ [] else release_ptr cq.prps) ++ dev.io;
}

unfoldable pub delete_cq : Device → ℕ → Device
delete_cq dev cq_id = elim (lookup cq_id dev.cqs) [
  | none ↦ dev
  | some cq ↦
      release_cq (record dev { irq_set = dnvme_delete_icq_node dev.irq_set cq_id cq.irq_no }) cq
]
