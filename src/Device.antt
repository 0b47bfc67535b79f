-- ===== src/Device.antt =====
-- The driver's data: modules/dnvme/core.h and the structures of include/uapi it embeds.
-- Memory that the controller and the host share (queue slots, PRP and SGL pages) is a list of
-- entries, one for each slot; addresses are numbers and 0 is the null pointer. Register writes and
-- calls that give memory back are logged in `io`, newest first.
use dnvme.Base.{ℕ, Bool, Option, List, [], true, false, [], ◌∷◌}
use dnvme.Base.Dict.{Dict}

-- The negative errno that a call returns, without its sign.
pub data Errno : Type 0 where
  einval eexist efault enomem ebadslt ebusy eperm enoent eopnotsupp eio ebadrqc enodev etime
        etimedout emsgsize :
      Errno

pub data Status : Type 0 where
  done : Status
  fail : Errno → Status

-- `enum nvme_state`; the three PCIe resets are answered by the kernel's PCI code.
pub data State : Type 0 where
  enable disable disable_complete subsystem_reset flr_reset hot_reset linkdown_reset : State

-- `struct nvme_sgl_desc`, whose three reserved bytes are never written.
pub record SglDesc : Type 0 where
  pub addr : ℕ
  pub length : ℕ
  pub type : ℕ

-- One element of a mapped scatterlist: `sg_dma_address` and `sg_dma_len`.
pub record Scatter : Type 0 where
  pub dma_address : ℕ
  pub dma_len : ℕ

-- `struct nvme_prps`. The pages of `prp_list` hold PRP entries or SGL descriptors, read by page and
-- by index in the page; `pg_addr` are their DMA addresses.
pub record Prps : Type 0 where
  pub prp_list : ℕ → ℕ → ℕ
  pub sgl_list : ℕ → ℕ → SglDesc
  pub pg_addr : List ℕ
  pub nr_pages : ℕ
  pub nr_entry : ℕ
  pub is_sgl : Bool
  pub buf : ℕ
  pub sg : List Scatter
  pub num_map_pgs : ℕ
  pub data_buf_size : ℕ
  pub data_buf_addr : ℕ

-- `struct nvme_common_command`, the data pointer as its two quadwords.
pub record Command : Type 0 where
  pub opcode : ℕ
  pub flags : ℕ
  pub command_id : ℕ
  pub nsid : ℕ
  pub metadata : ℕ
  pub prp1 : ℕ
  pub prp2 : ℕ
  pub cdw10 : ℕ
  pub cdw11 : ℕ
  pub others : List ℕ

-- What is read behind the slots of a queue.
abbrev pub no_command : Command
no_command = record {
  opcode = 0;
  flags = 0;
  command_id = 0;
  nsid = 0;
  metadata = 0;
  prp1 = 0;
  prp2 = 0;
  cdw10 = 0;
  cdw11 = 0;
  others = [];
}

-- `struct nvme_completion`.
pub record Completion : Type 0 where
  pub result : ℕ
  pub sq_head : ℕ
  pub sq_id : ℕ
  pub command_id : ℕ
  pub status : ℕ

-- `struct nvme_cmd`, a command that waits for its completion.
pub record Cmd : Type 0 where
  pub cid : ℕ
  pub sqid : ℕ
  pub target_qid : ℕ
  pub idx : ℕ
  pub opcode : ℕ
  pub prps : Option Prps

-- `struct nvme_cq` with its `nvme_cq_public`. The phase bit is only ever set to 1 or inverted.
pub record Cq : Type 0 where
  pub q_id : ℕ
  pub tail_ptr : ℕ
  pub head_ptr : ℕ
  pub elements : ℕ
  pub irq_enabled : Bool
  pub irq_no : ℕ
  pub pbit_new_entry : Bool
  pub cqes : ℕ
  pub slots : List Completion
  pub buf : ℕ
  pub dma : ℕ
  pub size : ℕ
  pub prps : Option Prps
  pub db : ℕ
  pub contig : Bool
  pub created : Bool
  pub use_cmb : Bool

-- `struct nvme_sq` with its `nvme_sq_public`.
pub record Sq : Type 0 where
  pub sq_id : ℕ
  pub cq_id : ℕ
  pub tail_ptr : ℕ
  pub tail_ptr_virt : ℕ
  pub head_ptr : ℕ
  pub elements : ℕ
  pub sqes : ℕ
  pub cmd_list : List Cmd
  pub slots : List Command
  pub buf : ℕ
  pub dma : ℕ
  pub size : ℕ
  pub prps : Option Prps
  pub db : ℕ
  pub next_cid : ℕ
  pub contig : Bool
  pub created : Bool
  pub use_cmb : Bool

-- `struct nvme_irq`; the `nvme_icq` nodes of its list are their CQ identifiers.
pub record Irq : Type 0 where
  pub icq_list : List ℕ
  pub irq_id : ℕ
  pub int_vec : ℕ
  pub isr_fired : Bool
  pub isr_count : ℕ

-- `struct nvme_work`.
pub record Work : Type 0 where
  pub irq_id : ℕ
  pub int_vec : ℕ

-- `enum nvme_irq_type`.
pub data IrqType : Type 0 where
  msi_single msi_multi msix pin int_none : IrqType

-- `struct nvme_irq_set`; of the work queue whether it exists, and the ids of the work items on it.
pub record IrqSet : Type 0 where
  pub irq_list : List Irq
  pub work_list : List Work
  pub irq_type : IrqType
  pub nr_irq : ℕ
  pub wq : Bool
  pub queued : List ℕ

-- `struct nvme_meta`.
pub record Meta : Type 0 where
  pub id : ℕ
  pub buf : ℕ
  pub dma : ℕ
  pub size : ℕ
  pub prps : Option Prps
  pub contig : Bool

-- `struct nvme_cmb`.
pub record Cmb : Type 0 where
  pub bar : ℕ
  pub res_addr : ℕ
  pub bus_addr : ℕ
  pub size : ℕ
  pub offset : ℕ
  pub sqs : Bool
  pub cqs : Bool
  pub lists : Bool
  pub rds : Bool
  pub wds : Bool
  pub cqmms : Bool
  pub cqpds : Bool
  pub cdpmls : Bool
  pub cdpcils : Bool
  pub cdmmms : Bool
  pub cqda : Bool

-- `struct nvme_pmr`.
pub record Pmr : Type 0 where
  pub bir : ℕ
  pub timeout : ℕ
  pub res_addr : ℕ
  pub bus_addr : ℕ
  pub size : ℕ
  pub cmss : Bool

-- `struct nvme_hmb_buffer`.
pub record HmbBuffer : Type 0 where
  pub virt_addr : ℕ
  pub phy_addr : ℕ
  pub size : ℕ

-- `struct nvme_feat_hmb_descriptor`.
pub record HmbDesc : Type 0 where
  pub addr : ℕ
  pub size : ℕ

-- `struct nvme_hmb`, with the descriptors that stand in the page at `desc`.
pub record Hmb : Type 0 where
  pub desc : ℕ
  pub desc_addr : ℕ
  pub desc_size : ℕ
  pub desc_num : ℕ
  pub descs : List HmbDesc
  pub buf : List HmbBuffer

-- What the driver does to the outside: registers of BAR0 by offset, doorbells by index, and the
-- release of DMA memory.
pub data Effect : Type 0 where
  write_reg : ℕ → ℕ → Effect
  write_db : ℕ → ℕ → Effect
  mask_vector : ℕ → Effect
  unmask_vector : ℕ → Effect
  free_p2pmem : ℕ → ℕ → Effect
  free_coherent : ℕ → ℕ → ℕ → Effect
  release_prps : Prps → Effect
  unmap_user_page : Prps → Effect
  request_irq : ℕ → Effect
  free_irq : ℕ → Effect
  disable_msix : Effect
  enable_msi : Effect
  disable_msi : Effect
  enable_int_pin : Effect
  disable_int_pin : Effect
  add_p2pdma : ℕ → ℕ → ℕ → Effect
  publish_p2pmem : Effect
  null_access : Effect
  wild_free : Effect

-- Whether no access through a null pointer (`null_access`) and no `kfree` of an uninitialised pointer
-- (`wild_free`) is in a log. What a call does behind one is undefined; the model goes on with the
-- lines that follow.
unfoldable pub is_sound : List Effect → Bool
is_sound [] = true
is_sound (null_access ∷ io) = false
is_sound (wild_free ∷ io) = false
is_sound (e ∷ io) = is_sound io

-- `struct nvme_device`.
pub record Device : Type 0 where
  pub sqs : Dict Sq
  pub cqs : Dict Cq
  pub metas : Dict Meta
  pub irq_set : IrqSet
  pub hmb : Option Hmb
  pub cmb : Option Cmb
  pub pmr : Option Pmr
  pub reg_cap : ℕ
  pub q_depth : ℕ
  pub db_stride : ℕ
  pub io : List Effect
