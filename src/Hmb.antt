-- ===== src/Hmb.antt =====
-- modules/dnvme/ioctl.c: the host memory buffer. The request is copied from the user twice, its head
-- alone and then the whole; each copy is an argument. The log lists what is given back.
pub mod Life
use dnvme.Base.{
  ℕ, zero, suc, ◌*◌, ◌%◌, Bool, not, Option, none, some, List, [], ◌∷◌, ◌++◌, ◌==◌, ltb,
  if◌then◌else◌, get_elem?,
}
use dnvme.Device.{
  Errno, einval, efault, enomem, eperm, Device, Hmb, HmbBuffer, HmbDesc, Effect, free_coherent,
  wild_free,
}
use dnvme.Prp.{page_size}

-- `struct nvme_hmb_alloc`; `bsize` holds the entries that the copy has room for.
pub record HmbAlloc : Type 0 where
  pub page_size : ℕ
  pub nr_desc : ℕ
  pub bsize : List ℕ

-- What the kernel answers: the two copies from the user and the memory for the second, the node, the
-- memory of each buffer with its DMA address, that of the descriptors, and the copy to the user.
pub record HmbMem : Type 0 where
  pub copy_head : Bool
  pub copy : Bool
  pub copy_all : Bool
  pub node : Bool
  pub buffer : ℕ → ℕ × ℕ
  pub desc : ℕ
  pub desc_dma : ℕ
  pub copy_out : Bool

-- How the loop over the buffers ends: with all of them, without memory for one, or with a read behind
-- the copy of the request.
pub data Buffers : Type 0 where
  got : List HmbBuffer → Buffers
  no_memory : List HmbBuffer → Buffers
  overrun : Buffers

-- `need->page_size * need->bsize[i]`, a product of two `uint32_t`.
abbrev pub buffer_size : ℕ → ℕ → ℕ
buffer_size page_size pages = page_size * pages % 4294967296

-- A buffer in front of those that the rest of the loop gets.
unfoldable pub with_buffer : HmbBuffer → Buffers → Buffers
with_buffer b (got bs) = got (b ∷ bs)
with_buffer b (no_memory bs) = no_memory (b ∷ bs)
with_buffer b overrun = overrun

abbrev pub new_buffer : ℕ × ℕ → ℕ → ℕ → HmbBuffer
new_buffer memory page pages = record {
  virt_addr = memory.0;
  phy_addr = memory.1;
  size = buffer_size page pages;
}

-- The `for` loop of `dnvme_alloc_hmb_buffer`: `n` buffers to go, from number `i` on.
unfoldable pub alloc_hmb_buffer : (ℕ → ℕ × ℕ) → ℕ → List ℕ → ℕ → ℕ → Buffers
unfolding with_buffer
alloc_hmb_buffer memory page bsize zero i = got []
alloc_hmb_buffer memory page bsize (suc n) i =
    let further = alloc_hmb_buffer memory page bsize n (suc i) in
    elim (get_elem? bsize i) [
      | none ↦ overrun
      | some pages ↦
          if (memory i).0 == 0
          then no_memory []
          else with_buffer (new_buffer (memory i) page pages) further
    ]

abbrev pub free_buffer : HmbBuffer → Effect
free_buffer b = free_coherent b.size b.virt_addr b.phy_addr

-- `for (i--; i >= 0; i--)`, the last buffer first.
unfoldable pub undo_buffers : List HmbBuffer → List Effect
undo_buffers [] = []
undo_buffers (b ∷ bs) = free_buffer b ∷ undo_buffers bs

-- `dnvme_release_hmb_buffer`, over `desc_num` buffers.
unfoldable pub release_hmb_buffer : ℕ → List HmbBuffer → List Effect → List Effect
release_hmb_buffer zero bs io = io
release_hmb_buffer (suc n) [] io = io
release_hmb_buffer (suc n) (b ∷ bs) io = release_hmb_buffer n bs (free_buffer b ∷ io)

-- `dnvme_fill_hmb_descriptor`; the size is stored in 32 bits.
unfoldable pub fill_hmb_descriptor : ℕ → List HmbBuffer → List HmbDesc
fill_hmb_descriptor zero bs = []
fill_hmb_descriptor (suc n) [] = []
fill_hmb_descriptor (suc n) (b ∷ bs) =
    record { addr = b.phy_addr; size = b.size % 4294967296 } ∷ fill_hmb_descriptor n bs

pub data HmbRun : Type 0 where
  allocated : Device → HmbRun
  refused : Errno → Device → HmbRun
  overread : HmbRun

-- The node after `kzalloc` and the loop over the buffers; `desc_num` is not set yet.
abbrev pub bare_hmb : List HmbBuffer → Hmb
bare_hmb bs = record { desc = 0; desc_addr = 0; desc_size = 0; desc_num = 0; descs = []; buf = bs }

-- `dnvme_alloc_hmb_desc` and `dnvme_fill_hmb_descriptor`.
abbrev pub described_hmb : HmbMem → ℕ → List HmbBuffer → Hmb
described_hmb mem nr_desc bs = record (bare_hmb bs) {
  desc = mem.desc;
  desc_addr = mem.desc_dma;
  desc_size = page_size;
  desc_num = nr_desc;
  descs = fill_hmb_descriptor nr_desc bs;
}

abbrev pub free_desc : Hmb → Effect
free_desc h = free_coherent h.desc_size h.desc h.desc_addr

-- From `dnvme_alloc_hmb_buffer` on: the labels `free_hmb`, `free_hmb_buf` and `free_hmb_desc`.
unfoldable pub finish_hmb : HmbMem → Device → HmbAlloc → Buffers → HmbRun
unfolding undo_buffers release_hmb_buffer fill_hmb_descriptor
finish_hmb mem dev need overrun = overread
finish_hmb mem dev need (no_memory bs) =
    refused enomem (record dev { io = undo_buffers bs ++ dev.io })
finish_hmb mem dev need (got bs) =
    let h = described_hmb mem need.nr_desc bs in
    if mem.desc == 0
    then refused enomem (record dev { io = release_hmb_buffer (bare_hmb bs).desc_num bs dev.io })
    else if mem.copy_out
    then allocated (record dev { hmb = some h })
    else refused efault
        (record dev { io = release_hmb_buffer h.desc_num bs (free_desc h ∷ dev.io) })

-- What `dnvme_alloc_hmb` tests before it allocates anything; 256 descriptors fill a page.
unfoldable pub check_hmb : HmbMem → Device → HmbAlloc → Option Errno
check_hmb mem dev head = elim dev.hmb [
  | some _ ↦ some eperm
  | none ↦
      if not mem.copy_head
      then some efault
      else if head.page_size == 0
      then some einval
      else if ltb 256 head.nr_desc
      then some einval
      else none
]

unfoldable pub alloc_hmb : HmbMem → Device → HmbAlloc → HmbAlloc → HmbRun
unfolding check_hmb alloc_hmb_buffer finish_hmb
alloc_hmb mem dev head need = elim (check_hmb mem dev head) [
  | some e ↦ refused e dev
  | none ↦
      if not mem.copy
      then refused enomem dev
      else if not mem.copy_all
      then refused efault dev
      else if not mem.node
      then refused enomem dev
      else finish_hmb mem dev need
          (alloc_hmb_buffer mem.buffer need.page_size need.bsize need.nr_desc 0)
]

-- The `kfree` behind the buffers is of a local that is not set, and the node stays allocated.
unfoldable pub release_hmb : Device → Device
unfolding release_hmb_buffer
release_hmb dev = elim dev.hmb [
  | none ↦ dev
  | some h ↦ record dev {
    hmb = none;
    io = wild_free ∷ release_hmb_buffer h.desc_num h.buf (free_desc h ∷ dev.io);
  }
]
