-- ===== src/Meta.antt =====
-- modules/dnvme/meta.c: meta buffers, contiguous or described by SGL segments. What the kernel
-- answers is an argument; the contents of a buffer are not read by the driver and are left out.
pub mod Chain
pub mod Life
use dnvme.Base.{
  ℕ, zero, suc, ◌+◌, ◌-◌, ◌*◌, ◌%◌, Bool, true, false, not, ◌&&◌, Option, none, some, List, [], ◌∷◌,
  ◌++◌, ◌==◌, leb, if◌then◌else◌, ◌⊎◌, inl, inr, get_or, length, take,
}
use dnvme.Base.Dict.{Dict, lookup, insert, erase}
use dnvme.Device.{
  Errno, einval, efault, eexist, enomem, Status, done, fail, SglDesc, Scatter, Prps, Meta, Device,
  Effect, free_coherent, unmap_user_page,
}
use dnvme.Prp.{page_size, div_round_up}
use dnvme.Sgl.{SglMem, blank_desc, write_sgl, sgl_set_data, sgl_set_seg, first_data}
use dnvme.Queue.{release_ptr}

-- `struct nvme_meta_create`; `buf` is 0 for a null pointer.
pub record MetaCreate : Type 0 where
  pub id : ℕ
  pub size : ℕ
  pub contig : Bool
  pub buf : ℕ

-- What the kernel answers: the copy from the user, the node, the coherent memory and its DMA
-- address, the PRPs, the mapped scatterlist with the number of its pages, or an error, the two
-- arrays of `dnvme_meta_setup_sgl`, the pages that its pool has, and `xa_insert`.
pub record MetaMem : Type 0 where
  pub copy_in : Bool
  pub node : Bool
  pub coherent : ℕ
  pub coherent_dma : ℕ
  pub prps : Bool
  pub mapped : Errno ⊎ (List Scatter × ℕ × ℕ)
  pub arrays : Bool
  pub pool : List ℕ
  pub stored : Status

-- The `for` loop of `dnvme_meta_setup_sgl`: `n` descriptors to go, at slot `k` of page `j`. `none` is
-- a walk off the end of the scatterlist.
unfoldable pub fill_meta : ℕ → List ℕ → ℕ → ℕ → ℕ → List Scatter → SglMem → Option SglMem
fill_meta zero dma j k n sg mem = none
fill_meta (suc fuel) dma j k zero sg mem = some mem
fill_meta (suc fuel) dma j k (suc n) [] mem =
    let linked =
      fill_meta fuel dma (j + 1) 0 (suc n) []
        (write_sgl mem j k (sgl_set_seg (get_or dma (j + 1) 0) (suc n))) in
    if k == 255 then linked else none
fill_meta (suc fuel) dma j k (suc n) (s ∷ ss) mem =
    let linked =
      fill_meta fuel dma (j + 1) 0 (suc n) (s ∷ ss)
        (write_sgl mem j k (sgl_set_seg (get_or dma (j + 1) 0) (suc n))) in
    let next =
      fill_meta fuel dma j (k + 1) n ss
        (write_sgl mem j k (sgl_set_data s.dma_address s.dma_len)) in
    if k == 255 then linked else next

-- One page for a single descriptor, else a first page that holds the descriptor of the first segment
-- alone, and the segments.
unfoldable pub nr_meta_segments : ℕ → ℕ
nr_meta_segments nr_desc =
    if nr_desc == 1 then 1 else div_round_up (16 * nr_desc) (page_size - 16) + 1

pub data MetaSetup : Type 0 where
  setup_error : Errno → MetaSetup
  setup_crash : MetaSetup
  set_up : SglMem → List ℕ → MetaSetup

unfoldable pub filled_segments : List ℕ → Option SglMem → MetaSetup
filled_segments dma none = setup_crash
filled_segments dma (some mem) = set_up mem dma

-- The pages before the loop: the first descriptor stands in page 0.
abbrev pub first_page : SglDesc → SglMem
first_page d = write_sgl (λ _ _. blank_desc) 0 0 d

unfoldable pub meta_setup_sgl : Bool → List ℕ → List Scatter → ℕ → MetaSetup
unfolding nr_meta_segments filled_segments
meta_setup_sgl arrays pool sg nr_desc =
    let dma = take (nr_meta_segments nr_desc) pool in
    if not (arrays && leb (nr_meta_segments nr_desc) (length pool))
    then setup_error enomem
    else if nr_desc == 1
    then set_up (first_page (first_data sg)) dma
    else filled_segments dma (
        fill_meta (2 * nr_desc + 1) dma 1 0 nr_desc sg
          (first_page (sgl_set_seg (get_or dma 1 0) nr_desc)))

-- The PRPs before and after the segments are made; the source sets neither `is_sgl` nor `nr_entry`.
abbrev pub meta_prps : MetaCreate → List Scatter → ℕ → ℕ → Prps
meta_prps mc sg nr_map kva = record {
  prp_list = λ _ _. 0;
  sgl_list = λ _ _. blank_desc;
  pg_addr = [];
  nr_pages = 0;
  nr_entry = 0;
  is_sgl = false;
  buf = kva;
  sg = sg;
  num_map_pgs = nr_map;
  data_buf_size = mc.size;
  data_buf_addr = mc.buf;
}

-- How `dnvme_meta_prepare_sgl` ends, with what it has undone.
pub data PreparedSgl : Type 0 where
  sgl_failed : Errno → List Effect → PreparedSgl
  sgl_crashed : PreparedSgl
  sgl_ready : Prps → PreparedSgl

unfoldable pub ready_meta : Prps → MetaSetup → PreparedSgl
ready_meta p (setup_error e) = sgl_failed e (unmap_user_page p ∷ [])
ready_meta p setup_crash = sgl_crashed
ready_meta p (set_up mem dma) =
    sgl_ready (record p { sgl_list = mem; pg_addr = dma; nr_pages = length dma })

-- The checks that `dnvme_map_user_page` makes before it asks the kernel.
unfoldable pub meta_mappable : MetaCreate → Bool
meta_mappable mc = not (mc.buf == 0) && (mc.buf % 4 == 0) && not (mc.size == 0)

unfoldable pub meta_prepare_sgl : MetaMem → MetaCreate → PreparedSgl
unfolding meta_mappable meta_setup_sgl ready_meta
meta_prepare_sgl mem mc =
    if mem.prps
    then if meta_mappable mc
      then elim mem.mapped [
        | inl e ↦ sgl_failed e []
        | inr (sg, nr_map, kva) ↦
            ready_meta (meta_prps mc sg nr_map kva) (meta_setup_sgl mem.arrays mem.pool sg nr_map)
      ]
      else sgl_failed einval []
    else sgl_failed enomem []

-- How `dnvme_create_meta_node` ends; `meta_bug` is a null pointer met on the way.
pub data MetaRun : Type 0 where
  created : Device → MetaRun
  refused : Errno → Device → MetaRun
  meta_bug : MetaRun

-- How a node gives its memory back.
unfoldable pub free_meta : Meta → List Effect
unfolding release_ptr
free_meta m = if m.contig then free_coherent m.size m.buf m.dma ∷ [] else release_ptr m.prps

unfoldable pub store_meta : Status → Device → Meta → MetaRun
unfolding free_meta
store_meta done dev m = created (record dev { metas = insert m.id m dev.metas })
store_meta (fail e) dev m = refused e (record dev { io = free_meta m ++ dev.io })

abbrev pub contig_meta : MetaMem → MetaCreate → Meta
contig_meta mem mc = record {
  id = mc.id;
  buf = mem.coherent;
  dma = mem.coherent_dma;
  size = mc.size;
  prps = none;
  contig = true;
}

abbrev pub sgl_meta : MetaCreate → Prps → Meta
sgl_meta mc p = record {
  id = mc.id;
  buf = 0;
  dma = 0;
  size = mc.size;
  prps = some p;
  contig = false;
}

unfoldable pub store_sgl : Status → Device → MetaCreate → PreparedSgl → MetaRun
unfolding store_meta
store_sgl stored dev mc (sgl_failed e undone) = refused e (record dev { io = undone ++ dev.io })
store_sgl stored dev mc sgl_crashed = meta_bug
store_sgl stored dev mc (sgl_ready p) = store_meta stored dev (sgl_meta mc p)

-- From the node that has been allocated on.
unfoldable pub fill_node : MetaMem → Device → MetaCreate → MetaRun
unfolding store_meta store_sgl meta_prepare_sgl
fill_node mem dev mc =
    if mc.contig
    then if mem.coherent == 0
      then refused enomem dev
      else store_meta mem.stored dev (contig_meta mem mc)
    else store_sgl mem.stored dev mc (meta_prepare_sgl mem mc)

unfoldable pub create_meta_node : MetaMem → Device → MetaCreate → MetaRun
unfolding fill_node
create_meta_node mem dev mc =
    if not mem.copy_in
    then refused efault dev
    else if not mc.contig && (mc.buf == 0)
    then refused einval dev
    else elim (lookup mc.id dev.metas) [
      | some _ ↦ refused eexist dev
      | none ↦ if mem.node then fill_node mem dev mc else refused enomem dev
    ]

unfoldable pub delete_meta_node : Device → Meta → Device
unfolding free_meta
delete_meta_node dev m = record dev { metas = erase m.id dev.metas; io = free_meta m ++ dev.io }

-- The loop, over the entries as they stand when it starts.
unfoldable pub delete_metas : Dict Meta → Device → Device
delete_metas [] dev = dev
delete_metas ((i, m) ∷ ms) dev = delete_metas ms (delete_meta_node dev m)

unfoldable pub delete_meta_nodes : Device → Device
unfolding delete_metas
delete_meta_nodes dev = delete_metas dev.metas dev

unfoldable pub delete_meta_id : Device → ℕ → Device
unfolding delete_meta_node
delete_meta_id dev id = elim (lookup id dev.metas) [ none ↦ dev | some m ↦ delete_meta_node dev m ]
