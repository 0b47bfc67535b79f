-- ===== src/Tests/Control.antt =====
-- The theorems on schemes, meta buffers, the host memory buffer and the controller, at small inputs.
use dnvme.Base.{
  ℕ, ◌+◌, ◌*◌, ◌≡◌, refl, true, false, none, some, [], ◌∷◌, inl, ◌==◌, if◌then◌else◌, arith, List,
  take,
}
use dnvme.Base.Dict.{lookup}
use dnvme.Device.{is_sound, enomem, done, fail, einval, Scatter, IrqSet, msix, int_none}
use dnvme.Irq.{PairAlloc}
use dnvme.Irq.Check.{
  Interrupt, CapMsix, IrqHw, MsixPtr, init_msix_ptr, check_msix, check_table, check_scheme,
  check_interrupt,
}
use dnvme.Irq.Limits.{Fits, check_interrupt-Fits}
use dnvme.Irq.Setup.{set_int_msix, request_irqs, free_irqs}
use dnvme.Irq.Scheme.{SchemeMem, set_interrupt}
use dnvme.Irq.Change.{Changed, IsCleared, set_interrupt-Changed}
use dnvme.Irq.Reach.{IsNumbered, start, later, change, Reach-IsNumbered}
use dnvme.Cmd.Direct.{DirectReq}
use dnvme.Sgl.{SglMem}
use dnvme.Meta.{MetaCreate, MetaMem, nr_meta_segments, meta_setup_sgl, set_up}
use dnvme.Meta.Chain.{IsLaidOut, meta_setup_sgl-IsLaidOut}
use dnvme.Hmb.{HmbAlloc, HmbMem, alloc_hmb}
use dnvme.Hmb.Life.{Allocates, alloc_hmb-Allocates}
use dnvme.Ctrl.{Wait, wait_loop}
use dnvme.Ctrl.Ready.{IsOver, wait_loop-ends}
use dnvme.Access.Write.{generic_write}
use dnvme.Mmap.{
  MmapMem, mmap, mmap_parse_vmpgoff, map_area, remapped, cq_area, vmpgoff_to_type, vmpgoff_id,
  IsWithin, mmap-IsWithin,
}
use dnvme.Access.{
  Access, Space, bar0_bar1, pci_config, access_dword, access_qword, check_access_align,
  generic_read, read_region, read_from_bar, loop_of, read_loop, put_in_front, bar_width, to_user,
  read_at,
}
use dnvme.Access.Range.{generic_read-IsRange}
use dnvme.Tests.Data.{device, two_irqs}

abbrev all_pairs : PairAlloc
all_pairs = record { irq_ok = true; work_ok = true; icq_ok = true }

-- The third vector cannot be requested.
abbrev scheme_mem : SchemeMem
scheme_mem = record {
  copy_in = true;
  wq = true;
  msi = done;
  irq = 11;
  entry_vec = λ k. 41 + k;
  answers = record {
    entries = true;
    enable = true;
    request = λ i. if i == 2 then fail enomem else done;
    pair = λ _. all_pairs;
    pending = false;
  };
}

abbrev table_in_bar0 : CapMsix
table_in_bar0 = record { offset = 176; mc = 7; table = 8192; pba = 12288 }

abbrev irq_hw : IrqHw
irq_hw = record {
  cc = 0;
  msi = none;
  msi_mc_ret = done;
  msi_mc = 0;
  msix = some table_in_bar0;
  bar0 = 65536;
}

abbrev no_ptr : MsixPtr
no_ptr = record { irqs = 0; tb = 0; pba = 0 }

abbrev eight_ptr : MsixPtr
eight_ptr = record { irqs = 8; tb = 73728; pba = 77824 }

abbrev two_msix : Interrupt
two_msix = record { irq_type = some msix; num_irqs = 2 }

abbrev three_msix : Interrupt
three_msix = record { irq_type = some msix; num_irqs = 3 }

set_interrupt-Changed_example :
    Changed scheme_mem
      (some msix)
      3
      two_irqs
      (set_interrupt scheme_mem irq_hw three_msix no_ptr two_irqs []).0
unfolding set_interrupt is_sound set_int_msix request_irqs free_irqs
set_interrupt-Changed_example =
    set_interrupt-Changed scheme_mem irq_hw three_msix no_ptr two_irqs [] (λ a b lt. ground arith)
      (λ e. cc) refl

abbrev cleared : IrqSet
cleared = record {
  irq_list = [];
  work_list = [];
  irq_type = int_none;
  nr_irq = 0;
  wq = false;
  queued = [];
}

cleared-IsCleared : IsCleared cleared
cleared-IsCleared = record { bare = record { irqs = refl; works = refl }; inactive = refl }

Reach-IsNumbered_example :
    IsNumbered (set_interrupt scheme_mem irq_hw two_msix no_ptr cleared []).0.1
Reach-IsNumbered_example = Reach-IsNumbered (
    later (start cleared cleared-IsCleared)
      (change scheme_mem irq_hw two_msix no_ptr [] (λ a b lt. ground arith)))

check_interrupt-Fits_example : (irq_hw.cc ≡ 0) × Fits irq_hw (some msix) 3 (done, eight_ptr)
unfolding check_interrupt check_scheme check_msix check_table init_msix_ptr
check_interrupt-Fits_example = check_interrupt-Fits irq_hw three_msix no_ptr eight_ptr refl

-- Room for two entries, of which the second cannot be copied.
abbrev two_wanted : DirectReq
two_wanted = record { expect = 2; buf = 4096; size = 32; copies = λ n. n == 2 }

abbrev meta_mem : MetaMem
meta_mem = record {
  copy_in = true;
  node = true;
  coherent = 8192;
  coherent_dma = 16384;
  prps = true;
  mapped = inl enomem;
  arrays = true;
  pool = [];
  stored = done;
}

abbrev contig_request : MetaCreate
contig_request = record { id = 5; size = 4096; contig = true; buf = 0 }

abbrev two_elements : List Scatter
two_elements =
    record { dma_address = 4096; dma_len = 4096 }
    ∷ record { dma_address = 16384; dma_len = 4096 }
    ∷ []

abbrev three_pool_pages : List ℕ
three_pool_pages = 32768 ∷ 36864 ∷ 40960 ∷ []

meta_setup_sgl-IsLaidOut_example :
    (mem : SglMem) × (meta_setup_sgl true three_pool_pages two_elements 2
      ≡ set_up mem (take (nr_meta_segments 2) three_pool_pages))
    × IsLaidOut two_elements (take (nr_meta_segments 2) three_pool_pages) mem
unfolding nr_meta_segments
meta_setup_sgl-IsLaidOut_example =
    meta_setup_sgl-IsLaidOut three_pool_pages two_elements (omega arith)
      (omega arith, (omega arith, tt)) (omega arith)

abbrev hmb_mem : HmbMem
hmb_mem = record {
  copy_head = true;
  copy = true;
  copy_all = true;
  node = true;
  buffer = λ i. (4096 + i * 4096, 65536 + i * 4096);
  desc = 131072;
  desc_dma = 196608;
  copy_out = true;
}

abbrev two_buffers : HmbAlloc
two_buffers = record { page_size = 4096; nr_desc = 2; bsize = 1 ∷ 1 ∷ [] }

alloc_hmb-Allocates_example :
    Allocates hmb_mem device two_buffers (alloc_hmb hmb_mem device two_buffers two_buffers)
alloc_hmb-Allocates_example = alloc_hmb-Allocates hmb_mem device two_buffers two_buffers

abbrev no_desc : HmbMem
no_desc = record hmb_mem { desc = 0 }

-- Ready at the fourth read; the time is up at the fifth.
abbrev slow_ready : Wait
slow_ready = record { csts = λ i. if i == 3 then 1 else 0; late = λ i. i == 4 }

wait_loop-ends_example : IsOver slow_ready true 0 4 (wait_loop 5 slow_ready true 0)
wait_loop-ends_example = wait_loop-ends slow_ready true 4 refl

abbrev mmap_mem : MmapMem
mmap_mem = record { virt_to_phys = λ kva. kva + 1048576; remap = done }

mmap-IsWithin_example : IsWithin mmap_mem device 1 257 4096
unfolding mmap mmap_parse_vmpgoff map_area remapped cq_area vmpgoff_to_type vmpgoff_id lookup
mmap-IsWithin_example = mmap-IsWithin mmap_mem device 1 4096 257 4096 refl

abbrev registers : Space
registers = record { config = λ _. 0; config_ret = λ _. done; bar = λ at. at * 2 }

abbrev two_dwords : Access
two_dwords = record { region = some bar0_bar1; type = some access_dword; bytes = 8; offset = 20 }

generic_read-IsRange_example :
    40 ∷ 42 ∷ 44 ∷ 46 ∷ 48 ∷ 50 ∷ 52 ∷ 54 ∷ [] ≡ read_at registers.bar 20 8
unfolding generic_read check_access_align read_region read_from_bar loop_of read_loop put_in_front
    bar_width to_user
generic_read-IsRange_example =
    generic_read-IsRange true true true registers two_dwords
      (40 ∷ 42 ∷ 44 ∷ 46 ∷ 48 ∷ 50 ∷ 52 ∷ 54 ∷ []) (omega arith) (omega arith) refl

-- Two dwords to BAR0, and a write of quadwords to configuration space.
bar_writes :
    generic_write true true true
      (λ _. done)
      (record { region = some bar0_bar1; type = some access_dword; bytes = 8; offset = 20 })
      (1 ∷ 2 ∷ 3 ∷ 4 ∷ 5 ∷ 6 ∷ 7 ∷ 8 ∷ [])
    ≡ (
      done,
      record { at = 20; bytes = 1 ∷ 2 ∷ 3 ∷ 4 ∷ [] }
          ∷ record { at = 24; bytes = 5 ∷ 6 ∷ 7 ∷ 8 ∷ [] }
          ∷ [],
    )
unfolding generic_write
bar_writes = refl

config_refuses :
    generic_write true true true
      (λ _. done)
      (record { region = some pci_config; type = some access_qword; bytes = 8; offset = 16 })
      (1 ∷ 2 ∷ 3 ∷ 4 ∷ 5 ∷ 6 ∷ 7 ∷ 8 ∷ [])
    ≡ (fail einval, [])
unfolding generic_write
config_refuses = refl
