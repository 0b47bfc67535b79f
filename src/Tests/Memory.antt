-- ===== src/Tests/Memory.antt =====
-- The theorems on queue memory and on PRP lists at concrete requests.
use dnvme.Base.{ℕ, ◌≡◌, refl, true, false, [], ◌∷◌, ◌++◌, arith}
use dnvme.Base.Dict.{lookup, insert}
use dnvme.Device.{is_sound, einval, Device, Sq}
use dnvme.Prp.{Cursor, PrpMem, fill_prps, filled, advance}
use dnvme.Prp.Layout.{IsLaid}
use dnvme.Prp.Fill.{page_addrs, fill_prps-IsLaid}
use dnvme.Queue.{
  QueueMem, alloc_sq, alloc_cq, release_sq, release_cq, free_cq_buffer, release_ptr, new_sq, new_cq,
  alloc_buffer, cmb_support_sq, cmb_support_cq,
}
use dnvme.Queue.Admin.{check_qid_unique}
use dnvme.Queue.Prepare.{prepare_cq, prepared_cq, track_cq, cap_cqr}
use dnvme.Irq.{dnvme_create_icq_node, find_irq_node_by_id}
use dnvme.Queue.Refuse.{IsSame, prepare_cq-IsSame}
use dnvme.Queue.Memory.{sq_memory, alloc_sq-gives_back, alloc_sq-release_sq}
use dnvme.Prp.{PrpAlloc, PrpList, set_up, setup_list}
use dnvme.Prp.Pages.{IsList, setup_list-IsList}
use dnvme.Sgl.{DescEntry, SglMem, blank_desc, fill_sgl, nr_sgl_segments}
use dnvme.Sgl.Segments.{IsSegmented}
use dnvme.Sgl.Chain.{fill_sgl-IsSegmented}
use dnvme.Base.{◌<◌, ◌/◌, some, List}
use dnvme.Tests.Data.{two_commands, device, kernel_memory, second_sq, second_cq}

-- Two whole pages and a part, in two elements.
abbrev three_pages : Cursor
three_pages = record {
  dma_addr = 4096;
  dma_len = 8192;
  rest = record { dma_address = 40960; dma_len = 100 } ∷ [];
}

fill_prps-IsLaid_example :
    (mem : PrpMem) × (fill_prps 7 (77824 ∷ []) 0 0 0 8292 0 three_pages (λ j k. 0) ≡ filled mem 3)
    × IsLaid (77824 ∷ []) (4096 ∷ 8192 ∷ 40960 ∷ []) 0 0 (λ j k. 0) mem
unfolding page_addrs advance
fill_prps-IsLaid_example =
    fill_prps-IsLaid 2 8292 (77824 ∷ []) three_pages (4096 ∷ 8192 ∷ 40960 ∷ []) (λ j k. 0)
      (omega arith) (omega arith) refl

-- The controller's memory has an address for the processor and none on the bus.
abbrev no_bus : QueueMem
no_bus = record kernel_memory { p2p_bus = 0 }

alloc_sq-gives_back_example :
    (alloc_sq no_bus device second_sq 6).1
    ≡ record device { io = sq_memory no_bus device second_sq 6 ++ [] }
unfolding alloc_sq alloc_buffer cmb_support_sq
alloc_sq-gives_back_example = alloc_sq-gives_back no_bus device second_sq 6 refl refl

abbrev sq_in_cmb : Sq
sq_in_cmb =
    new_sq kernel_memory device second_sq 6 (record { buf = 20480; dma = 24576; in_cmb = true })

abbrev with_sq : Device
with_sq = record device { sqs = insert 2 sq_in_cmb device.sqs }

alloc_sq-release_sq_example :
    ((j : ℕ) → lookup j (release_sq with_sq sq_in_cmb).sqs ≡ lookup j device.sqs)
    × ((release_sq with_sq sq_in_cmb).io ≡ sq_memory kernel_memory device second_sq 6 ++ [])
unfolding alloc_sq alloc_buffer cmb_support_sq lookup insert new_sq
alloc_sq-release_sq_example =
    alloc_sq-release_sq kernel_memory device second_sq 6 {sq = sq_in_cmb} {dev' = with_sq} refl refl

-- The interrupt that the queue asks for is not registered.
prepare_cq-IsSame_example : IsSame device (prepare_cq kernel_memory true device (second_cq false)).1
unfolding prepare_cq prepared_cq track_cq alloc_cq alloc_buffer cmb_support_cq new_cq
    check_qid_unique cap_cqr dnvme_create_icq_node find_irq_node_by_id lookup is_sound release_cq
    release_ptr free_cq_buffer
prepare_cq-IsSame_example =
    prepare_cq-IsSame kernel_memory true device (second_cq false) einval
      (prepare_cq kernel_memory true device (second_cq false)).1 refl refl

abbrev admin_sq : Sq
admin_sq = record two_commands { sq_id = 0 }

abbrev one_page : PrpAlloc
one_page = record { arrays = true; pool = 77824 ∷ 81920 ∷ [] }

setup_list-IsList_example :
    (list : PrpList) × (setup_list one_page (λ d. (4096, d)) 8292 0 three_pages
      ≡ set_up 4096 77824 (some list))
    × IsList one_page 2 (4096 ∷ 8192 ∷ 40960 ∷ []) list
unfolding page_addrs advance
setup_list-IsList_example =
    setup_list-IsList one_page (λ d. (4096, d)) 2 8292 three_pages (4096 ∷ 8192 ∷ 40960 ∷ []) refl
      (omega arith) (omega arith) (omega arith) refl

abbrev two_blocks : List DescEntry
two_blocks = record { addr = 4096; length = 512 } ∷ record { addr = 0; length = 64 } ∷ []

fill_sgl-IsSegmented_example :
    (mem : SglMem) × (fill_sgl 5 (77824 ∷ []) 0 0 two_blocks (λ j k. blank_desc) ≡ some mem)
    × IsSegmented (77824 ∷ []) two_blocks 0 0 (λ j k. blank_desc) mem
    × ((i : ℕ) → i < 2 → i / 255 < nr_sgl_segments 2)
fill_sgl-IsSegmented_example = fill_sgl-IsSegmented (77824 ∷ []) two_blocks (λ j k. blank_desc)
