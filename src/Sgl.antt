-- ===== src/Sgl.antt =====
-- modules/dnvme/cmd.c: SGL descriptors, the merge of bit buckets into a scatterlist, and how
-- `dnvme_cmd_setup_sgl` lays descriptors out in segments. The kernel's `sort` is an argument.
pub mod Segments
pub mod Chain
use dnvme.Base.{
  ℕ, zero, suc, ◌+◌, ◌-◌, ◌*◌, ◌%◌, Bool, not, ◌&&◌, ◌||◌, Option, none, some, List, [], ◌∷◌, ◌++◌,
  ltb, leb, ◌==◌, if◌then◌else◌, get_or, length, take,
}
use dnvme.Device.{SglDesc, Scatter, Errno, eperm, efault, enomem}
use dnvme.Prp.{page_size, div_round_up}

-- `struct nvme_sgl_bit_bucket`.
pub record BitBucket : Type 0 where
  pub offset : ℕ
  pub length : ℕ

-- `struct sgl_desc_entry`; address 0 marks a bit bucket.
pub record DescEntry : Type 0 where
  pub addr : ℕ
  pub length : ℕ

abbrev pub blank_desc : SglDesc
blank_desc = record { addr = 0; length = 0; type = 0 }

-- NVME_SGES_PER_PAGE
abbrev pub sges_per_page : ℕ
sges_per_page = 256

-- The types, NVME_SGL_TYPE_* in the upper half of the byte.
unfoldable pub sgl_set_data : ℕ → ℕ → SglDesc
sgl_set_data addr len = record { addr = addr; length = len; type = 0x00 }

-- The address of a bit bucket is left as it was.
unfoldable pub sgl_set_bit_bucket : SglDesc → ℕ → SglDesc
sgl_set_bit_bucket old len = record { addr = old.addr; length = len; type = 0x10 }

unfoldable pub sgl_set_seg : ℕ → ℕ → SglDesc
sgl_set_seg dma entries =
    if ltb entries sges_per_page
    then record { addr = dma; length = entries * 16; type = 0x30 }
    else record { addr = dma; length = page_size; type = 0x20 }

-- `unsigned int` addition.
abbrev pub add_u32 : ℕ → ℕ → ℕ
add_u32 a b = (a + b) % 4294967296

-- The inner loop of `dnvme_count_sgl_desc_num`: 1 at the border of an element, else 2.
unfoldable pub bucket_descs : ℕ → ℕ → List Scatter → ℕ
bucket_descs at offset [] = 2
bucket_descs at offset (s ∷ ss) =
    let further = bucket_descs at (add_u32 offset s.dma_len) ss in
    if at == offset || at == add_u32 offset s.dma_len then 1 else further

unfoldable pub count_sgl_desc_num : List Scatter → List BitBucket → ℕ
unfolding bucket_descs
count_sgl_desc_num sg [] = length sg
count_sgl_desc_num sg (b ∷ bs) = bucket_descs b.offset 0 sg + count_sgl_desc_num sg bs

abbrev pub bucket_entry : BitBucket → DescEntry
bucket_entry b = record { addr = 0; length = b.length }

-- Where the merge stands: the entries so far, the buckets left, `last_bit_offset`, and `sg_oft`.
pub record Merge : Type 0 where
  pub entries : List DescEntry
  pub buckets : List BitBucket
  pub last : ℕ
  pub sg_oft : ℕ

-- The buckets in front of all elements.
unfoldable pub leading_buckets : List BitBucket → List DescEntry → ℕ → Merge
leading_buckets [] out last = record { entries = out; buckets = []; last = last; sg_oft = 0 }
leading_buckets (b ∷ bs) out last =
    let further = leading_buckets bs (out ++ bucket_entry b ∷ []) b.offset in
    if ltb 0 b.offset
    then record { entries = out; buckets = b ∷ bs; last = last; sg_oft = 0 }
    else further

-- The data block of an element up to `size` bytes behind `sg_oft`.
abbrev pub data_entry : Scatter → ℕ → ℕ → DescEntry
data_entry s sg_oft size = record { addr = s.dma_address + sg_oft; length = size }

-- The data block in front of a bucket, unless the last bucket stood at the same offset.
unfoldable pub before_bucket : Scatter → ℕ → Merge → Merge
before_bucket s size m = record m {
  entries = m.entries ++ data_entry s m.sg_oft size ∷ [];
  sg_oft = m.sg_oft + size;
}

-- What is left of an element, if anything.
unfoldable pub rest_of_element : Scatter → Merge → Merge
unfolding before_bucket
rest_of_element s m = if ltb m.sg_oft s.dma_len then before_bucket s (s.dma_len - m.sg_oft) m else m

unfoldable pub put_bucket : BitBucket → List BitBucket → Merge → Merge
put_bucket b bs m = record m {
  entries = m.entries ++ bucket_entry b ∷ [];
  buckets = bs;
  last = b.offset;
}

-- The `while` loop inside an element that starts at `offset`. In sorted order no bucket lies before
-- the position reached, so the subtractions are exact.
unfoldable pub merge_element : Scatter → ℕ → List BitBucket → Merge → Merge
unfolding before_bucket rest_of_element put_bucket
merge_element s offset [] m = rest_of_element s (record m { buckets = [] })
merge_element s offset (b ∷ bs) m =
    let end = add_u32 offset s.dma_len in
    let here =
      if m.last == b.offset
      then m
      else if ltb b.offset end
      then before_bucket s (b.offset - (offset + m.sg_oft)) m
      else before_bucket s (s.dma_len - m.sg_oft) m in
    let further = merge_element s offset bs (put_bucket b bs here) in
    if ltb end b.offset then rest_of_element s (record m { buckets = b ∷ bs }) else further

unfoldable pub merge_elements : List Scatter → ℕ → Merge → Merge
unfolding merge_element
merge_elements [] offset m = m
merge_elements (s ∷ ss) offset m =
    merge_elements ss (add_u32 offset s.dma_len)
      (merge_element s offset m.buckets (record m { sg_oft = 0 }))

unfoldable pub bucket_entries : List BitBucket → List DescEntry
bucket_entries [] = []
bucket_entries (b ∷ bs) = bucket_entry b ∷ bucket_entries bs

-- `dnvme_init_sgl_desc_list`, without the test that ends it.
unfoldable pub merged_entries : List Scatter → List BitBucket → List DescEntry
unfolding leading_buckets merge_elements bucket_entries
merged_entries sg buckets =
    let m = merge_elements sg 0 (leading_buckets buckets [] 0) in
    m.entries ++ bucket_entries m.buckets

unfoldable pub init_sgl_desc_list :
    Bool → List Scatter → List BitBucket → ℕ → Option (List DescEntry)
unfolding merged_entries
init_sgl_desc_list alloc sg buckets nr_desc =
    if alloc && (length (merged_entries sg buckets) == nr_desc)
    then some (merged_entries sg buckets)
    else none

-- The descriptors, by segment page and index.
abbrev pub SglMem : Type 0
SglMem = ℕ → ℕ → SglDesc

unfoldable pub write_sgl : SglMem → ℕ → ℕ → SglDesc → SglMem
write_sgl mem j k v j' k' = if (j == j') && (k == k') then v else mem j' k'

unfoldable pub desc_of : SglDesc → DescEntry → SglDesc
unfolding sgl_set_data sgl_set_bit_bucket
desc_of old e =
    if not (e.addr == 0) then sgl_set_data e.addr e.length else sgl_set_bit_bucket old e.length

-- The `for` loop over the entries left: `j` is the page, `k` the index in it.
unfoldable pub fill_sgl : ℕ → List ℕ → ℕ → ℕ → List DescEntry → SglMem → Option SglMem
fill_sgl zero dma j k left mem = none
fill_sgl (suc fuel) dma j k [] mem = some mem
fill_sgl (suc fuel) dma j k (e ∷ es) mem =
    let linked =
      fill_sgl fuel dma (j + 1) 0 (e ∷ es)
        (write_sgl mem j k (sgl_set_seg (get_or dma (j + 1) 0) (length (e ∷ es)))) in
    let next = fill_sgl fuel dma j (k + 1) es (write_sgl mem j k (desc_of (mem j k) e)) in
    if k == 255 then linked else next

-- What the kernel answers: the copy and the allocation of the buckets, the entry list, the two
-- arrays, and the pages that `dma_pool_alloc` hands out before it fails.
pub record SglAlloc : Type 0 where
  pub bucket_mem : Bool
  pub bucket_copy : Bool
  pub list_mem : Bool
  pub arrays : Bool
  pub pool : List ℕ

pub record SglList : Type 0 where
  pub mem : SglMem
  pub pg_addr : List ℕ
  pub nr_entry : ℕ

-- The data pointer of the command, and the segments, if any were made.
pub data SglSetup : Type 0 where
  sgl_error : Errno → SglSetup
  sgl_crash : SglSetup
  sgl_set_up : SglDesc → Option SglList → SglSetup

unfoldable pub nr_sgl_segments : ℕ → ℕ
nr_sgl_segments nr_desc = div_round_up (16 * nr_desc) (page_size - 16)

unfoldable pub finish_sgl : List ℕ → ℕ → Option SglMem → SglSetup
finish_sgl dma nr_desc none = sgl_crash
finish_sgl dma nr_desc (some mem) =
    sgl_set_up (sgl_set_seg (get_or dma 0 0) nr_desc)
      (some (record { mem = mem; pg_addr = dma; nr_entry = nr_desc }))

unfoldable pub setup_segments : SglAlloc → ℕ → Option (List DescEntry) → SglSetup
unfolding nr_sgl_segments finish_sgl
setup_segments alloc nr_desc none = sgl_error eperm
setup_segments alloc nr_desc (some entries) =
    let nr_seg = nr_sgl_segments nr_desc in
    let dma = take nr_seg alloc.pool in
    if alloc.arrays && leb nr_seg (length alloc.pool)
    then finish_sgl dma nr_desc (fill_sgl (2 * nr_desc + 1) dma 0 0 entries (λ _ _. blank_desc))
    else sgl_error enomem

-- `dnvme_sgl_set_data` of the first element; a mapped buffer has one.
unfoldable pub first_data : List Scatter → SglDesc
unfolding sgl_set_data
first_data [] = blank_desc
first_data (s ∷ ss) = sgl_set_data s.dma_address s.dma_len

-- `nr_map` is `num_map_pgs`, the number of pages mapped, which the source takes for the number of
-- elements; `buckets` is what the user's array holds.
unfoldable pub cmd_setup_sgl :
    (List BitBucket → List BitBucket) → SglAlloc → List Scatter → ℕ → List BitBucket → SglSetup
unfolding setup_segments first_data
cmd_setup_sgl sort alloc sg nr_map [] =
    if nr_map == 1
    then sgl_set_up (first_data sg) none
    else setup_segments alloc nr_map (init_sgl_desc_list alloc.list_mem sg [] nr_map)
cmd_setup_sgl sort alloc sg nr_map (b ∷ bs) =
    if alloc.bucket_mem
    then if alloc.bucket_copy
      then setup_segments alloc (count_sgl_desc_num sg (sort (b ∷ bs))) (
          init_sgl_desc_list alloc.list_mem sg (sort (b ∷ bs))
            (count_sgl_desc_num sg (sort (b ∷ bs))))
      else sgl_error efault
    else sgl_error enomem
