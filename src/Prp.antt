-- ===== src/Prp.antt =====
-- modules/dnvme/cmd.c: how `dnvme_setup_prps` lays the pages of a data buffer out as PRP entries.
-- `int` lengths that the source lets fall below 0 are compared before they are subtracted.
pub mod Layout
pub mod Fill
pub mod Pages
use dnvme.Base.{
  ℕ, zero, suc, ◌+◌, ◌-◌, ◌*◌, ◌/◌, ◌%◌, Bool, true, false, ◌&&◌, ◌||◌, Option, none, some, List,
  [], ◌∷◌, ltb, leb, ◌==◌, if◌then◌else◌, get_or, length, take,
}
use dnvme.Device.{Scatter, Errno, einval, efault, enomem}

abbrev pub page_size : ℕ
page_size = 4096

-- NVME_PRPS_PER_PAGE - 1: the index whose entry points to the next page of the list.
abbrev pub last_prp : ℕ
last_prp = 511

abbrev pub div_round_up : ℕ → ℕ → ℕ
div_round_up n d = (n + d - 1) / d

-- Where the loop stands in the scatterlist: `dma_addr`, `dma_len`, and the elements behind `sg`.
pub record Cursor : Type 0 where
  pub dma_addr : ℕ
  pub dma_len : ℕ
  pub rest : List Scatter

-- `sg_next` with the reads that follow it; past the end it is null, and the reads fault.
unfoldable pub next_sg : List Scatter → Option Cursor
next_sg [] = none
next_sg (s ∷ ss) = some (record { dma_addr = s.dma_address; dma_len = s.dma_len; rest = ss })

-- The entries of the list, by page and index.
abbrev pub PrpMem : Type 0
PrpMem = ℕ → ℕ → ℕ

unfoldable pub write_prp : PrpMem → ℕ → ℕ → ℕ → PrpMem
write_prp mem j k v j' k' = if (j == j') && (k == k') then v else mem j' k'

-- How the filling of a list ends: by a null `sg`, by `dma_len < 0`, or well.
pub data Filled : Type 0 where
  no_fuel : Filled
  fault : Filled
  illegal : Filled
  filled : PrpMem → ℕ → Filled

-- The cursor behind an entry of `step` bytes.
unfoldable pub advance : ℕ → Cursor → Option Cursor
unfolding next_sg
advance step c =
    if ltb step c.dma_len
    then some (record c { dma_addr = c.dma_addr + page_size; dma_len = c.dma_len - step })
    else next_sg c.rest

-- The `for` loop: `j` is the page, `k` the index in it, `count` is `prps->nr_entry`, and `dma`
-- holds the addresses of the pages.
unfoldable pub fill_prps : ℕ → List ℕ → ℕ → ℕ → ℕ → ℕ → ℕ → Cursor → PrpMem → Filled
fill_prps zero dma j k count buf_len pg_oft c mem = no_fuel
fill_prps (suc fuel) dma j k count buf_len pg_oft c mem =
    let linked =
      fill_prps fuel dma (j + 1) 0 (count + 1) buf_len pg_oft c
        (write_prp mem j k (get_or dma (j + 1) 0)) in
    let step = page_size - pg_oft in
    let mem' = write_prp mem j k c.dma_addr in
    let further =
      λ (c' : Cursor). fill_prps fuel dma j (k + 1) (count + 1) (buf_len - step) 0 c' mem' in
    if buf_len == 0
    then filled mem count
    else if k == last_prp
    then linked
    else if leb buf_len step
    then filled mem' (count + 1)
    else if ltb c.dma_len step
    then illegal
    else elim (advance step c) [ none ↦ fault | some c' ↦ further c' ]

-- NVME_MASK_PRP1_PAGE and its companions in `bit_mask`.
pub record PrpMask : Type 0 where
  pub prp1_page : Bool
  pub prp1_list : Bool
  pub prp2_page : Bool
  pub prp2_list : Bool

-- What the kernel answers: whether the two arrays can be allocated, and the addresses of the pages
-- that `dma_pool_alloc` hands out before it fails.
pub record PrpAlloc : Type 0 where
  pub arrays : Bool
  pub pool : List ℕ

-- The data pointer of the command, and the list, if one was made, with its page addresses and the
-- number of its entries.
pub record PrpList : Type 0 where
  pub mem : PrpMem
  pub pg_addr : List ℕ
  pub nr_entry : ℕ

pub data Setup : Type 0 where
  error : Errno → Setup
  crash : Setup
  set_up : ℕ → ℕ → Option PrpList → Setup

unfoldable pub nr_prp_entries : ℕ → ℕ → ℕ
nr_prp_entries pg_oft buf_len = div_round_up (pg_oft + buf_len) page_size

unfoldable pub nr_prp_pages : ℕ → ℕ
nr_prp_pages nr_entry = div_round_up (8 * nr_entry) (page_size - 8)

-- The answer of the loop; `prp1` and `prp2` are what the data pointer holds by then.
unfoldable pub finish_list : ℕ → ℕ → List ℕ → Filled → Setup
finish_list prp1 prp2 dma no_fuel = crash
finish_list prp1 prp2 dma fault = crash
finish_list prp1 prp2 dma illegal = error efault
finish_list prp1 prp2 dma (filled mem count) =
    set_up prp1 prp2 (some (record { mem = mem; pg_addr = dma; nr_entry = count }))

-- From the label `prp_list` on. `point` puts the address of the first page into the data pointer.
unfoldable pub setup_list : PrpAlloc → (ℕ → ℕ × ℕ) → ℕ → ℕ → Cursor → Setup
unfolding finish_list nr_prp_entries nr_prp_pages
setup_list alloc point buf_len pg_oft c =
    let nr_pages = nr_prp_pages (nr_prp_entries pg_oft buf_len) in
    let dma = take nr_pages alloc.pool in
    let (prp1, prp2) = point (get_or dma 0 0) in
    if alloc.arrays && leb nr_pages (length alloc.pool)
    then finish_list prp1 prp2 dma
        (fill_prps (2 * nr_prp_entries pg_oft buf_len + 1) dma 0 0 0 buf_len pg_oft c (λ _ _. 0))
    else error enomem

-- Behind the first page: one more page in PRP2, or a list there.
unfoldable pub setup_prp2 : PrpAlloc → PrpMask → ℕ → ℕ → Cursor → Setup
unfolding setup_list
setup_prp2 alloc mask prp1 buf_len c =
    if leb buf_len page_size
    then if mask.prp2_page then set_up prp1 c.dma_addr none else error einval
    else if mask.prp2_list
    then setup_list alloc (λ d. (prp1, d)) buf_len 0 c
    else error einval

-- The cursor behind the first page. The source tests `dma_len` for 0 only, so that an element
-- shorter than the page would go on below its end.
unfoldable pub behind_first : ℕ → Cursor → Option Cursor
unfolding next_sg
behind_first step c =
    if c.dma_len == step
    then next_sg c.rest
    else some (record c { dma_addr = c.dma_addr + step; dma_len = c.dma_len - step })

-- `is_queue` is the test for an admin command that creates a queue; `prp2` is what the user's
-- command holds there.
unfoldable pub setup_prps : PrpAlloc → PrpMask → Bool → ℕ → ℕ → List Scatter → Setup
unfolding setup_list setup_prp2 next_sg behind_first
setup_prps alloc mask is_queue prp2 buf_len sg = elim (next_sg sg) [
  | none ↦ crash
  | some c ↦
      let pg_oft = c.dma_addr % page_size in
      let step = page_size - pg_oft in
      if is_queue
      then if mask.prp1_list then setup_list alloc (λ d. (d, 0)) buf_len pg_oft c else error einval
      else if mask.prp1_page
      then if leb buf_len step then set_up c.dma_addr prp2 none else elim (behind_first step c) [
        | none ↦ crash
        | some c' ↦ setup_prp2 alloc mask c.dma_addr (buf_len - step) c'
      ]
      else error einval
]
