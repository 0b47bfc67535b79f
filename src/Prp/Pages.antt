-- ===== src/Prp/Pages.antt =====
-- modules/dnvme/cmd.c: the PRP list that `dnvme_setup_prps` allocates and fills.
use dnvme.Base.{
  ℕ, suc, ◌+◌, ◌-◌, ◌*◌, ◌/◌, ◌≤◌, ◌<◌, ◌≡◌, refl, true, some, List, get_or, length, take, leb,
  arith,
}
use dnvme.Prp.{
  Cursor, PrpAlloc, PrpList, set_up, finish_list, nr_prp_entries, nr_prp_pages, setup_list,
}
use dnvme.Prp.Layout.{IsLaid}
use dnvme.Prp.Fill.{page_addrs, fill_prps-IsLaid}

-- `m + 1` pages of data, the last of which may be a part, take as many entries.
nr_prp_entries-pages :
    (m buf_len : ℕ) → m * 4096 < buf_len → buf_len ≤ suc m * 4096 → nr_prp_entries 0 buf_len ≡ suc m
unfolding nr_prp_entries
nr_prp_entries-pages m buf_len lo hi = omega arith

nr_prp_pages-links : (m : ℕ) → nr_prp_pages (suc m) ≡ m / 511 + 1
unfolding nr_prp_pages
nr_prp_pages-links m = omega arith

-- The list that was made for the pages `addrs`, in as few pages of its own as hold it.
pub record IsList (alloc : PrpAlloc) (m : ℕ) (addrs : List ℕ) (list : PrpList) : Type 0 where
  pub pages : list.pg_addr ≡ take (m / 511 + 1) alloc.pool
  pub entries : list.nr_entry ≡ suc m + m / 511
  pub inside : (list.nr_entry - 1) / 512 < m / 511 + 1
  pub laid : IsLaid list.pg_addr addrs 0 0 (λ j k. 0) list.mem

-- From the label `prp_list` on, with the arrays and the list pages allocated, for data that starts
-- at a page and lies in whole pages of the scatterlist: the list is made, the data pointer gets the
-- address of its first page, the list takes `m / 511 + 1` pages for `m + 1` pages of data, all its
-- entries lie in them, and they name the pages of the data in order, linked at the last slots.
pub setup_list-IsList :
    (alloc : PrpAlloc) (point : ℕ → ℕ × ℕ) (m buf_len : ℕ) (c : Cursor) (addrs : List ℕ)
    → alloc.arrays ≡ true
    → m / 511 + 1 ≤ length alloc.pool
    → m * 4096 < buf_len
    → buf_len ≤ suc m * 4096
    → page_addrs m c ≡ some addrs
    → let (prp1, prp2) = point (get_or (take (m / 511 + 1) alloc.pool) 0 0) in
      (list : PrpList) × (setup_list alloc point buf_len 0 c ≡ set_up prp1 prp2 (some list))
      × IsList alloc m addrs list
unfolding setup_list finish_list
setup_list-IsList alloc point m buf_len c addrs arrays pool lo hi e =
    let dma = take (m / 511 + 1) alloc.pool in
    let (mem, filled_well, laid) = fill_prps-IsLaid m buf_len dma c addrs (λ j k. 0) lo hi e in
    let enough : leb (m / 511 + 1) (length alloc.pool) ≡ true = ground arith in
    let entries = nr_prp_entries-pages m buf_len lo hi in
    let pages = nr_prp_pages-links m in
    (
      record { mem = mem; pg_addr = dma; nr_entry = suc m + m / 511 },
      rw (entries, pages, arrays, enough, filled_well, setup_list) refl,
      record { pages = refl; entries = refl; inside = omega arith; laid = laid },
    )
