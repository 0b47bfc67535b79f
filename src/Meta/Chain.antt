-- ===== src/Meta/Chain.antt =====
-- modules/dnvme/meta.c, `dnvme_meta_setup_sgl`: where its descriptors stand.
use dnvme.Base.{
  ℕ, zero, suc, ◌+◌, ◌*◌, ◌/◌, ◌≤◌, ◌<◌, ◌≡◌, refl, sym, ap, ◌∙◌, true, false, List, [], ◌∷◌, ◌==◌,
  leb, get_or, length, take, All, arith,
}
use native.Mathlib.Decide.{dec_lt}
use dnvme.Device.{SglDesc, Scatter}
use dnvme.Sgl.{DescEntry, SglMem, write_sgl, desc_of, sgl_set_data, sgl_set_seg, fill_sgl}
use dnvme.Sgl.Segments.{IsSegmented}
use dnvme.Sgl.Chain.{fill_link, fill_entry, Fills-all}
use dnvme.Meta.{fill_meta, nr_meta_segments, set_up, filled_segments, first_page, meta_setup_sgl}

-- The elements of a scatterlist as data blocks.
abbrev pub data_blocks : List Scatter → List DescEntry
data_blocks [] = []
data_blocks (s ∷ ss) = record { addr = s.dma_address; length = s.dma_len } ∷ data_blocks ss

length-data_blocks : (sg : List Scatter) → length (data_blocks sg) ≡ length sg
length-data_blocks [] = refl
length-data_blocks (s ∷ ss) = ap suc (length-data_blocks ss)

-- No element of the list starts at address 0.
abbrev pub IsMapped : List Scatter → Type 0
IsMapped sg = All (λ s. 0 < s.dma_address) sg

data_desc :
    (s : Scatter) (old : SglDesc)
    → 0 < s.dma_address
    → desc_of old (record { addr = s.dma_address; length = s.dma_len })
      ≡ sgl_set_data s.dma_address s.dma_len
unfolding desc_of
data_desc s old h = ground arith

module _ (fuel : ℕ) (dma : List ℕ) (j k : ℕ) (s : Scatter) (ss : List Scatter) (mem : SglMem) where
  meta_link :
      k ≡ 255
      → fill_meta (suc fuel) dma j k (suc (length ss)) (s ∷ ss) mem
        ≡ fill_meta fuel dma
            (j + 1)
            0
            (suc (length ss))
            (s ∷ ss)
            (write_sgl mem j k (sgl_set_seg (get_or dma (j + 1) 0) (suc (length ss))))
  unfolding fill_meta
  meta_link last = ground arith

  meta_entry :
      k < 255
      → fill_meta (suc fuel) dma j k (suc (length ss)) (s ∷ ss) mem
        ≡ fill_meta fuel dma j
            (k + 1)
            (length ss)
            ss
            (write_sgl mem j k (sgl_set_data s.dma_address s.dma_len))
  unfolding fill_meta
  meta_entry lt = ground arith

-- The loop writes what the loop of `dnvme_cmd_setup_sgl` writes for the same data blocks.
fill_meta-fill_sgl :
    (fuel : ℕ) (dma : List ℕ) (j k : ℕ) (sg : List Scatter) (mem : SglMem)
    → k ≤ 255
    → IsMapped sg
    → fill_meta fuel dma j k (length sg) sg mem ≡ fill_sgl fuel dma j k (data_blocks sg) mem
unfolding fill_meta fill_sgl
fill_meta-fill_sgl zero dma j k sg mem le h = refl
fill_meta-fill_sgl (suc fuel) dma j k [] mem le h = refl
fill_meta-fill_sgl (suc fuel) dma j k (s ∷ ss) mem le h = elim (dec_lt k 255) [
  | yes lt ↦
      meta_entry fuel dma j k s ss mem lt
      ∙ fill_meta-fill_sgl fuel dma j (k + 1) ss _ (omega arith) h.1
      ∙ ap (λ d. fill_sgl fuel dma j (k + 1) (data_blocks ss) (write_sgl mem j k d))
          (sym (data_desc s (mem j k) h.0))
      ∙ sym (fill_entry fuel dma j k _ (data_blocks ss) mem lt)
  | no full ↦
      let last : k ≡ 255 = omega arith in
      meta_link fuel dma j k s ss mem last
      ∙ fill_meta-fill_sgl fuel dma (j + 1) 0 (s ∷ ss) _ (omega arith) h
      ∙ ap
          (λ n.
            fill_sgl fuel dma (j + 1) 0 (data_blocks (s ∷ ss))
              (write_sgl mem j k (sgl_set_seg (get_or dma (j + 1) 0) (suc n))))
          (sym (length-data_blocks ss))
      ∙ sym (fill_link fuel dma j k _ (data_blocks ss) mem last)
]

-- Where the descriptors of a meta buffer of several pages stand.
pub record IsLaidOut (sg : List Scatter) (dma : List ℕ) (mem : SglMem) : Type 0 where
  pub head : mem 0 0 ≡ sgl_set_seg (get_or dma 1 0) (length sg)
  pub laid :
      IsSegmented dma
        (data_blocks sg)
        255
        1
        (first_page (sgl_set_seg (get_or dma 1 0) (length sg)))
        mem
  pub room : (i : ℕ) → i < length sg → (255 + i) / 255 < nr_meta_segments (length sg)

first_page-first : (d : SglDesc) → first_page d 0 0 ≡ d
unfolding write_sgl
first_page-first d = refl

meta_room : (n i : ℕ) → 1 < n → i < n → (255 + i) / 255 < nr_meta_segments n
unfolding nr_meta_segments
meta_room n i several lt = ground arith

meta_setup_sgl-several :
    (pool : List ℕ) (sg : List Scatter)
    → 1 < length sg
    → nr_meta_segments (length sg) ≤ length pool
    → let dma = take (nr_meta_segments (length sg)) pool in
      meta_setup_sgl true pool sg (length sg)
      ≡ filled_segments dma (
          fill_meta
            (2 * length sg + 1)
            dma
            1
            0
            (length sg)
            sg
            (first_page (sgl_set_seg (get_or dma 1 0) (length sg))))
unfolding meta_setup_sgl
meta_setup_sgl-several pool sg several enough =
    let enough' : leb (nr_meta_segments (length sg)) (length pool) ≡ true = ground arith in
    let several' : (length sg == 1) ≡ false = ground arith in
    rw (enough', several', meta_setup_sgl) refl

-- `dnvme_meta_setup_sgl`, on a scatterlist of two or more elements, as many as pages are mapped and
-- none at address 0, with its arrays and pages allocated, ends and leaves: in page 0 the descriptor of
-- the first segment alone; from page 1 on the elements in order, 255 to a page, the last slot of each
-- page that is passed describing the next segment with what is left for it; all in the pages that
-- were allocated.
pub meta_setup_sgl-IsLaidOut :
    (pool : List ℕ) (sg : List Scatter)
    → 1 < length sg
    → IsMapped sg
    → nr_meta_segments (length sg) ≤ length pool
    → let dma = take (nr_meta_segments (length sg)) pool in
      (mem : SglMem) × (meta_setup_sgl true pool sg (length sg) ≡ set_up mem dma)
      × IsLaidOut sg dma mem
unfolding filled_segments
meta_setup_sgl-IsLaidOut pool sg several mapped enough =
    let n = length sg in
    let dma = take (nr_meta_segments n) pool in
    let old = first_page (sgl_set_seg (get_or dma 1 0) n) in
    let blocks = length-data_blocks sg in
    let (mem, run, laid) =
      Fills-all (2 * n + 1) dma 1 0 (data_blocks sg) old (omega arith) (ground (arith, blocks)) in
    let ran = fill_meta-fill_sgl (2 * n + 1) dma 1 0 sg old (omega arith) mapped ∙ run in
    (
      mem,
      meta_setup_sgl-several pool sg several enough ∙ ap (filled_segments dma) ran,
      record {
        head = laid.before 0 0 (omega arith) (omega arith) ∙ first_page-first _;
        laid = laid;
        room = λ i lt. meta_room (length sg) i several lt;
      },
    )
