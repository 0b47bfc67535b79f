-- ===== src/Sgl/Segments.antt =====
-- modules/dnvme/cmd.c: the layout of SGL segments, 255 descriptors to a page and a segment
-- descriptor behind them where the list goes on.
use dnvme.Base.{
  ℕ, zero, suc, ◌+◌, ◌-◌, ◌*◌, ◌/◌, ◌%◌, ◌≤◌, ◌<◌, ◌≡◌, ◌≢◌, refl, ap, ◌∙◌, List, [], ◌∷◌, get_or,
  length, arith,
}
use native.Mathlib.Decide.{dec_lt}
use dnvme.Device.{SglDesc}
use dnvme.Sgl.{DescEntry, SglMem, write_sgl, desc_of, sgl_set_seg}

abbrev pub no_entry : DescEntry
no_entry = record { addr = 0; length = 0 }

-- `mem` holds the descriptors of `es` from number `from` on, counted without the last slots, and
-- behind each page that is passed the segment descriptor of the next with what is left for it; the
-- slots in front are as in `old`.
pub record IsSegmented (dma : List ℕ) (es : List DescEntry) (from j : ℕ) (old mem : SglMem)
    : Type 0 where
  pub entries :
      (i : ℕ)
      → i < length es
      → mem ((from + i) / 255) ((from + i) % 255)
        ≡ desc_of (old ((from + i) / 255) ((from + i) % 255)) (get_or es i no_entry)
  pub links :
      (p : ℕ)
      → j ≤ p
      → (p + 1) * 255 < from + length es
      → mem p 255 ≡ sgl_set_seg (get_or dma (p + 1) 0) (from + length es - (p + 1) * 255)
  pub before : (p k : ℕ) → p * 255 + k < from → k < 255 → mem p k ≡ old p k
  pub links_before : (p : ℕ) → p < j → mem p 255 ≡ old p 255

write_sgl_self : (mem : SglMem) (j k : ℕ) (v : SglDesc) → write_sgl mem j k v j k ≡ v
unfolding write_sgl
write_sgl_self mem j k v = ground arith

write_sgl_page :
    (mem : SglMem) (j k : ℕ) (v : SglDesc) (p q : ℕ) → j ≢ p → write_sgl mem j k v p q ≡ mem p q
unfolding write_sgl
write_sgl_page mem j k v p q away = ground arith

write_sgl_index :
    (mem : SglMem) (j k : ℕ) (v : SglDesc) (p q : ℕ) → k ≢ q → write_sgl mem j k v p q ≡ mem p q
unfolding write_sgl
write_sgl_index mem j k v p q away = ground arith

-- Nothing is left to write.
pub IsSegmented-nil :
    (dma : List ℕ) (j k : ℕ) (mem : SglMem) → k ≤ 255 → IsSegmented dma [] (j * 255 + k) j mem mem
IsSegmented-nil dma j k mem le = record {
  entries = λ i h. absurd (omega arith);
  links = λ p h lt. absurd (omega arith);
  before = λ p q h lq. refl;
  links_before = λ p h. refl;
}

module _ (dma : List ℕ) (e : DescEntry) (es : List DescEntry) (j k : ℕ) (old mem : SglMem)
    (lt : k < 255)
    (rest : IsSegmented dma es
      (j * 255 + (k + 1))
      j
      (write_sgl old j k (desc_of (old j k) e))
      mem) where
  entry_first : mem j k ≡ desc_of (old j k) e
  entry_first = rest.before j k (omega arith) lt ∙ write_sgl_self old j k (desc_of (old j k) e)

  -- A later slot was not the one written.
  later_slot :
      (n : ℕ)
      → j * 255 + k < n
      → write_sgl old j k (desc_of (old j k) e) (n / 255) (n % 255) ≡ old (n / 255) (n % 255)
  unfolding write_sgl
  later_slot n later = ground arith

  cons_entries :
      (i : ℕ)
      → i < suc (length es)
      → mem ((j * 255 + k + i) / 255) ((j * 255 + k + i) % 255)
        ≡ desc_of
            (old ((j * 255 + k + i) / 255) ((j * 255 + k + i) % 255))
            (get_or (e ∷ es) i no_entry)
  cons_entries zero h =
      let page : (j * 255 + k + 0) / 255 ≡ j = omega arith in
      let index : (j * 255 + k + 0) % 255 ≡ k = omega arith in rw (page, index) entry_first
  cons_entries (suc i) h =
      let at : j * 255 + k + suc i ≡ j * 255 + (k + 1) + i = omega arith in
      rw at (
        rest.entries i (omega arith)
        ∙ ap (λ d. desc_of d (get_or es i no_entry))
            (later_slot (j * 255 + (k + 1) + i) (omega arith)))

  cons_before : (p q : ℕ) → p * 255 + q < j * 255 + k → q < 255 → mem p q ≡ old p q
  unfolding write_sgl
  cons_before p q h lq = ground (arith, rest.before p q (omega arith) lq)

  cons_links :
      (p : ℕ)
      → j ≤ p
      → (p + 1) * 255 < j * 255 + k + suc (length es)
      → mem p 255
        ≡ sgl_set_seg (get_or dma (p + 1) 0) (j * 255 + k + suc (length es) - (p + 1) * 255)
  cons_links p h more =
      let same : j * 255 + (k + 1) + length es - (p + 1) * 255
          ≡ j * 255 + k + suc (length es) - (p + 1) * 255 =
        omega arith in
      rest.links p h (omega arith) ∙ ap (sgl_set_seg (get_or dma (p + 1) 0)) same

  pub IsSegmented-cons : IsSegmented dma (e ∷ es) (j * 255 + k) j old mem
  IsSegmented-cons = record {
    entries = cons_entries;
    links = cons_links;
    before = cons_before;
    links_before = λ p h.
        rest.links_before p h ∙ write_sgl_page old j k (desc_of (old j k) e) p 255 (ground arith);
  }

module _ (dma : List ℕ) (es : List DescEntry) (j : ℕ) (old mem : SglMem)
    (rest : IsSegmented dma es
      ((j + 1) * 255 + 0)
      (j + 1)
      (write_sgl old j 255 (sgl_set_seg (get_or dma (j + 1) 0) (length es)))
      mem) where
  abbrev link : SglDesc
  link = sgl_set_seg (get_or dma (j + 1) 0) (length es)

  link_entries :
      (i : ℕ)
      → i < length es
      → mem ((j * 255 + 255 + i) / 255) ((j * 255 + 255 + i) % 255)
        ≡ desc_of
            (old ((j * 255 + 255 + i) / 255) ((j * 255 + 255 + i) % 255))
            (get_or es i no_entry)
  link_entries i h =
      let at : j * 255 + 255 + i ≡ (j + 1) * 255 + 0 + i = omega arith in
      let index : 255 ≢ ((j + 1) * 255 + 0 + i) % 255 = λ same. absurd (omega arith) in
      rw at (
        rest.entries i h
        ∙ ap (λ d. desc_of d (get_or es i no_entry)) (write_sgl_index old j 255 link _ _ index))

  link_links :
      (p : ℕ)
      → j ≤ p
      → (p + 1) * 255 < j * 255 + 255 + length es
      → mem p 255 ≡ sgl_set_seg (get_or dma (p + 1) 0) (j * 255 + 255 + length es - (p + 1) * 255)
  link_links p h more = elim (dec_lt j p) [
    | yes later ↦
        let same : (j + 1) * 255 + 0 + length es - (p + 1) * 255
            ≡ j * 255 + 255 + length es - (p + 1) * 255 =
          omega arith in
        rest.links p (omega arith) (omega arith) ∙ ap (sgl_set_seg (get_or dma (p + 1) 0)) same
    | no here ↦
        let same : p ≡ j = omega arith in
        let left : length es ≡ j * 255 + 255 + length es - (j + 1) * 255 = omega arith in
        rw same (
          rest.links_before j (omega arith)
          ∙ write_sgl_self old j 255 link
          ∙ ap (sgl_set_seg (get_or dma (j + 1) 0)) left)
  ]

  pub IsSegmented-link : IsSegmented dma es (j * 255 + 255) j old mem
  IsSegmented-link = record {
    entries = link_entries;
    links = link_links;
    before = λ p q h lq.
        rest.before p q (omega arith) lq ∙ write_sgl_index old j 255 link p q (ground arith);
    links_before = λ p h.
        rest.links_before p (omega arith) ∙ write_sgl_page old j 255 link p 255 (ground arith);
  }
