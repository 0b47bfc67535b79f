-- ===== src/Prp/Layout.antt =====
-- The PRP list that `dnvme_setup_prps` fills: 511 entries to a page and a link behind them.
use dnvme.Base.{
  ℕ, zero, suc, ◌+◌, ◌*◌, ◌/◌, ◌%◌, ◌≤◌, ◌<◌, ◌≡◌, ◌≢◌, ◌∙◌, List, [], ◌∷◌, get_or, length, arith,
}
use native.Mathlib.Decide.{dec_lt}
use dnvme.Prp.{PrpMem, write_prp}

-- The list holds `addrs` from the entry number `from` on, counted over the pages without their last
-- slots, the last slot of each page that is passed holds the address of the next one, and all
-- other slots are as in `old`.
pub record IsLaid (dma addrs : List ℕ) (from j : ℕ) (old mem : PrpMem) : Type 0 where
  pub entries :
      (i : ℕ) → i < length addrs → mem ((from + i) / 511) ((from + i) % 511) ≡ get_or addrs i 0
  pub links :
      (p : ℕ) → j ≤ p → (p + 1) * 511 < from + length addrs → mem p 511 ≡ get_or dma (p + 1) 0
  pub before : (p k : ℕ) → p * 511 + k < from → k < 511 → mem p k ≡ old p k
  pub links_before : (p : ℕ) → p < j → mem p 511 ≡ old p 511
  pub behind : (p k : ℕ) → from + length addrs ≤ p * 511 → j < p → mem p k ≡ old p k

write_prp_self : (mem : PrpMem) (j k v : ℕ) → write_prp mem j k v j k ≡ v
unfolding write_prp
write_prp_self mem j k v = ground arith

write_prp_page : (mem : PrpMem) (j k v p q : ℕ) → j ≢ p → write_prp mem j k v p q ≡ mem p q
unfolding write_prp
write_prp_page mem j k v p q h = ground arith

write_prp_index : (mem : PrpMem) (j k v p q : ℕ) → k ≢ q → write_prp mem j k v p q ≡ mem p q
unfolding write_prp
write_prp_index mem j k v p q h = ground arith

-- One entry, the last: nothing further is written.
pub IsLaid-one :
    (dma : List ℕ) (j k a : ℕ) (mem : PrpMem)
    → k < 511
    → IsLaid dma (a ∷ []) (j * 511 + k) j mem (write_prp mem j k a)
unfolding write_prp
IsLaid-one dma j k a mem lt = record {
  entries = λ i h.
      let first : i ≡ 0 = omega arith in
      let page : (j * 511 + k + i) / 511 ≡ j = omega arith in
      let index : (j * 511 + k + i) % 511 ≡ k = omega arith in ground arith;
  links = λ p h lt'. absurd (omega arith);
  before = λ p q h lq. ground arith;
  links_before = λ p h. ground arith;
  behind = λ p q h lp. ground arith;
}

module _ (dma addrs : List ℕ) (j k a : ℕ) (old mem : PrpMem) (lt : k < 511)
    (laid : IsLaid dma addrs (j * 511 + (k + 1)) j (write_prp old j k a) mem) where
  cons_entries :
      (i : ℕ)
      → i < suc (length addrs)
      → mem ((j * 511 + k + i) / 511) ((j * 511 + k + i) % 511) ≡ get_or (a ∷ addrs) i 0
  cons_entries zero h =
      let page : (j * 511 + k + 0) / 511 ≡ j = omega arith in
      let index : (j * 511 + k + 0) % 511 ≡ k = omega arith in
      rw (page, index) (laid.before j k (omega arith) lt ∙ write_prp_self old j k a)
  cons_entries (suc i) h =
      let at : j * 511 + k + suc i ≡ j * 511 + (k + 1) + i = omega arith in
      rw at (laid.entries i (omega arith))

  cons_before : (p q : ℕ) → p * 511 + q < j * 511 + k → q < 511 → mem p q ≡ old p q
  unfolding write_prp
  cons_before p q h lq = ground (arith, laid.before p q (omega arith) lq)

  cons_links_before : (p : ℕ) → p < j → mem p 511 ≡ old p 511
  unfolding write_prp
  cons_links_before p h = ground (arith, laid.links_before p h)

  cons_behind : (p q : ℕ) → j * 511 + k + suc (length addrs) ≤ p * 511 → j < p → mem p q ≡ old p q
  unfolding write_prp
  cons_behind p q h lp = ground (arith, laid.behind p q (omega arith) lp)

  -- An entry in front of a list that is laid behind it.
  pub IsLaid-cons : IsLaid dma (a ∷ addrs) (j * 511 + k) j old mem
  IsLaid-cons = record {
    entries = cons_entries;
    links = λ p h lt'. laid.links p h (omega arith);
    before = cons_before;
    links_before = cons_links_before;
    behind = cons_behind;
  }

module _ (dma addrs : List ℕ) (j : ℕ) (old mem : PrpMem) (some_left : 0 < length addrs)
    (laid : IsLaid dma addrs
      ((j + 1) * 511 + 0)
      (j + 1)
      (write_prp old j 511 (get_or dma (j + 1) 0))
      mem) where
  link_entries :
      (i : ℕ)
      → i < length addrs
      → mem ((j * 511 + 511 + i) / 511) ((j * 511 + 511 + i) % 511) ≡ get_or addrs i 0
  link_entries i h =
      let at : j * 511 + 511 + i ≡ (j + 1) * 511 + 0 + i = omega arith in rw at (laid.entries i h)

  link_links :
      (p : ℕ)
      → j ≤ p
      → (p + 1) * 511 < j * 511 + 511 + length addrs
      → mem p 511 ≡ get_or dma (p + 1) 0
  link_links p h lt' = elim (dec_lt j p) [
    | yes later ↦ laid.links p (omega arith) (omega arith)
    | no here ↦
        let same : p ≡ j = omega arith in
        rw same (laid.links_before j (omega arith) ∙ write_prp_self old j 511 _)
  ]

  link_before : (p q : ℕ) → p * 511 + q < j * 511 + 511 → q < 511 → mem p q ≡ old p q
  unfolding write_prp
  link_before p q h lq = ground (arith, laid.before p q (omega arith) lq)

  link_links_before : (p : ℕ) → p < j → mem p 511 ≡ old p 511
  unfolding write_prp
  link_links_before p h = ground (arith, laid.links_before p (omega arith))

  link_behind : (p q : ℕ) → j * 511 + 511 + length addrs ≤ p * 511 → j < p → mem p q ≡ old p q
  unfolding write_prp
  link_behind p q h lp = ground (arith, laid.behind p q (omega arith) (omega arith))

  -- A link in front of a list that is laid on the next page.
  pub IsLaid-link : IsLaid dma addrs (j * 511 + 511) j old mem
  IsLaid-link = record {
    entries = link_entries;
    links = link_links;
    before = link_before;
    links_before = link_links_before;
    behind = link_behind;
  }
