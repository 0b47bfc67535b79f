-- ===== src/Prp/Fill.antt =====
-- The loop of `dnvme_setup_prps` over a scatterlist of whole pages.
use dnvme.Base.{
  ℕ, zero, suc, ◌+◌, ◌-◌, ◌*◌, ◌/◌, ◌≤◌, ◌<◌, ◌≡◌, refl, sym, ap, ◌∙◌, false, Option, none, some,
  List, [], ◌∷◌, ltb, ◌==◌, if◌then◌else◌, get_or, length, Bool-cases, Option-cases, inl, inr,
  arith,
}
use mathlib.Core.Option
use mathlib.Core.Path.{subst}
use native.Mathlib.Decide.{dec_lt}
use dnvme.Prp.{Cursor, PrpMem, write_prp, filled, advance, fill_prps, page_size}
use dnvme.Prp.Layout.{IsLaid, IsLaid-one, IsLaid-cons, IsLaid-link}

-- The addresses of the next `suc m` pages behind a cursor, if the scatterlist reaches that far in
-- whole pages; the last page may be a part.
unfoldable pub page_addrs : ℕ → Cursor → Option (List ℕ)
page_addrs zero c = some (c.dma_addr ∷ [])
page_addrs (suc m) c = if ltb c.dma_len page_size then none else elim (advance page_size c) [
  | none ↦ none
  | some c' ↦ Option.map (λ rest. c.dma_addr ∷ rest) (page_addrs m c')
]

page_addrs-zero :
    (c : Cursor) {addrs : List ℕ} → page_addrs 0 c ≡ some addrs → c.dma_addr ∷ [] ≡ addrs
unfolding page_addrs
page_addrs-zero c e = ground arith

page_addrs-suc :
    (m : ℕ) (c : Cursor) {addrs : List ℕ}
    → page_addrs (suc m) c ≡ some addrs
    → (c' : Cursor) × (rest : List ℕ) × (ltb c.dma_len page_size ≡ false)
      × (advance page_size c ≡ some c')
      × (page_addrs m c' ≡ some rest)
      × (addrs ≡ c.dma_addr ∷ rest)
unfolding page_addrs
page_addrs-suc m c e = elim (Bool-cases (ltb c.dma_len page_size)) [
  | inl short ↦ absurd (ground arith)
  | inr whole ↦ elim (Option-cases (advance page_size c)) [
    | inl stop ↦ absurd (ground arith)
    | inr (c', go) ↦ elim (Option-cases (page_addrs m c')) [
      | inl stop ↦ absurd (ground arith)
      | inr (rest, e') ↦ (c', rest, whole, go, e', ground arith)
    ]
  ]
]

length-page_addrs :
    (m : ℕ) (c : Cursor) {addrs : List ℕ} → page_addrs m c ≡ some addrs → length addrs ≡ suc m
length-page_addrs zero c e = unfold page_addrs in ground arith
length-page_addrs (suc m) c e =
    let (c', rest, _, _, e', cons) = page_addrs-suc m c e in
    ap length cons ∙ ap suc (length-page_addrs m c' e')

module _ (fuel : ℕ) (dma : List ℕ) (j k count buf_len : ℕ) (c : Cursor) (mem : PrpMem) where
  fill_link :
      0 < buf_len
      → k ≡ 511
      → fill_prps (suc fuel) dma j k count buf_len 0 c mem
        ≡ fill_prps fuel dma
            (j + 1)
            0
            (count + 1)
            buf_len
            0
            c
            (write_prp mem j k (get_or dma (j + 1) 0))
  unfolding fill_prps
  fill_link h e = ground arith

  fill_last :
      0 < buf_len
      → k < 511
      → buf_len ≤ 4096
      → fill_prps (suc fuel) dma j k count buf_len 0 c mem
        ≡ filled (write_prp mem j k c.dma_addr) (count + 1)
  unfolding fill_prps
  fill_last h lt le = ground arith

  fill_entry :
      {c' : Cursor}
      → k < 511
      → 4096 < buf_len
      → ltb c.dma_len page_size ≡ false
      → advance page_size c ≡ some c'
      → fill_prps (suc fuel) dma j k count buf_len 0 c mem
        ≡ fill_prps fuel dma j
            (k + 1)
            (count + 1)
            (buf_len - 4096)
            0
            c'
            (write_prp mem j k c.dma_addr)
  unfolding fill_prps
  fill_entry lt le e e' = ground arith

abbrev pub links_in : ℕ → ℕ → ℕ → ℕ
links_in j k m = (j * 511 + k + m) / 511 - j

-- What the loop does from page `j`, index `k` on, with `m + 1` pages of data to go.
module _ (dma : List ℕ) where
  abbrev Fills : ℕ → ℕ → ℕ → ℕ → ℕ → ℕ → Cursor → PrpMem → List ℕ → Type 0
  Fills fuel m j k count buf_len c mem addrs =
      (mem' : PrpMem) × (fill_prps fuel dma j k count buf_len 0 c mem
        ≡ filled mem' (count + suc m + links_in j k m))
      × IsLaid dma addrs (j * 511 + k) j mem mem'

  Fills-link :
      (fuel m j count buf_len : ℕ) (c : Cursor) (mem : PrpMem) (addrs : List ℕ)
      → 0 < buf_len
      → 0 < length addrs
      → Fills fuel m
          (j + 1)
          0
          (count + 1)
          buf_len
          c
          (write_prp mem j 511 (get_or dma (j + 1) 0))
          addrs
      → Fills (suc fuel) m j 511 count buf_len c mem addrs
  Fills-link fuel m j count buf_len c mem addrs pos left (mem', e, laid) =
      let same : count + 1 + suc m + links_in (j + 1) 0 m ≡ count + suc m + links_in j 511 m =
        omega arith in
      (
        mem',
        fill_link fuel dma j 511 count buf_len c mem pos refl ∙ e ∙ ap (filled mem') same,
        IsLaid-link dma addrs j mem mem' left laid,
      )

  Fills-entry :
      (fuel m j k count buf_len : ℕ) (c c' : Cursor) (mem : PrpMem) (rest : List ℕ)
      → k < 511
      → 4096 < buf_len
      → ltb c.dma_len page_size ≡ false
      → advance page_size c ≡ some c'
      → Fills fuel m j (k + 1) (count + 1) (buf_len - 4096) c' (write_prp mem j k c.dma_addr) rest
      → Fills (suc fuel) (suc m) j k count buf_len c mem (c.dma_addr ∷ rest)
  Fills-entry fuel m j k count buf_len c c' mem rest lt long whole go (mem', e, laid) =
      let same : count + 1 + suc m + links_in j (k + 1) m
          ≡ count + suc (suc m) + links_in j k (suc m) =
        omega arith in
      (
        mem',
        fill_entry fuel dma j k count buf_len c mem lt long whole go ∙ e ∙ ap (filled mem') same,
        IsLaid-cons dma rest j k c.dma_addr mem mem' lt laid,
      )

  abbrev Enough : ℕ → ℕ → ℕ → Type 0
  Enough fuel m k = 2 * suc m ≤ fuel + (if k == 511 then 0 else 1)

  Fills-last :
      (fuel j k count buf_len : ℕ) (c : Cursor) (mem : PrpMem)
      → k < 511
      → 0 < buf_len
      → buf_len ≤ 4096
      → Fills (suc fuel) 0 j k count buf_len c mem (c.dma_addr ∷ [])
  Fills-last fuel j k count buf_len c mem lt pos short =
      let same : count + 1 ≡ count + 1 + links_in j k 0 = omega arith in
      (
        write_prp mem j k c.dma_addr,
        fill_last fuel dma j k count buf_len c mem pos lt short
            ∙ ap (filled (write_prp mem j k c.dma_addr)) same,
        IsLaid-one dma j k c.dma_addr mem lt,
      )

  Fills-full :
      (fuel m j k count buf_len : ℕ) (c : Cursor) (mem : PrpMem) (addrs : List ℕ)
      → ¬ (k < 511)
      → k ≤ 511
      → m * 4096 < buf_len
      → page_addrs m c ≡ some addrs
      → Fills fuel m
          (j + 1)
          0
          (count + 1)
          buf_len
          c
          (write_prp mem j 511 (get_or dma (j + 1) 0))
          addrs
      → Fills (suc fuel) m j k count buf_len c mem addrs
  Fills-full fuel m j k count buf_len c mem addrs full le lo e rest =
      let at : 511 ≡ k = omega arith in
      subst (λ q. Fills (suc fuel) m j q count buf_len c mem addrs) at
        (Fills-link fuel m j count buf_len c mem addrs (omega arith)
          (omega (arith, length-page_addrs m c e)) rest)

  Fills-all :
      (fuel m j k count buf_len : ℕ) (c : Cursor) (mem : PrpMem) (addrs : List ℕ)
      → k ≤ 511
      → m * 4096 < buf_len
      → buf_len ≤ suc m * 4096
      → page_addrs m c ≡ some addrs
      → Enough fuel m k
      → Fills fuel m j k count buf_len c mem addrs
  Fills-all zero m j k count buf_len c mem addrs le lo hi e enough = absurd (ground arith)
  Fills-all (suc fuel) zero j k count buf_len c mem addrs le lo hi e enough = elim (dec_lt k 511) [
    | no full ↦ Fills-full fuel zero j k count buf_len c mem addrs full le lo e (
        Fills-all fuel zero (j + 1) 0 (count + 1) buf_len c
          (write_prp mem j 511 (get_or dma (j + 1) 0)) addrs (omega arith) lo hi e (ground arith))
    | yes lt ↦
        subst (Fills (suc fuel) 0 j k count buf_len c mem) (page_addrs-zero c e)
          (Fills-last fuel j k count buf_len c mem lt (omega arith) (omega arith))
  ]
  Fills-all (suc fuel) (suc m) j k count buf_len c mem addrs le lo hi e enough =
      elim (dec_lt k 511) [
        | no full ↦ Fills-full fuel (suc m) j k count buf_len c mem addrs full le lo e (
            Fills-all fuel (suc m) (j + 1) 0 (count + 1) buf_len c
              (write_prp mem j 511 (get_or dma (j + 1) 0)) addrs (omega arith) lo hi e
              (ground arith))
        | yes lt ↦
            let (c', rest, whole, go, e', cons) = page_addrs-suc m c e in
            subst (Fills (suc fuel) (suc m) j k count buf_len c mem) (sym cons) (
              Fills-entry fuel m j k count buf_len c c' mem rest lt (omega arith) whole go (
                Fills-all fuel m j (k + 1) (count + 1) (buf_len - 4096) c'
                  (write_prp mem j k c.dma_addr) rest (omega arith) (omega arith) (omega arith) e'
                  (ground arith)))
      ]

-- The loop of `dnvme_setup_prps`, started at the first page of a list with `pg_oft` 0 on `m + 1`
-- pages of data, the last of which may be a part, over a scatterlist of whole pages, ends on
-- fuel twice the pages and one more. It writes the page addresses in order, 511 to a page, and
-- in the last slot of each page that is passed the address of the next; `nr_entry` counts both;
-- a page that holds neither is not touched.
pub fill_prps-IsLaid :
    (m buf_len : ℕ) (dma : List ℕ) (c : Cursor) (addrs : List ℕ) (mem : PrpMem)
    → m * 4096 < buf_len
    → buf_len ≤ suc m * 4096
    → page_addrs m c ≡ some addrs
    → (mem' : PrpMem) × (fill_prps (2 * suc m + 1) dma 0 0 0 buf_len 0 c mem
        ≡ filled mem' (suc m + m / 511))
      × IsLaid dma addrs 0 0 mem mem'
fill_prps-IsLaid m buf_len dma c addrs mem lo hi e =
    let (mem', e', laid) =
      Fills-all dma (2 * suc m + 1) m 0 0 0 buf_len c mem addrs (omega arith) lo hi e
        (ground arith) in
    let same : 0 + suc m + links_in 0 0 m ≡ suc m + m / 511 = omega arith in
    (mem', e' ∙ ap (filled mem') same, laid)
