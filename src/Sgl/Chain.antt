-- ===== src/Sgl/Chain.antt =====
-- modules/dnvme/cmd.c: the loop of `dnvme_cmd_setup_sgl` that writes the descriptors.
use dnvme.Base.{
  ℕ, zero, suc, ◌+◌, ◌*◌, ◌/◌, ◌≤◌, ◌<◌, ◌≡◌, refl, ◌∙◌, some, List, [], ◌∷◌, get_or, length, ◌==◌,
  if◌then◌else◌, arith,
}
use mathlib.Core.Path.{subst}
use native.Mathlib.Decide.{dec_lt}
use dnvme.Sgl.{DescEntry, SglMem, write_sgl, desc_of, sgl_set_seg, fill_sgl, nr_sgl_segments}
use dnvme.Sgl.Segments.{IsSegmented, IsSegmented-nil, IsSegmented-cons, IsSegmented-link}

module _ (fuel : ℕ) (dma : List ℕ) (j k : ℕ) (e : DescEntry) (es : List DescEntry)
    (mem : SglMem) where
  pub fill_link :
      k ≡ 255
      → fill_sgl (suc fuel) dma j k (e ∷ es) mem
        ≡ fill_sgl fuel dma
            (j + 1)
            0
            (e ∷ es)
            (write_sgl mem j k (sgl_set_seg (get_or dma (j + 1) 0) (length (e ∷ es))))
  unfolding fill_sgl
  fill_link last = ground arith

  pub fill_entry :
      k < 255
      → fill_sgl (suc fuel) dma j k (e ∷ es) mem
        ≡ fill_sgl fuel dma j (k + 1) es (write_sgl mem j k (desc_of (mem j k) e))
  unfolding fill_sgl
  fill_entry lt = ground arith

pub fill_nil :
    (fuel : ℕ) (dma : List ℕ) (j k : ℕ) (mem : SglMem)
    → fill_sgl (suc fuel) dma j k [] mem ≡ some mem
unfolding fill_sgl
fill_nil fuel dma j k mem = refl

abbrev pub Fills : ℕ → List ℕ → ℕ → ℕ → List DescEntry → SglMem → Type 0
Fills fuel dma j k es old =
    (mem : SglMem) × (fill_sgl fuel dma j k es old ≡ some mem)
    × IsSegmented dma es (j * 255 + k) j old mem

pub Fills-all :
    (fuel : ℕ) (dma : List ℕ) (j k : ℕ) (es : List DescEntry) (old : SglMem)
    → k ≤ 255
    → 2 * length es + (if k == 255 then 2 else 1) ≤ fuel
    → Fills fuel dma j k es old
Fills-all zero dma j k es old le enough = absurd (ground arith)
Fills-all (suc fuel) dma j k [] old le enough =
    (old, fill_nil fuel dma j k old, IsSegmented-nil dma j k old le)
Fills-all (suc fuel) dma j k (e ∷ es) old le enough = elim (dec_lt k 255) [
  | yes lt ↦
      let (mem, run, rest) =
        Fills-all fuel dma j (k + 1) es (write_sgl old j k (desc_of (old j k) e)) (omega arith)
          (ground arith) in
      (
        mem,
        fill_entry fuel dma j k e es old lt ∙ run,
        IsSegmented-cons dma e es j k old mem lt rest,
      )
  | no full ↦
      let last : 255 ≡ k = omega arith in
      let (mem, run, rest) =
        Fills-all fuel dma (j + 1) 0 (e ∷ es)
          (write_sgl old j 255 (sgl_set_seg (get_or dma (j + 1) 0) (length (e ∷ es)))) (omega arith)
          (ground arith) in
      subst (λ q. Fills (suc fuel) dma j q (e ∷ es) old) last
        (
          mem,
          fill_link fuel dma j 255 e es old refl ∙ run,
          IsSegmented-link dma (e ∷ es) j old mem rest,
        )
]

-- The descriptor loop of `dnvme_cmd_setup_sgl` ends, for every list of entries, on fuel twice
-- its length and one more. The descriptors stand in order, 255 to a page, the last slot of each
-- page that is passed describes the next segment with the number of descriptors left for it, and
-- every descriptor lies in the pages that were allocated.
pub fill_sgl-IsSegmented :
    (dma : List ℕ) (es : List DescEntry) (old : SglMem)
    → (mem : SglMem) × (fill_sgl (2 * length es + 1) dma 0 0 es old ≡ some mem)
      × IsSegmented dma es 0 0 old mem
      × ((i : ℕ) → i < length es → i / 255 < nr_sgl_segments (length es))
unfolding nr_sgl_segments
fill_sgl-IsSegmented dma es old =
    let (mem, run, laid) =
      Fills-all (2 * length es + 1) dma 0 0 es old (omega arith) (ground arith) in
    (mem, run, laid, λ i h. omega arith)
