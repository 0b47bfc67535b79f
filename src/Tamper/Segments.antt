-- ===== src/Tamper/Segments.antt =====
-- modules/dnvme/cmd.c: the loop of `dnvme_tamper_cmd_modify_sgl_seg`, whose test never fails.
use dnvme.Base.{
  ℕ, zero, suc, ◌+◌, ◌≤◌, ◌<◌, ◌≡◌, refl, sym, ◌∙◌, ◌&&◌, Option, none, some, leb, ltb, ◌==◌,
  if◌then◌else◌, if-elim, arith,
}
use native.Mathlib.Decide.{dec_lt}
use mathlib.Core.Path.{subst}
use dnvme.Device.{SglDesc, Prps}
use dnvme.Tamper.{write_desc, modify_seg, modify_sgl_seg}

abbrev SegMem : Type 0
SegMem = ℕ → ℕ → SglDesc

-- The first page, with the descriptors from number `lo` to before `hi` replaced.
abbrev pub stamp_first : (ℕ → SglDesc) → (ℕ → ℕ → SglDesc) → ℕ → ℕ → ℕ → ℕ → SglDesc
stamp_first desc mem lo hi p q = if (p == 0) && (leb lo q && ltb q hi) then desc q else mem p q

module _ (desc : ℕ → SglDesc) (nr_entry : ℕ) where
  modify_seg-leaves :
      (fuel j : ℕ) (mem : SegMem)
      → 256 < nr_entry
      → j ≤ 256
      → 256 < j + fuel
      → modify_seg fuel desc mem j nr_entry ≡ none
  unfolding modify_seg
  modify_seg-leaves zero j mem many le enough = absurd (omega arith)
  modify_seg-leaves (suc fuel) j mem many le enough =
      if-elim (λ r. r ≡ none) (leb 256 j) (λ e. refl)
        (λ inside.
          let before : suc j ≤ 256 = ground arith in
          if-elim (λ r. r ≡ none) (leb nr_entry (suc j)) (λ last. absurd (ground arith))
            (λ more.
              modify_seg-leaves fuel (suc j) (write_desc mem 0 j (desc j)) many before
                (omega arith)))

  Holds : SegMem → ℕ → Option SegMem → Type 0
  Holds mem j r =
      (mem' : SegMem) × (r ≡ some mem')
      × ((p q : ℕ) → mem' p q ≡ stamp_first desc mem j nr_entry p q)

  stamp_first-last :
      (mem : SegMem) (j p q : ℕ)
      → nr_entry ≡ suc j
      → write_desc mem 0 j (desc j) p q ≡ stamp_first desc mem j nr_entry p q
  unfolding write_desc
  stamp_first-last mem j p q e = ground arith

  stamp_first-step :
      (mem : SegMem) (j p q : ℕ)
      → j < nr_entry
      → stamp_first desc (write_desc mem 0 j (desc j)) (suc j) nr_entry p q
        ≡ stamp_first desc mem j nr_entry p q
  unfolding write_desc
  stamp_first-step mem j p q lt = ground arith

  modify_seg-Holds :
      (fuel j : ℕ) (mem : SegMem)
      → nr_entry ≤ 256
      → j < nr_entry
      → nr_entry ≤ j + fuel
      → Holds mem j (modify_seg fuel desc mem j nr_entry)
  unfolding modify_seg Holds
  modify_seg-Holds zero j mem few lt enough = absurd (omega arith)
  modify_seg-Holds (suc fuel) j mem few lt enough =
      if-elim (Holds mem j) (leb 256 j) (λ e. absurd (ground arith))
        (λ inside.
          if-elim (Holds mem j) (leb nr_entry (suc j))
            (λ last.
              let at : nr_entry ≡ suc j = ground arith in
              (write_desc mem 0 j (desc j), refl, λ p q. stamp_first-last mem j p q at))
            (λ more.
              let before : suc j < nr_entry = ground arith in
              let (mem', e, all) =
                modify_seg-Holds fuel (suc j) (write_desc mem 0 j (desc j)) few before
                  (omega arith) in
              (mem', e, λ p q. all p q ∙ stamp_first-step mem j p q lt)))

-- What a change of segments comes to.
abbrev pub Changes : (ℕ → SglDesc) → Prps → Option Prps → Type 0
Changes desc p none = 256 < p.nr_entry
Changes desc p (some p') =
    (p.nr_entry ≤ 256)
    × ((i j : ℕ) → p'.sgl_list i j ≡ stamp_first desc p.sgl_list 0 p.nr_entry i j)

-- What the pages come to is put back to the list.
abbrev put_mem : Prps → Option SegMem → Option Prps
put_mem p none = none
put_mem p (some mem) = some (record p { sgl_list = mem })

modify_sgl_seg-put :
    (desc : ℕ → SglDesc) (p : Prps) (r : Option SegMem)
    → 0 < p.nr_pages
    → modify_seg (suc p.nr_entry) desc p.sgl_list 0 p.nr_entry ≡ r
    → modify_sgl_seg desc p ≡ put_mem p r
unfolding modify_sgl_seg
modify_sgl_seg-put desc p none pages e = ground (arith, e)
modify_sgl_seg-put desc p (some mem) pages e = ground (arith, e)

-- The loop of `dnvme_tamper_cmd_modify_sgl_seg` over segments with pages and entries ends: for more than
-- 256 descriptors with a write behind the first page, and else with each descriptor in its slot of
-- the first page and all other slots as before.
pub modify_sgl_seg-Changes :
    (desc : ℕ → SglDesc) (p : Prps)
    → 0 < p.nr_pages
    → 0 < p.nr_entry
    → Changes desc p (modify_sgl_seg desc p)
unfolding Holds
modify_sgl_seg-Changes desc p pages entries = elim (dec_lt 256 p.nr_entry) [
  | yes many ↦
      let left =
        modify_seg-leaves desc p.nr_entry (suc p.nr_entry) 0 p.sgl_list many (omega arith)
          (omega arith) in
      subst (Changes desc p) (sym (modify_sgl_seg-put desc p none pages left)) many
  | no few ↦
      let (mem, e, all) =
        modify_seg-Holds desc p.nr_entry (suc p.nr_entry) 0 p.sgl_list (omega arith) entries
          (omega arith) in
      subst (Changes desc p) (sym (modify_sgl_seg-put desc p (some mem) pages e)) (omega arith, all)
]
