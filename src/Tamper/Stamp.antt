-- ===== src/Tamper/Stamp.antt =====
-- The loops that write to the pages of a PRP list.
use native.Mathlib.Decide.{dec_le}
use dnvme.Base.{
  ℕ, zero, suc, ◌+◌, ◌*◌, ◌≤◌, ◌<◌, ◌≡◌, refl, sym, ap, ◌∙◌, Bool, true, false, ◌&&◌, leb, ltb,
  if◌then◌else◌, if-elim, arith,
}
use dnvme.Prp.{PrpMem, write_prp}
use dnvme.Tamper.{modify_row, modify_pages}

-- Pages of 512 slots, the slots from number `lo` to before `hi` replaced by the entries of their numbers.
abbrev pub stamp : (ℕ → ℕ) → PrpMem → ℕ → ℕ → PrpMem
stamp entry mem lo hi p q =
    if ltb q 512 && (leb lo (p * 512 + q) && ltb (p * 512 + q) hi)
    then entry (p * 512 + q)
    else mem p q

module _ (entry : ℕ → ℕ) (nr_entry : ℕ) where
  -- A slot that is written, then the ones behind it.
  stamp-step :
      (mem : PrpMem) (i j cnt hi p q : ℕ)
      → cnt ≡ i * 512 + j
      → j < 512
      → cnt < hi
      → stamp entry (write_prp mem i j (entry cnt)) (suc cnt) hi p q ≡ stamp entry mem cnt hi p q
  unfolding write_prp
  stamp-step mem i j cnt hi p q e lt le = ground arith

  stamp-last :
      (mem : PrpMem) (i j cnt p q : ℕ)
      → cnt ≡ i * 512 + j
      → j < 512
      → write_prp mem i j (entry cnt) p q ≡ stamp entry mem cnt (suc cnt) p q
  unfolding write_prp
  stamp-last mem i j cnt p q e lt = ground arith

  -- A row that reaches `nr_entry`, and one that does not.
  Ends : PrpMem → ℕ → PrpMem × ℕ × Bool → Type 0
  Ends mem cnt r = ((p q : ℕ) → r.0 p q ≡ stamp entry mem cnt nr_entry p q) × (r.2 ≡ true)

  modify_row-Ends :
      (n i j cnt : ℕ) (mem : PrpMem)
      → cnt ≡ i * 512 + j
      → j + n ≡ 512
      → cnt < nr_entry
      → nr_entry ≤ cnt + n
      → Ends mem cnt (modify_row n entry mem i j cnt nr_entry)
  unfolding modify_row Ends
  modify_row-Ends zero i j cnt mem e w lt le = absurd (omega arith)
  modify_row-Ends (suc n) i j cnt mem e w lt le =
      if-elim (Ends mem cnt) (leb nr_entry (suc cnt))
        (λ last.
          let at : nr_entry ≡ suc cnt = ground arith in
          (
            (λ p q.
                stamp-last mem i j cnt p q e (omega arith)
                ∙ ap (λ hi. stamp entry mem cnt hi p q) (sym at)),
            refl,
          ))
        (λ more.
          let before : suc cnt < nr_entry = ground arith in
          let mem' = write_prp mem i j (entry cnt) in
          let (all, over) =
            modify_row-Ends n i (suc j) (suc cnt) mem' (omega arith) (omega arith) before
              (omega arith) in
          ((λ p q. all p q ∙ stamp-step mem i j cnt nr_entry p q e (omega arith) lt), over))

  Passes : PrpMem → ℕ → ℕ → PrpMem × ℕ × Bool → Type 0
  Passes mem cnt n r =
      ((p q : ℕ) → r.0 p q ≡ stamp entry mem cnt (cnt + n) p q) × (r.1 ≡ cnt + n) × (r.2 ≡ false)

  stamp-none : (mem : PrpMem) (cnt p q : ℕ) → mem p q ≡ stamp entry mem cnt (cnt + 0) p q
  stamp-none mem cnt p q = ground arith

  modify_row-Passes :
      (n i j cnt : ℕ) (mem : PrpMem)
      → cnt ≡ i * 512 + j
      → j + n ≡ 512
      → cnt + n < nr_entry
      → Passes mem cnt n (modify_row n entry mem i j cnt nr_entry)
  unfolding modify_row Passes
  modify_row-Passes zero i j cnt mem e w lt = (stamp-none mem cnt, omega arith, refl)
  modify_row-Passes (suc n) i j cnt mem e w lt =
      if-elim (Passes mem cnt (suc n)) (leb nr_entry (suc cnt)) (λ last. absurd (ground arith))
        (λ more.
          let mem' = write_prp mem i j (entry cnt) in
          let (all, count, on) =
            modify_row-Passes n i (suc j) (suc cnt) mem' (omega arith) (omega arith)
              (omega arith) in
          let end : suc cnt + n ≡ cnt + suc n = omega arith in
          (
            (λ p q.
                all p q
                ∙ ap (λ hi. stamp entry mem' (suc cnt) hi p q) end
                ∙ stamp-step mem i j cnt (cnt + suc n) p q e (omega arith) (omega arith)),
            count ∙ end,
            on,
          ))

  stamp-append :
      (mem mem' : PrpMem) (lo mid p q : ℕ)
      → ((p q : ℕ) → mem' p q ≡ stamp entry mem lo mid p q)
      → lo ≤ mid
      → mid ≤ nr_entry
      → stamp entry mem' mid nr_entry p q ≡ stamp entry mem lo nr_entry p q
  stamp-append mem mem' lo mid p q h a b = ground (arith, h p q)

  -- A list with entries, in pages that have room for it: the slot of each entry holds the new one, and
  -- every other slot is as before.
  pub modify_pages-IsStamp :
      (pages i cnt : ℕ) (mem : PrpMem) (p q : ℕ)
      → cnt ≡ i * 512
      → cnt < nr_entry
      → nr_entry ≤ cnt + pages * 512
      → modify_pages 512 pages entry mem i cnt nr_entry p q ≡ stamp entry mem cnt nr_entry p q
  unfolding modify_pages Ends Passes
  modify_pages-IsStamp zero i cnt mem p q e lt le = absurd (omega arith)
  modify_pages-IsStamp (suc pages) i cnt mem p q e lt le =
      let row = modify_row 512 entry mem i 0 cnt nr_entry in
      let later = modify_pages 512 pages entry row.0 (suc i) row.1 nr_entry in
      elim (dec_le nr_entry (cnt + 512)) [
        | yes last ↦
            let (all, over) = modify_row-Ends 512 i 0 cnt mem (omega arith) refl lt last in
            ap (λ (b : Bool). (if b then row.0 else later) p q) over ∙ all p q
        | no more ↦
            let (all, count, on) =
              modify_row-Passes 512 i 0 cnt mem (omega arith) refl (omega arith) in
            ap (λ (b : Bool). (if b then row.0 else later) p q) on
            ∙ ap (λ c. modify_pages 512 pages entry row.0 (suc i) c nr_entry p q) count
            ∙ modify_pages-IsStamp pages (suc i) (cnt + 512) row.0 p q (omega arith) (omega arith)
                (omega arith)
            ∙ stamp-append mem row.0 cnt (cnt + 512) p q all (omega arith) (omega arith)
      ]
