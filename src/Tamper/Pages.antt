-- ===== src/Tamper/Pages.antt =====
-- The loops over pages as sequences of slots.
use native.Mathlib.Decide.{dec_le}
use native.Mathlib.Nat.{mul-add-div_right, div-eq_of_lt, mul-add-mod_self_right, mod-eq_of_lt}
use dnvme.Base.{
  ℕ, zero, suc, ◌+◌, ◌-◌, ◌*◌, ◌/◌, ◌%◌, ◌≤◌, ◌<◌, ◌≡◌, refl, sym, ap, ap₂, ◌∙◌, true, false, List,
  [], ◌∷◌, ◌++◌, leb, if◌then◌else◌, if-elim, arith,
}
use dnvme.Tamper.{fetch_row, fetch_pages}

-- `n` slots of a page from slot `j` on.
abbrev pub slots_from {ℓ} : {A : Type ℓ} → (ℕ → A) → ℕ → ℕ → List A
slots_from ptr j zero = []
slots_from ptr j (suc n) = ptr j ∷ slots_from ptr (suc j) n

module _ {ℓ} {A : Type ℓ} (ptr : ℕ → A) (nr_entry : ℕ) where
  fetch_row-ends :
      (n j cnt : ℕ)
      → cnt < nr_entry
      → nr_entry ≤ cnt + n
      → fetch_row n ptr j cnt nr_entry ≡ (slots_from ptr j (nr_entry - cnt), nr_entry, true)
  unfolding fetch_row
  fetch_row-ends zero j cnt lt le = absurd (omega arith)
  fetch_row-ends (suc n) j cnt lt le =
      if-elim (λ r. r ≡ (slots_from ptr j (nr_entry - cnt), nr_entry, true))
        (leb nr_entry (suc cnt))
        (λ last.
          let left : 1 ≡ nr_entry - cnt = ground arith in
          let at : suc cnt ≡ nr_entry = ground arith in
          ap₂ (λ k c. (slots_from ptr j k, c, true)) left at)
        (λ more.
          let before : suc cnt < nr_entry = ground arith in
          let left : suc (nr_entry - suc cnt) ≡ nr_entry - cnt = omega arith in
          ap (λ r. (ptr j ∷ r.0, r.1, r.2))
            (fetch_row-ends n (suc j) (suc cnt) before (omega arith))
          ∙ ap (λ k. (slots_from ptr j k, nr_entry, true)) left)

  fetch_row-passes :
      (n j cnt : ℕ)
      → cnt + n < nr_entry
      → fetch_row n ptr j cnt nr_entry ≡ (slots_from ptr j n, cnt + n, false)
  unfolding fetch_row
  fetch_row-passes zero j cnt lt =
      let at : cnt ≡ cnt + 0 = omega arith in ap (λ c. ([], c, false)) at
  fetch_row-passes (suc n) j cnt lt =
      if-elim (λ r. r ≡ (ptr j ∷ slots_from ptr (suc j) n, cnt + suc n, false))
        (leb nr_entry (suc cnt)) (λ last. absurd (ground arith))
        (λ more.
          let at : suc cnt + n ≡ cnt + suc n = omega arith in
          ap (λ r. (ptr j ∷ r.0, r.1, r.2)) (fetch_row-passes n (suc j) (suc cnt) (omega arith))
          ∙ ap (λ c. (ptr j ∷ slots_from ptr (suc j) n, c, false)) at)

-- The first `n` slots from slot `k` on of pages of `width` slots, counted through.
abbrev pub flat_from {ℓ} : {A : Type ℓ} → ℕ → (ℕ → ℕ → A) → ℕ → ℕ → List A
flat_from width mem k zero = []
flat_from width mem k (suc n) = mem (k / width) (k % width) ∷ flat_from width mem (suc k) n

module _ {ℓ} {A : Type ℓ} (width : ℕ) (mem : ℕ → ℕ → A) where
  flat_from-row :
      (n i j : ℕ) → j + n ≤ width → flat_from width mem (i * width + j) n ≡ slots_from (mem i) j n
  flat_from-row zero i j le = refl
  flat_from-row (suc n) i j le =
      let within : j < width = omega arith in
      let page : (i * width + j) / width ≡ i =
        mul-add-div_right (omega arith) i j ∙ omega (arith, div-eq_of_lt within) in
      let index : (i * width + j) % width ≡ j =
        mul-add-mod_self_right i width j ∙ mod-eq_of_lt within in
      let next : suc (i * width + j) ≡ i * width + suc j = omega arith in
      ap₂ (λ p q. mem p q ∷ flat_from width mem (suc (i * width + j)) n) page index
      ∙ ap (λ k. mem i j ∷ flat_from width mem k n) next
      ∙ ap (λ l. mem i j ∷ l) (flat_from-row n i (suc j) (omega arith))

  flat_from-append :
      (m n k : ℕ)
      → flat_from width mem k m ++ flat_from width mem (k + m) n ≡ flat_from width mem k (m + n)
  flat_from-append zero n k =
      let at : k + 0 ≡ k = omega arith in
      let all : n ≡ 0 + n = omega arith in
      ap (λ k. flat_from width mem k n) at ∙ ap (flat_from width mem k) all
  flat_from-append (suc m) n k =
      let at : k + suc m ≡ suc k + m = omega arith in
      let all : suc (m + n) ≡ suc m + n = omega arith in
      ap (λ l. mem (k / width) (k % width) ∷ l)
        (ap (λ k'. flat_from width mem (suc k) m ++ flat_from width mem k' n) at
          ∙ flat_from-append m n (suc k))
      ∙ ap (flat_from width mem k) all

  flat_from-page :
      (i n : ℕ) → n ≤ width → slots_from (mem i) 0 n ≡ flat_from width mem (i * width) n
  flat_from-page i n le =
      let at : i * width + 0 ≡ i * width = omega arith in
      sym (flat_from-row n i 0 (omega arith)) ∙ ap (λ k. flat_from width mem k n) at

  -- Pages that have room for the entries are read through, slot for slot.
  pub fetch_pages-IsFlat :
      (pages i cnt nr_entry : ℕ)
      → cnt < nr_entry
      → nr_entry ≤ cnt + pages * width
      → fetch_pages width pages mem i cnt nr_entry
        ≡ flat_from width mem (i * width) (nr_entry - cnt)
  unfolding fetch_pages
  fetch_pages-IsFlat zero i cnt nr_entry lt le = absurd (omega arith)
  fetch_pages-IsFlat (suc pages) i cnt nr_entry lt le = elim (dec_le nr_entry (cnt + width)) [
    | yes last ↦
        ap (λ r. if r.2 then r.0 else r.0 ++ fetch_pages width pages mem (suc i) r.1 nr_entry)
          (fetch_row-ends (mem i) nr_entry width 0 cnt lt last)
        ∙ flat_from-page i (nr_entry - cnt) (omega arith)
    | no more ↦
        let passes : cnt + width < nr_entry = omega arith in
        let room : suc pages * width ≡ width + pages * width = grind arith in
        let base : suc i * width ≡ i * width + width = grind arith in
        let all : width + (nr_entry - (cnt + width)) ≡ nr_entry - cnt = omega arith in
        ap (λ r. if r.2 then r.0 else r.0 ++ fetch_pages width pages mem (suc i) r.1 nr_entry)
          (fetch_row-passes (mem i) nr_entry width 0 cnt passes)
        ∙ ap₂ ◌++◌ (flat_from-page i width (omega arith)) (
            fetch_pages-IsFlat pages (suc i) (cnt + width) nr_entry passes (omega arith)
            ∙ ap (λ k. flat_from width mem k (nr_entry - (cnt + width))) base)
        ∙ flat_from-append width (nr_entry - (cnt + width)) (i * width)
        ∙ ap (flat_from width mem (i * width)) all
  ]
