-- ===== src/Crc/Table.antt =====
-- The table-driven loop of lib/crc/crc.c against the division of the message bit for bit.
use Prim.Native.Nat.{bit_xor}
use native.Mathlib.Nat.{
  mod-lt, mod-eq_of_lt, div-add-mod', mul-add-mod_self_right, div-lt_iff_lt-mul,
}
use dnvme.Base.{
  ℕ, zero, suc, ◌+◌, ◌*◌, ◌/◌, ◌%◌, ◌<◌, ◌≡◌, refl, sym, ap, ap₂, ◌∙◌, arith, List, [], ◌∷◌, ◌++◌,
  get_or, All, Bool, true, false, ltb, ltb→lt, ◌&&◌, if-elim, ◌⊎◌, inl, inr, ◌==◌, not, ◌||◌,
}
use dnvme.Crc.Xor.{power, bit_xor-zero, zero-bit_xor}
use dnvme.Crc.Round.{split_at, power-pos, bit_rounds-bit_xor, bit_rounds-shift}
use dnvme.Crc.Serial.{divide_bit, divide_bits, divide_bits-bound, bits_of, bit_rounds-divide}
use dnvme.Crc.{
  bit_rounds, table_from, init_table, reverse_8bits, Config, Instance, data_byte, table_round,
  table_rounds, prepare_table, finish_crc, crc_calculate,
}

-- The bits of the message: those of its bytes one after the other, each byte reversed where the
-- configuration asks for it.
unfoldable pub message_bits : Bool → List ℕ → List ℕ
unfolding data_byte bits_of
message_bits refin [] = []
message_bits refin (d ∷ ds) = bits_of 8 (data_byte refin d) ++ message_bits refin ds

-- The table is not made yet, or the one of the polynomial noted with it.
abbrev pub IsOwnTable : ℕ → Instance → Type 0
IsOwnTable m inst = (inst.poly ≡ 0) ⊎ (inst.table ≡ init_table m inst.poly)

get_or-table_from :
    (m poly n i k : ℕ)
    → k < n
    → get_or (table_from m poly n i) k 0 ≡ bit_rounds m poly 8 ((i + k) * power m)
unfolding table_from
get_or-table_from m poly zero i k p = absurd (omega arith)
get_or-table_from m poly (suc n) i zero p =
    let at : i ≡ i + 0 = omega arith in ap (λ j. bit_rounds m poly 8 (j * power m)) at
get_or-table_from m poly (suc n) i (suc k) p =
    let at : suc i + k ≡ i + suc k = omega arith in
    get_or-table_from m poly n (suc i) k (omega arith)
    ∙ ap (λ j. bit_rounds m poly 8 (j * power m)) at

-- A test that holds of all numbers below a bound.
holds_below : (ℕ → Bool) → ℕ → Bool
holds_below f zero = true
holds_below f (suc n) = f n && holds_below f n

holds_below-at : (f : ℕ → Bool) (n i : ℕ) → holds_below f n ≡ true → i < n → f i ≡ true
unfolding holds_below
holds_below-at f zero i h p = absurd (omega arith)
holds_below-at f (suc n) i h p = ground (arith, holds_below-at f n i)

reverse_8bits-bound : (d : ℕ) → d < 256 → reverse_8bits d < 256
unfolding reverse_8bits holds_below
reverse_8bits-bound d p =
    ltb→lt (reverse_8bits d) 256 (holds_below-at (λ i. ltb (reverse_8bits i) 256) 256 d refl p)

data_byte-bound : (refin : Bool) (d : ℕ) → d < 256 → data_byte refin d < 256
unfolding data_byte
data_byte-bound true d p = reverse_8bits-bound d p
data_byte-bound false d p = p

-- A byte that is added above the lower bits of a word.
join_word :
    (m r d : ℕ)
    → bit_xor (bit_xor (r / power m) d * power m) (r % power m) ≡ bit_xor r (d * power m)
join_word m r d =
    let upper = r / power m in
    let lower = r % power m in
    let cut : r ≡ upper * power m + lower = sym (div-add-mod' r (power m)) in
    let low : lower < power m = mod-lt r (power-pos m) in
    let (joined, _) = split_at m (power m) refl (bit_xor upper d) 0 0 lower (power-pos m) low in
    let (added, _) = split_at m (power m) refl upper d lower 0 low (power-pos m) in
    let flat : (x : ℕ) → x * power m + 0 ≡ x * power m = λ x. omega arith in
    ap₂ bit_xor (sym (flat (bit_xor upper d))) (omega arith)
    ∙ joined
    ∙ ap₂ (λ a b. a * power m + b) (bit_xor-zero (bit_xor upper d))
        (zero-bit_xor lower ∙ sym (bit_xor-zero lower))
    ∙ sym added
    ∙ ap₂ bit_xor (sym cut) (flat d)

-- The shift by eight bits keeps the lower bits.
shift_word : (m r : ℕ) → r * 256 % (256 * power m) ≡ 256 * (r % power m)
shift_word m r =
    let upper = r / power m in
    let lower = r % power m in
    let cut : upper * power m + lower ≡ r = div-add-mod' r (power m) in
    let low : lower < power m = mod-lt r (power-pos m) in
    let moved : r * 256 ≡ upper * (256 * power m) + 256 * lower = grind arith in
    ap (λ w. w % (256 * power m)) moved
    ∙ mul-add-mod_self_right upper (256 * power m) (256 * lower)
    ∙ mod-eq_of_lt (omega arith)

-- Taking the entry of the upper eight bits is dividing for eight bits.
table_round-divides :
    (m poly r d : ℕ)
    → poly < 256 * power m
    → r < 256 * power m
    → d < 256
    → table_round m (init_table m poly) r d ≡ bit_rounds m poly 8 (bit_xor r (d * power m))
unfolding table_round init_table
table_round-divides m poly r d h p q =
    let upper = r / power m in
    let lower = r % power m in
    let low : lower < power m = mod-lt r (power-pos m) in
    let high : upper < 256 = (div-lt_iff_lt-mul (power-pos m)).1 p in
    let entry : bit_xor upper d < 256 = (split_at 8 256 (omega arith) 0 0 upper d high q).1 in
    let fits : bit_xor upper d * power m < 256 * power m = grind (arith, power-pos m) in
    let shifted : 256 * lower ≡ bit_rounds m poly 8 lower =
      sym (bit_rounds-shift m poly 8 lower (omega arith)) in
    ap₂ bit_xor (get_or-table_from m poly 256 0 (bit_xor upper d) entry) (shift_word m r ∙ shifted)
    ∙ ap (λ i. bit_xor (bit_rounds m poly 8 (i * power m)) (bit_rounds m poly 8 lower))
        (omega arith)
    ∙ sym (bit_rounds-bit_xor m poly 8 (bit_xor upper d * power m) lower h fits (omega arith))
    ∙ ap (bit_rounds m poly 8) (join_word m r d)

divide_bits-append :
    (m poly : ℕ) (front bs : List ℕ) (r : ℕ)
    → divide_bits m poly (front ++ bs) r ≡ divide_bits m poly bs (divide_bits m poly front r)
unfolding divide_bits
divide_bits-append m poly [] bs r = refl
divide_bits-append m poly (a ∷ front) bs r =
    divide_bits-append m poly front bs (divide_bit m poly a r)

-- Each byte, by the table, is eight bits of the message.
table_rounds-divide :
    (m poly : ℕ) (refin : Bool) (ds : List ℕ) (r : ℕ)
    → poly < 256 * power m
    → r < 256 * power m
    → All (λ d. d < 256) ds
    → table_rounds m (init_table m poly) refin ds r ≡ divide_bits m poly (message_bits refin ds) r
unfolding table_rounds message_bits divide_bits
table_rounds-divide m poly refin [] r h p q = refl
table_rounds-divide m poly refin (d ∷ ds) r h p (q, qs) =
    let byte = data_byte refin d in
    let small = data_byte-bound refin d q in
    let bits = bits_of 8 byte in
    let step =
      table_round-divides m poly r byte h p small
      ∙ bit_rounds-divide m poly 8 (power m) byte r (omega arith) small h p in
    ap (table_rounds m (init_table m poly) refin ds) step
    ∙ table_rounds-divide m poly refin ds (divide_bits m poly bits r) h
        (divide_bits-bound m poly bits r h p) qs
    ∙ sym (divide_bits-append m poly bits (message_bits refin ds) r)

prepare_table-IsMade :
    (m : ℕ) (inst : Instance) (poly : ℕ)
    → IsOwnTable m inst
    → ((prepare_table m inst poly).poly ≡ poly)
      × ((prepare_table m inst poly).table ≡ init_table m poly)
unfolding prepare_table
prepare_table-IsMade m inst poly own =
    if-elim (λ (i : Instance). (i.poly ≡ poly) × (i.table ≡ init_table m poly))
      (inst.poly == 0 || not (inst.poly == poly)) (λ e. (refl, refl))
      (λ e.
        let same : inst.poly ≡ poly = ground arith in
        let used : ¬ (inst.poly ≡ 0) = ground arith in
        (same, kept own used ∙ ap (init_table m) same))
  where
    kept : IsOwnTable m inst → ¬ (inst.poly ≡ 0) → inst.table ≡ init_table m inst.poly
    kept (inl e) n = absurd (n e)
    kept (inr t) n = t

-- Let the table of the instance be not made yet or that of its polynomial, and let the polynomial, the
-- initial value and the data keep to the width of 8 + `m` bits and to bytes. The table-driven check
-- then gives the remainder that dividing the message bit for bit leaves, finished in the same way, and
-- the instance holds the table of the polynomial of the configuration.
pub crc_calculate-divides :
    (m : ℕ) (reverse : ℕ → ℕ) (inst : Instance) (cfg : Config) (bytes : List ℕ)
    → IsOwnTable m inst
    → cfg.poly < 256 * power m
    → cfg.init < 256 * power m
    → All (λ d. d < 256) bytes
    → ((crc_calculate m reverse inst cfg bytes).0
        ≡ finish_crc reverse cfg (divide_bits m cfg.poly (message_bits cfg.refin bytes) cfg.init))
      × ((crc_calculate m reverse inst cfg bytes).1.poly ≡ cfg.poly)
      × ((crc_calculate m reverse inst cfg bytes).1.table ≡ init_table m cfg.poly)
unfolding crc_calculate
crc_calculate-divides m reverse inst cfg bytes own h p q =
    let (noted, made) = prepare_table-IsMade m inst cfg.poly own in
    (
      ap (λ t. finish_crc reverse cfg (table_rounds m t cfg.refin bytes cfg.init)) made
          ∙ ap (finish_crc reverse cfg)
              (table_rounds-divide m cfg.poly cfg.refin bytes cfg.init h p q),
      noted,
      made,
    )
