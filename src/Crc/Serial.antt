-- ===== src/Crc/Serial.antt =====
-- The remainder of a message, bit for bit, and the rounds of a whole byte against it.
use Prim.Native.Nat.{bit_xor}
use native.Mathlib.Nat.{
  mod-lt, mod-eq_of_lt, div-add-mod', div-eq_of_lt, mul-add-mod_self_right, mul-add-div_right,
  div-lt_iff_lt-mul, mul-lt-mul_of_pos_right,
}
use dnvme.Base.{
  ℕ, zero, suc, ◌+◌, ◌*◌, ◌/◌, ◌%◌, ◌<◌, ◌≡◌, refl, sym, ap, ap₂, ◌∙◌, arith, List, [], ◌∷◌, Bool,
  true, false, ◌==◌, if◌then◌else◌,
}
use dnvme.Crc.Xor.{power, bit_xor_comm, bit_xor-zero, bit_xor_assoc}
use dnvme.Crc.Round.{
  chosen, cut_word, round_cut, split_at, power_seven, power_eight, power-pos, bit_xor-double,
}
use dnvme.Crc.{bit_round, bit_rounds}

-- The polynomial is taken off just where the upper bit of the remainder differs from the bit of the
-- message.
unfoldable pub divide_bit : ℕ → ℕ → ℕ → ℕ → ℕ
divide_bit m poly b r =
    if r / (128 * power m) == b
    then 2 * r % (256 * power m)
    else bit_xor (2 * r % (256 * power m)) poly

unfoldable pub divide_bits : ℕ → ℕ → List ℕ → ℕ → ℕ
unfolding divide_bit
divide_bits m poly [] r = r
divide_bits m poly (b ∷ bs) r = divide_bits m poly bs (divide_bit m poly b r)

-- The `n` bits of a number, the upper one first.
unfoldable pub bits_of : ℕ → ℕ → List ℕ
bits_of zero d = []
bits_of (suc n) d = d / power n ∷ bits_of n (d % power n)

chosen_if :
    (poly a b : ℕ) → a < 2 → b < 2 → chosen poly (bit_xor a b) ≡ (if a == b then 0 else poly)
chosen_if poly zero zero p q = refl
chosen_if poly zero (suc zero) p q = refl
chosen_if poly (suc zero) zero p q = refl
chosen_if poly (suc zero) (suc zero) p q = refl
chosen_if poly (suc (suc a)) b p q = absurd (omega arith)
chosen_if poly zero (suc (suc b)) p q = absurd (omega arith)
chosen_if poly (suc zero) (suc (suc b)) p q = absurd (omega arith)

taken_off :
    (t : Bool) (w poly : ℕ) → (if t then w else bit_xor w poly) ≡ bit_xor w (if t then 0 else poly)
taken_off true w poly = sym (bit_xor-zero w)
taken_off false w poly = refl

weigh : (b w c s : ℕ) → (b * w + c) * s ≡ b * (w * s) + c * s
weigh b w c s = grind arith

under_weight : (c w s h : ℕ) → c < w → w * s ≡ h → 0 < h → c * s < h
under_weight c w zero h p e q = absurd (omega arith)
under_weight c w (suc s) h p e q =
    let less : c * suc s < w * suc s = mul-lt-mul_of_pos_right p (omega arith) in
    omega (arith, less, e)

module _ (m poly : ℕ) where
  divide_cut :
      (a b y : ℕ)
      → a < 2
      → b < 2
      → y < 128 * power m
      → divide_bit m poly b (a * (128 * power m) + y) ≡ bit_xor (2 * y) (chosen poly (bit_xor a b))
  unfolding divide_bit
  divide_cut a b y p q h =
      let half = 128 * power m in
      let top : (a * half + y) / half ≡ a =
        mul-add-div_right (omega (arith, power-pos m)) a y ∙ omega (arith, div-eq_of_lt h) in
      let moved : 2 * (a * half + y) ≡ a * (256 * power m) + 2 * y = grind arith in
      let shifted : 2 * (a * half + y) % (256 * power m) ≡ 2 * y =
        ap (λ w. w % (256 * power m)) moved
        ∙ mul-add-mod_self_right a (256 * power m) (2 * y)
        ∙ mod-eq_of_lt (omega arith) in
      ap₂ (λ t w. if t == b then w else bit_xor w poly) top shifted
      ∙ taken_off (a == b) (2 * y) poly
      ∙ ap (bit_xor (2 * y)) (sym (chosen_if poly a b p q))

  -- A round of a word with more of the message below the bit that is taken.
  round_takes :
      (b x r : ℕ)
      → b < 2
      → x < 128 * power m
      → r < 256 * power m
      → bit_round m poly (bit_xor r (b * (128 * power m) + x))
        ≡ bit_xor (divide_bit m poly b r) (2 * x)
  round_takes b x r q h p =
      let (a, y, er, pa, py) = cut_word m poly r p in
      let seven = suc (suc (suc (suc (suc (suc (suc m)))))) in
      let (whole, small) = split_at seven (128 * power m) (power_seven m) a b y x py h in
      let bit : bit_xor a b < 2 = (split_at 1 2 (omega arith) 0 0 a b pa q).1 in
      let mask = chosen poly (bit_xor a b) in
      ap (bit_round m poly) (ap (λ w. bit_xor w (b * (128 * power m) + x)) er ∙ whole)
      ∙ round_cut m poly (bit_xor a b) (bit_xor y x) bit small
      ∙ ap (λ w. bit_xor w mask) (sym (bit_xor-double y x))
      ∙ bit_xor_assoc (2 * y) (2 * x) mask
      ∙ ap (bit_xor (2 * y)) (bit_xor_comm (2 * x) mask)
      ∙ sym (bit_xor_assoc (2 * y) mask (2 * x))
      ∙ ap (λ w. bit_xor w (2 * x)) (sym (ap (divide_bit m poly b) er ∙ divide_cut a b y pa q py))

  pub divide_bit-bound :
      (b r : ℕ) → poly < 256 * power m → r < 256 * power m → divide_bit m poly b r < 256 * power m
  unfolding divide_bit
  divide_bit-bound b r h p =
      let eight = suc (suc (suc (suc (suc (suc (suc (suc m))))))) in
      let small : 2 * r % (256 * power m) < 256 * power m =
        mod-lt (2 * r) (omega (arith, power-pos m)) in
      bounded (r / (128 * power m) == b) small (
        (split_at eight (256 * power m) (power_eight m) 0 0 (2 * r % (256 * power m)) poly small
          h).1)
    where
      bounded :
          (t : Bool) {v w : ℕ}
          → v < 256 * power m
          → w < 256 * power m
          → (if t then v else w) < 256 * power m
      bounded true p q = p
      bounded false p q = q

  pub divide_bits-bound :
      (bs : List ℕ) (r : ℕ)
      → poly < 256 * power m
      → r < 256 * power m
      → divide_bits m poly bs r < 256 * power m
  unfolding divide_bits
  divide_bits-bound [] r h p = p
  divide_bits-bound (b ∷ bs) r h p =
      divide_bits-bound bs (divide_bit m poly b r) h (divide_bit-bound b r h p)

  -- The rounds of a number of `n` bits that is added at the upper end: `s` is the weight of its
  -- lowest bit.
  pub bit_rounds-divide :
      (n s d r : ℕ)
      → power n * s ≡ 256 * power m
      → d < power n
      → poly < 256 * power m
      → r < 256 * power m
      → bit_rounds m poly n (bit_xor r (d * s)) ≡ divide_bits m poly (bits_of n d) r
  unfolding bit_rounds divide_bits bits_of
  bit_rounds-divide zero s d r e q h p =
      let empty : d ≡ 0 = omega arith in
      let nothing : d * s ≡ 0 = ap (λ d. d * s) empty ∙ omega arith in
      ap (bit_xor r) nothing ∙ bit_xor-zero r
  bit_rounds-divide (suc n) s d r e q h p =
      let b = d / power n in
      let rest = d % power n in
      let cut : b * power n + rest ≡ d = div-add-mod' d (power n) in
      let low : rest < power n = mod-lt d (power-pos n) in
      let bit : b < 2 = (div-lt_iff_lt-mul (power-pos n)).1 (omega arith) in
      let half : power n * s ≡ 128 * power m = grind arith in
      let weighed : d * s ≡ b * (128 * power m) + rest * s =
        ap (λ d. d * s) (sym cut) ∙ weigh b (power n) rest s ∙ ap (λ w. b * w + rest * s) half in
      let under : rest * s < 128 * power m = grind (arith, low, half, power-pos m) in
      let doubled : 2 * (rest * s) ≡ rest * (2 * s) = grind arith in
      let weight : power n * (2 * s) ≡ 256 * power m = grind arith in
      ap (λ w. bit_rounds m poly n (bit_round m poly (bit_xor r w))) weighed
      ∙ ap (bit_rounds m poly n)
          (round_takes b (rest * s) r bit under p ∙ ap (bit_xor (divide_bit m poly b r)) doubled)
      ∙ bit_rounds-divide n (2 * s) rest (divide_bit m poly b r) weight low h
          (divide_bit-bound b r h p)
