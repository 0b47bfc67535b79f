-- ===== src/Crc/Round.antt =====
-- The rounds of the inner loop as maps on words.
use Prim.Native.Nat.{bit_xor}
use native.Mathlib.Nat.{mod-eq_of_lt, mod-eq-sub-mod}
use mathlib.Core.Path.{subst}
use dnvme.Base.{
  ℕ, zero, suc, ◌+◌, ◌*◌, ◌≤◌, ◌<◌, ◌≡◌, refl, sym, ap, ap₂, ◌∙◌, arith, ◌/◌, ◌%◌, ◌-◌, if-elim,
  leb, Bool, true, false,
}
use dnvme.Crc.Xor.{
  power, bit_xor-step, bit_xor_comm, bit_xor-zero, bit_xor_assoc, bit_xor_self, bit_xor-split,
  zero-bit_xor,
}
use dnvme.Crc.{bit_round, bit_rounds}

-- The factors of two exclusive ors change places.
pub bit_xor-interchange :
    (a b c d : ℕ) → bit_xor (bit_xor a b) (bit_xor c d) ≡ bit_xor (bit_xor a c) (bit_xor b d)
bit_xor-interchange a b c d =
    bit_xor_assoc a b (bit_xor c d)
    ∙ ap (bit_xor a)
        (sym (bit_xor_assoc b c d) ∙ ap (λ x. bit_xor x d) (bit_xor_comm b c) ∙ bit_xor_assoc c b d)
    ∙ sym (bit_xor_assoc a c (bit_xor b d))

pub bit_xor-double : (x y : ℕ) → bit_xor (2 * x) (2 * y) ≡ 2 * bit_xor x y
bit_xor-double x y =
    let left : 2 * x / 2 ≡ x = omega arith in
    let right : 2 * y / 2 ≡ y = omega arith in
    let halves = ap₂ bit_xor left right in omega (arith, halves, bit_xor-step (2 * x) (2 * y))

-- Words of `k` bits stay words of `k` bits.
pub bit_xor-bound : (k x y : ℕ) → x < power k → y < power k → bit_xor x y < power k
bit_xor-bound k x y p q = (bit_xor-split k 0 0 x y p q).1

pub power_eight : (m : ℕ) → power (suc (suc (suc (suc (suc (suc (suc (suc m)))))))) ≡ 256 * power m
power_eight m = omega arith

pub power_seven : (m : ℕ) → power (suc (suc (suc (suc (suc (suc (suc m))))))) ≡ 128 * power m
power_seven m = omega arith

pub power-pos : (m : ℕ) → 1 ≤ power m
power-pos zero = omega arith
power-pos (suc m) = omega (arith, power-pos m)

-- The cut of two words at `n`, a power of two that is written out.
pub split_at :
    (k n : ℕ)
    → power k ≡ n
    → (a b x y : ℕ) → x < n
    → y < n
    → (bit_xor (a * n + x) (b * n + y) ≡ bit_xor a b * n + bit_xor x y) × (bit_xor x y < n)
split_at k n e =
    subst
      (λ n.
        (a b x y : ℕ)
        → x < n
        → y < n
        → (bit_xor (a * n + x) (b * n + y) ≡ bit_xor a b * n + bit_xor x y) × (bit_xor x y < n))
      e (bit_xor-split k)

-- What a round brings in: the polynomial for an upper bit that is set.
abbrev pub chosen : ℕ → ℕ → ℕ
chosen poly zero = 0
chosen poly (suc a) = poly

chosen-bit_xor :
    (poly a b : ℕ)
    → a < 2
    → b < 2
    → chosen poly (bit_xor a b) ≡ bit_xor (chosen poly a) (chosen poly b)
chosen-bit_xor poly zero zero p q = refl
chosen-bit_xor poly zero (suc zero) p q = sym (zero-bit_xor poly)
chosen-bit_xor poly (suc zero) zero p q = sym (bit_xor-zero poly)
chosen-bit_xor poly (suc zero) (suc zero) p q = sym (bit_xor_self poly)
chosen-bit_xor poly (suc (suc a)) b p q = absurd (omega arith)
chosen-bit_xor poly zero (suc (suc b)) p q = absurd (omega arith)
chosen-bit_xor poly (suc zero) (suc (suc b)) p q = absurd (omega arith)

module _ (m poly : ℕ) where
  -- A round of a word that is cut behind its upper bit.
  round_low : (x : ℕ) → x < 128 * power m → bit_round m poly x ≡ 2 * x
  unfolding bit_round
  round_low x p =
      if-elim (λ e. e ≡ 2 * x) (leb (128 * power m) x) (λ e. ground arith)
        (λ e. mod-eq_of_lt (omega arith))

  round_high :
      (x : ℕ) → x < 128 * power m → bit_round m poly (128 * power m + x) ≡ bit_xor (2 * x) poly
  unfolding bit_round
  round_high x p =
      let rest : 2 * (128 * power m + x) - 256 * power m ≡ 2 * x = omega arith in
      let shifted : 2 * (128 * power m + x) % (256 * power m) ≡ 2 * x =
        mod-eq-sub-mod (omega arith)
        ∙ ap (λ w. w % (256 * power m)) rest
        ∙ mod-eq_of_lt (omega arith) in
      if-elim (λ e. e ≡ bit_xor (2 * x) poly) (leb (128 * power m) (128 * power m + x))
        (λ e. ap (λ w. bit_xor w poly) shifted) (λ e. ground arith)

  pub round_cut :
      (a x : ℕ)
      → a < 2
      → x < 128 * power m
      → bit_round m poly (a * (128 * power m) + x) ≡ bit_xor (2 * x) (chosen poly a)
  round_cut zero x p q =
      let word : 0 * (128 * power m) + x ≡ x = omega arith in
      ap (bit_round m poly) word ∙ round_low x q ∙ sym (bit_xor-zero (2 * x))
  round_cut (suc zero) x p q =
      let word : 1 * (128 * power m) + x ≡ 128 * power m + x = omega arith in
      ap (bit_round m poly) word ∙ round_high x q
  round_cut (suc (suc a)) x p q = absurd (omega arith)

  pub cut_word :
      (r : ℕ)
      → r < 256 * power m
      → (a : ℕ) × (x : ℕ) × (r ≡ a * (128 * power m) + x) × (a < 2) × (x < 128 * power m)
  cut_word r p = cut_by (leb (128 * power m) r) refl
    where
      cut_by :
          (b : Bool)
          → leb (128 * power m) r ≡ b
          → (a : ℕ) × (x : ℕ) × (r ≡ a * (128 * power m) + x) × (a < 2) × (x < 128 * power m)
      cut_by true e =
          let big : 128 * power m ≤ r = ground arith in
          (1, r - 128 * power m, omega arith, omega arith, omega arith)
      cut_by false e =
          let small : r < 128 * power m = ground arith in (0, r, omega arith, omega arith, small)

  -- A round respects exclusive or.
  pub bit_round-bit_xor :
      (r s : ℕ)
      → r < 256 * power m
      → s < 256 * power m
      → bit_round m poly (bit_xor r s) ≡ bit_xor (bit_round m poly r) (bit_round m poly s)
  bit_round-bit_xor r s p q =
      let (a, x, er, pa, px) = cut_word r p in
      let (b, y, es, pb, py) = cut_word s q in
      let seven = suc (suc (suc (suc (suc (suc (suc m)))))) in
      let (whole, small) = split_at seven (128 * power m) (power_seven m) a b x y px py in
      let bit : bit_xor a b < 2 = (split_at 1 2 (omega arith) 0 0 a b pa pb).1 in
      ap (bit_round m poly) (ap₂ bit_xor er es ∙ whole)
      ∙ round_cut (bit_xor a b) (bit_xor x y) bit small
      ∙ ap₂ bit_xor (sym (bit_xor-double x y)) (chosen-bit_xor poly a b pa pb)
      ∙ bit_xor-interchange (2 * x) (2 * y) (chosen poly a) (chosen poly b)
      ∙ sym (
          ap₂ bit_xor (ap (bit_round m poly) er ∙ round_cut a x pa px)
            (ap (bit_round m poly) es ∙ round_cut b y pb py))

  -- A round keeps to the width.
  pub bit_round-bound :
      (r : ℕ) → poly < 256 * power m → r < 256 * power m → bit_round m poly r < 256 * power m
  bit_round-bound r h p =
      let (a, x, er, pa, px) = cut_word r p in
      let eight = suc (suc (suc (suc (suc (suc (suc (suc m))))))) in
      let brought : chosen poly a < 256 * power m = chosen-bound a in
      let value = ap (bit_round m poly) er ∙ round_cut a x pa px in
      let small =
        (split_at eight (256 * power m) (power_eight m) 0 0 (2 * x) (chosen poly a) (omega arith)
          brought).1 in
      omega (arith, value, small)
    where
      chosen-bound : (a : ℕ) → chosen poly a < 256 * power m
      chosen-bound zero = omega arith
      chosen-bound (suc a) = h

  -- So do the rounds of an entry.
  pub bit_rounds-bound :
      (n r : ℕ) → poly < 256 * power m → r < 256 * power m → bit_rounds m poly n r < 256 * power m
  unfolding bit_rounds
  bit_rounds-bound zero r h p = p
  bit_rounds-bound (suc n) r h p = bit_rounds-bound n (bit_round m poly r) h (bit_round-bound r h p)

  pub bit_rounds-bit_xor :
      (n r s : ℕ)
      → poly < 256 * power m
      → r < 256 * power m
      → s < 256 * power m
      → bit_rounds m poly n (bit_xor r s) ≡ bit_xor (bit_rounds m poly n r) (bit_rounds m poly n s)
  unfolding bit_rounds
  bit_rounds-bit_xor zero r s h p q = refl
  bit_rounds-bit_xor (suc n) r s h p q =
      ap (bit_rounds m poly n) (bit_round-bit_xor r s p q)
      ∙ bit_rounds-bit_xor n (bit_round m poly r) (bit_round m poly s) h (bit_round-bound r h p)
          (bit_round-bound s h q)

  -- While the upper bits are clear, the rounds only shift.
  pub bit_rounds-shift :
      (n x : ℕ) → power n * x < 256 * power m → bit_rounds m poly n x ≡ power n * x
  unfolding bit_rounds
  bit_rounds-shift zero x p = omega arith
  bit_rounds-shift (suc n) x p =
      let moved : power n * (2 * x) ≡ 2 * power n * x = grind arith in
      let least : 2 * x ≤ power n * (2 * x) = grind (arith, power-pos n) in
      ap (bit_rounds m poly n) (round_low x (omega (arith, moved, least)))
      ∙ bit_rounds-shift n (2 * x) (omega (arith, moved))
      ∙ moved
