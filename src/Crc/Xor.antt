-- ===== src/Crc/Xor.antt =====
-- Exclusive or of numbers: the laws that a cyclic redundancy check rests on.
use Prim.Native.Nat.{bit_xor, digits, differ, bit_xor-bitwise}
use dnvme.Base.{ℕ, zero, suc, ◌+◌, ◌*◌, ◌/◌, ◌%◌, ◌≤◌, ◌<◌, ◌≡◌, refl, sym, ap, ap₂, ◌∙◌, arith}

abbrev xor_of : ℕ → ℕ → ℕ → ℕ
xor_of fuel a b = digits (λ c. c) differ fuel a b

-- Any fuel from the first number on gives the same.
xor_of-fuel : (m n a b : ℕ) → a ≤ m → a ≤ n → xor_of m a b ≡ xor_of n a b
xor_of-fuel zero zero a b p q = refl
xor_of-fuel (suc m) n zero b p q = xor_of_zero n b
  where
    xor_of_zero : (n b : ℕ) → b ≡ xor_of n 0 b
    xor_of_zero zero b = refl
    xor_of_zero (suc n) b = refl
xor_of-fuel zero (suc n) zero b p q = refl
xor_of-fuel (suc m) (suc n) (suc a) b p q =
    let half = xor_of-fuel m n (suc a / 2) (b / 2) (omega arith) (omega arith) in
    omega (arith, half)
xor_of-fuel zero n (suc a) b p q = absurd (omega arith)
xor_of-fuel (suc m) zero (suc a) b p q = absurd (omega arith)

differ_digits : (x y : ℕ) → x < 2 → y < 2 → differ x y ≡ (x + y) % 2
differ_digits zero y p q = omega arith
differ_digits (suc zero) zero p q = refl
differ_digits (suc zero) (suc zero) p q = refl
differ_digits (suc (suc x)) y p q = absurd (omega arith)
differ_digits (suc zero) (suc (suc y)) p q = absurd (omega arith)

pub zero-bit_xor : (b : ℕ) → bit_xor 0 b ≡ b
zero-bit_xor b = bit_xor-bitwise 0 b

-- The lowest digit, and the rest.
pub bit_xor-step : (a b : ℕ) → bit_xor a b ≡ bit_xor (a / 2) (b / 2) * 2 + (a % 2 + b % 2) % 2
bit_xor-step zero b = omega (arith, zero-bit_xor b, zero-bit_xor (b / 2))
bit_xor-step (suc a) b = omega (
  arith,
  bit_xor-bitwise (suc a) b,
  bit_xor-bitwise (suc a / 2) (b / 2),
  xor_of-fuel a (suc a / 2) (suc a / 2) (b / 2) (omega arith) (omega arith),
  differ_digits (suc a % 2) (b % 2) (omega arith) (omega arith),
)

-- Laws by halving both numbers, `n` times at most.
comm_below : (n a b : ℕ) → a ≤ n → b ≤ n → bit_xor a b ≡ bit_xor b a
comm_below zero a b p q = ap₂ bit_xor (omega arith) (omega arith)
comm_below (suc n) a b p q = omega (
  arith,
  bit_xor-step a b,
  bit_xor-step b a,
  comm_below n (a / 2) (b / 2) (omega arith) (omega arith),
)

pub bit_xor_comm : (a b : ℕ) → bit_xor a b ≡ bit_xor b a
bit_xor_comm a b = comm_below (a + b) a b (omega arith) (omega arith)

pub bit_xor-zero : (a : ℕ) → bit_xor a 0 ≡ a
bit_xor-zero a = bit_xor_comm a 0 ∙ zero-bit_xor a

assoc_below :
    (n a b c : ℕ) → a ≤ n → b ≤ n → c ≤ n → bit_xor (bit_xor a b) c ≡ bit_xor a (bit_xor b c)
assoc_below zero a b c p q r =
    let a0 : a ≡ 0 = omega arith in
    let c0 : c ≡ 0 = omega arith in
    ap₂ (λ x y. bit_xor (bit_xor x b) y) a0 c0
    ∙ bit_xor-zero (bit_xor 0 b)
    ∙ ap (bit_xor 0) (sym (bit_xor-zero b))
    ∙ ap₂ (λ x y. bit_xor x (bit_xor b y)) (sym a0) (sym c0)
assoc_below (suc n) a b c p q r =
    let ab = bit_xor-step a b in
    let bc = bit_xor-step b c in
    let halves : bit_xor (bit_xor a b / 2) (c / 2) ≡ bit_xor (a / 2) (bit_xor b c / 2) =
      ap (λ x. bit_xor x (c / 2)) (omega (arith, ab))
      ∙ assoc_below n (a / 2) (b / 2) (c / 2) (omega arith) (omega arith) (omega arith)
      ∙ ap (bit_xor (a / 2)) (omega (arith, bc)) in
    omega (arith, ab, bc, halves, bit_xor-step (bit_xor a b) c, bit_xor-step a (bit_xor b c))

pub bit_xor_assoc : (a b c : ℕ) → bit_xor (bit_xor a b) c ≡ bit_xor a (bit_xor b c)
bit_xor_assoc a b c = assoc_below (a + b + c) a b c (omega arith) (omega arith) (omega arith)

self_below : (n a : ℕ) → a ≤ n → bit_xor a a ≡ 0
self_below zero a p = let a0 : a ≡ 0 = omega arith in ap₂ bit_xor a0 a0 ∙ zero-bit_xor 0
self_below (suc n) a p = omega (arith, bit_xor-step a a, self_below n (a / 2) (omega arith))

pub bit_xor_self : (a : ℕ) → bit_xor a a ≡ 0
bit_xor_self a = self_below a a (omega arith)

-- `2 ^ k`, by doubling.
abbrev pub power : ℕ → ℕ
power zero = 1
power (suc k) = 2 * power k

mul-double : (a c : ℕ) → a * (2 * c) ≡ 2 * (a * c)
mul-double a c = grind arith

-- Two numbers cut at a power of two: the upper and the lower parts are taken each for itself.
pub bit_xor-split :
    (k a b x y : ℕ)
    → x < power k
    → y < power k
    → (bit_xor (a * power k + x) (b * power k + y) ≡ bit_xor a b * power k + bit_xor x y)
      × (bit_xor x y < power k)
bit_xor-split zero a b x y p q =
    let x0 : x ≡ 0 = omega arith in
    let y0 : y ≡ 0 = omega arith in
    let nothing : bit_xor x y ≡ 0 = ap₂ bit_xor x0 y0 ∙ zero-bit_xor 0 in
    let left : a * 1 + x ≡ a = omega arith in
    let right : b * 1 + y ≡ b = omega arith in
    let whole : bit_xor (a * 1 + x) (b * 1 + y) ≡ bit_xor a b = ap₂ bit_xor left right in
    (omega (arith, whole, nothing), omega (arith, nothing))
bit_xor-split (suc k) a b x y p q =
    let (halves, small) = bit_xor-split k a b (x / 2) (y / 2) (omega arith) (omega arith) in
    let left : (a * (2 * power k) + x) / 2 ≡ a * power k + x / 2 =
      omega (arith, mul-double a (power k)) in
    let right : (b * (2 * power k) + y) / 2 ≡ b * power k + y / 2 =
      omega (arith, mul-double b (power k)) in
    let upper = ap₂ bit_xor left right ∙ halves in
    let lower = bit_xor-step x y in
    let both = bit_xor-step (a * (2 * power k) + x) (b * (2 * power k) + y) in
    let even_a : (a * (2 * power k) + x) % 2 ≡ x % 2 = omega (arith, mul-double a (power k)) in
    let even_b : (b * (2 * power k) + y) % 2 ≡ y % 2 = omega (arith, mul-double b (power k)) in
    (
      omega (arith, upper, lower, both, even_a, even_b, mul-double (bit_xor a b) (power k)),
      omega (arith, lower, small),
    )
