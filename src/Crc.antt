-- ===== src/Crc.antt =====
-- lib/crc/crc.c: the table-driven checks. Those of 16, 32 and 64 bits are the same code at their
-- widths, which stand here as 8 + `m` bits; arithmetic is taken modulo 2 to the width. The loop of 8
-- bits stands apart.
mod Narrow
pub mod Round
pub mod Serial
pub mod Xor
pub mod Table
use Prim.Native.Nat.{bit_xor, bit_and, bit_or}
use dnvme.Base.{
  ℕ, zero, suc, ◌*◌, ◌/◌, ◌%◌, ◌≡◌, refl, Bool, true, false, not, ◌||◌, List, [], ◌∷◌, ◌==◌, leb,
  if◌then◌else◌, get_or,
}
use dnvme.Crc.Xor.{power}

-- One round of the inner loop of `crc32_init_table`: the upper bit of a word is set just when the word
-- is at least 2 to the width less one.
unfoldable pub bit_round : ℕ → ℕ → ℕ → ℕ
bit_round m poly r =
    if leb (128 * power m) r
    then bit_xor (2 * r % (256 * power m)) poly
    else 2 * r % (256 * power m)

-- The inner loop: eight rounds for an entry.
unfoldable pub bit_rounds : ℕ → ℕ → ℕ → ℕ → ℕ
unfolding bit_round
bit_rounds m poly zero r = r
bit_rounds m poly (suc n) r = bit_rounds m poly n (bit_round m poly r)

-- The outer loop: `n` entries from number `i` on; `i << 24` is `i` times 2 to the width less eight.
unfoldable pub table_from : ℕ → ℕ → ℕ → ℕ → List ℕ
unfolding bit_rounds
table_from m poly zero i = []
table_from m poly (suc n) i = bit_rounds m poly 8 (i * power m) ∷ table_from m poly n (suc i)

unfoldable pub init_table : ℕ → ℕ → List ℕ
unfolding table_from
init_table m poly = table_from m poly 256 0

-- `reverse_8bits` and the functions built on it.
unfoldable pub reverse_8bits : ℕ → ℕ
reverse_8bits word =
    let a = bit_or (bit_and (word * 16) 0xf0) (bit_and (word / 16) 0x0f) in
    let b = bit_or (bit_and (a * 4) 0xcc) (bit_and (a / 4) 0x33) in
    bit_or (bit_and (b * 2) 0xaa) (bit_and (b / 2) 0x55)

unfoldable pub reverse_16bits : ℕ → ℕ
unfolding reverse_8bits
reverse_16bits word = bit_or (reverse_8bits (word % 256) * 256) (reverse_8bits (word / 256))

unfoldable pub reverse_32bits : ℕ → ℕ
unfolding reverse_16bits
reverse_32bits word = bit_or (reverse_16bits (word % 65536) * 65536) (reverse_16bits (word / 65536))

unfoldable pub reverse_64bits : ℕ → ℕ
unfolding reverse_32bits
reverse_64bits word =
    bit_or (reverse_32bits (word % 4294967296) * 4294967296) (reverse_32bits (word / 4294967296))

-- `struct crc_config`, without its name and width.
pub record Config : Type 0 where
  pub poly : ℕ
  pub init : ℕ
  pub xorout : ℕ
  pub refin : Bool
  pub refout : Bool

-- `struct crc_instance`: the polynomial that the table was made for, 0 at first.
pub record Instance : Type 0 where
  pub poly : ℕ
  pub table : List ℕ

-- The byte that is taken from the data.
unfoldable pub data_byte : Bool → ℕ → ℕ
unfolding reverse_8bits
data_byte refin d = if refin then reverse_8bits d else d

-- One round of the loop of `crc32_calculate`.
unfoldable pub table_round : ℕ → List ℕ → ℕ → ℕ → ℕ
table_round m table r d =
    bit_xor (get_or table (bit_xor (r / power m) d) 0) (r * 256 % (256 * power m))

unfoldable pub table_rounds : ℕ → List ℕ → Bool → List ℕ → ℕ → ℕ
unfolding table_round data_byte
table_rounds m table refin [] r = r
table_rounds m table refin (d ∷ ds) r =
    table_rounds m table refin ds (table_round m table r (data_byte refin d))

-- The table is made again only for another polynomial.
unfoldable pub prepare_table : ℕ → Instance → ℕ → Instance
unfolding init_table
prepare_table m inst poly =
    if inst.poly == 0 || not (inst.poly == poly)
    then record { poly = poly; table = init_table m poly }
    else inst

-- `reverse` is the reversal of the width.
unfoldable pub finish_crc : (ℕ → ℕ) → Config → ℕ → ℕ
finish_crc reverse cfg r = bit_xor (if cfg.refout then reverse r else r) cfg.xorout

unfoldable pub crc_calculate : ℕ → (ℕ → ℕ) → Instance → Config → List ℕ → ℕ × Instance
unfolding prepare_table table_rounds finish_crc
crc_calculate m reverse inst cfg bytes =
    let inst' = prepare_table m inst cfg.poly in
    (finish_crc reverse cfg (table_rounds m inst'.table cfg.refin bytes cfg.init), inst')

-- The loop of `crc8_calculate`, where no bits of the remainder are left beside the entry.
unfoldable pub crc8_rounds : List ℕ → Bool → List ℕ → ℕ → ℕ
unfolding data_byte
crc8_rounds table refin [] r = r
crc8_rounds table refin (d ∷ ds) r =
    crc8_rounds table refin ds (get_or table (bit_xor r (data_byte refin d)) 0)

unfoldable pub crc8_calculate : Instance → Config → List ℕ → ℕ × Instance
unfolding prepare_table crc8_rounds finish_crc
crc8_calculate inst cfg bytes =
    let inst' = prepare_table 0 inst cfg.poly in
    (finish_crc reverse_8bits cfg (crc8_rounds inst'.table cfg.refin bytes cfg.init), inst')

-- The configurations of `crc8_maxim`, `crc16_usb`, `crc16_t10_dif`, `crc32_castagnoli` and
-- `crc64_nvme64bcrc`.
abbrev pub maxim : Config
maxim = record { poly = 0x31; init = 0; xorout = 0; refin = true; refout = true }

abbrev pub usb : Config
usb = record { poly = 0x8005; init = 0xffff; xorout = 0xffff; refin = true; refout = true }

abbrev pub t10_dif : Config
t10_dif = record { poly = 0x8bb7; init = 0; xorout = 0; refin = false; refout = false }

abbrev pub castagnoli : Config
castagnoli = record {
  poly = 0x1edc6f41;
  init = 0xffffffff;
  xorout = 0xffffffff;
  refin = true;
  refout = true;
}

abbrev pub nvme64bcrc : Config
nvme64bcrc = record {
  poly = 0xad93d23594c93659;
  init = 0xffffffffffffffff;
  xorout = 0xffffffffffffffff;
  refin = true;
  refout = true;
}
