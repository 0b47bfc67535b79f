-- ===== src/Crc/Narrow.antt =====
-- The loop of `crc8_calculate` against the general one.
use Prim.Native.Nat.{bit_xor}
use dnvme.Base.{ℕ, ◌*◌, ◌/◌, ◌%◌, ◌≡◌, refl, sym, ap, ◌∙◌, arith, List, [], ◌∷◌, get_or, Bool}
use dnvme.Crc.Xor.{bit_xor-zero}
use dnvme.Crc.{
  reverse_8bits, Config, Instance, data_byte, table_round, table_rounds, prepare_table, finish_crc,
  crc_calculate, crc8_rounds, crc8_calculate,
}

-- The loop of 8 bits is the general one without further bits.
crc8_rounds_lem :
    (table : List ℕ) (refin : Bool) (ds : List ℕ) (r : ℕ)
    → crc8_rounds table refin ds r ≡ table_rounds 0 table refin ds r
unfolding crc8_rounds table_rounds table_round
crc8_rounds_lem table refin [] r = refl
crc8_rounds_lem table refin (d ∷ ds) r =
    let byte = data_byte refin d in
    let upper : r ≡ r / 1 = omega arith in
    let lower : 0 ≡ r * 256 % 256 = omega arith in
    ap (crc8_rounds table refin ds) (
      ap (λ w. get_or table (bit_xor w byte) 0) upper
      ∙ sym (bit_xor-zero (get_or table (bit_xor (r / 1) byte) 0))
      ∙ ap (bit_xor (get_or table (bit_xor (r / 1) byte) 0)) lower)
    ∙ crc8_rounds_lem table refin ds (table_round 0 table r byte)

-- So the check of 8 bits is the one of the width 8.
crc8_calculate-IsNarrow :
    (inst : Instance) (cfg : Config) (bytes : List ℕ)
    → crc8_calculate inst cfg bytes ≡ crc_calculate 0 reverse_8bits inst cfg bytes
unfolding crc8_calculate crc_calculate
crc8_calculate-IsNarrow inst cfg bytes =
    let inst' = prepare_table 0 inst cfg.poly in
    ap (λ r. (finish_crc reverse_8bits cfg r, inst'))
      (crc8_rounds_lem inst'.table cfg.refin bytes cfg.init)
