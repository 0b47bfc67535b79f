-- ===== src/Tests/Check.antt =====
-- Check values of the configurations of lib/crc/crc.c, computed, and the division at one of them.
use dnvme.Base.{ℕ, ◌≡◌, refl, arith, List, [], ◌∷◌, inl, true}
use dnvme.Crc.Serial.{divide_bits}
use dnvme.Crc.Table.{message_bits, crc_calculate-divides}
use dnvme.Crc.{
  Instance, reverse_16bits, reverse_32bits, reverse_64bits, init_table, finish_crc, crc_calculate,
  crc8_calculate, maxim, usb, t10_dif, castagnoli, nvme64bcrc,
}

-- An instance at the start.
abbrev fresh : Instance
fresh = record { poly = 0; table = [] }

-- "123456789"
abbrev digits_text : List ℕ
digits_text = 49 ∷ 50 ∷ 51 ∷ 52 ∷ 53 ∷ 54 ∷ 55 ∷ 56 ∷ 57 ∷ []

maxim_check : (crc8_calculate fresh maxim digits_text).0 ≡ 0xa1
unfolding crc8_calculate
maxim_check = refl

t10_dif_check : (crc_calculate 8 reverse_16bits fresh t10_dif digits_text).0 ≡ 0xd0db
unfolding crc_calculate reverse_16bits
t10_dif_check = refl

usb_check : (crc_calculate 8 reverse_16bits fresh usb digits_text).0 ≡ 0xb4c8
unfolding crc_calculate reverse_16bits
usb_check = refl

castagnoli_check : (crc_calculate 24 reverse_32bits fresh castagnoli digits_text).0 ≡ 0xe3069283
unfolding crc_calculate reverse_32bits
castagnoli_check = refl

nvme64bcrc_check :
    (crc_calculate 56 reverse_64bits fresh nvme64bcrc digits_text).0 ≡ 0xae8b14860a799888
unfolding crc_calculate reverse_64bits
nvme64bcrc_check = refl

crc_calculate-divides_example :
    ((crc_calculate 24 reverse_32bits fresh castagnoli digits_text).0
      ≡ finish_crc reverse_32bits castagnoli
          (divide_bits 24 0x1edc6f41 (message_bits true digits_text) 0xffffffff))
    × ((crc_calculate 24 reverse_32bits fresh castagnoli digits_text).1.poly ≡ 0x1edc6f41)
    × ((crc_calculate 24 reverse_32bits fresh castagnoli digits_text).1.table
        ≡ init_table 24 0x1edc6f41)
crc_calculate-divides_example =
    crc_calculate-divides 24 reverse_32bits fresh castagnoli digits_text (inl refl) (omega arith)
      (omega arith)
      (
        omega arith,
        (
          omega arith,
          (
            omega arith,
            (
              omega arith,
              (omega arith, (omega arith, (omega arith, (omega arith, (omega arith, tt))))),
            ),
          ),
        ),
      )
