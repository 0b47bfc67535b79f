-- ===== src/Cmb.antt =====
-- modules/dnvme/cmb.c: the controller memory buffer. What registers and the PCI core answer is an
-- argument.
pub mod Map
use Prim.Native.Nat.{bit_or}
use dnvme.Base.{
  ℕ, ◌+◌, ◌-◌, ◌*◌, ◌/◌, ◌%◌, ◌^◌, Bool, true, false, not, ◌&&◌, Option, none, some, List, ◌∷◌, ltb,
  leb, ◌==◌, if◌then◌else◌,
}
use dnvme.Device.{
  eopnotsupp, eperm, enomem, Status, done, fail, Cmb, Device, Effect, write_reg, add_p2pdma,
  publish_p2pmem,
}

-- A bit of a register.
abbrev pub bit : ℕ → ℕ → Bool
bit n reg = reg / 2 ^ n % 2 == 1

-- NVME_REG_CMBMSC
abbrev pub reg_cmbmsc : ℕ
reg_cmbmsc = 0x50

-- NVME_CMBSZ_SZU, NVME_CMBSZ_SZ, NVME_CMBLOC_OFST and NVME_CMBLOC_BIR
unfoldable pub cmbsz_szu : ℕ → ℕ
cmbsz_szu cmbsz = cmbsz / 256 % 16

unfoldable pub cmb_size : ℕ → ℕ
cmb_size cmbsz = cmbsz / 4096 % 1048576

unfoldable pub cmbloc_ofst : ℕ → ℕ
cmbloc_ofst cmbloc = cmbloc / 4096 % 1048576

unfoldable pub cmbloc_bir : ℕ → ℕ
cmbloc_bir cmbloc = cmbloc % 8

-- `1ULL << (12 + 4 * szu)`; the shift has no meaning from 64 on.
unfoldable pub cmb_size_unit : ℕ → Option ℕ
unfolding cmbsz_szu
cmb_size_unit cmbsz =
    if ltb (12 + 4 * cmbsz_szu cmbsz) 64 then some (2 ^ (12 + 4 * cmbsz_szu cmbsz)) else none

-- The answers: CMBSZ and CMBLOC, of each BAR where it lies and how long it is, and the kernel's.
pub record CmbHw : Type 0 where
  pub cmbsz : ℕ
  pub cmbloc : ℕ
  pub res_start : ℕ → ℕ
  pub bus_address : ℕ → ℕ
  pub bar_len : ℕ → ℕ
  pub add_resource : Status
  pub alloc : Bool

-- `dnvme_cmb_parse_capability` of a node that is zero, with the fields that `dnvme_cmb_setup` sets behind
-- it; `unit` is the size unit, and sums and products are 64-bit.
unfoldable pub cmb_parse_capability : CmbHw → ℕ → Cmb
unfolding cmb_size cmbloc_ofst cmbloc_bir
cmb_parse_capability hw unit = record {
  bar = cmbloc_bir hw.cmbloc;
  res_addr = hw.res_start (cmbloc_bir hw.cmbloc);
  bus_addr = hw.bus_address (cmbloc_bir hw.cmbloc);
  size = unit * cmb_size hw.cmbsz % 2 ^ 64;
  offset = unit * cmbloc_ofst hw.cmbloc % 2 ^ 64;
  sqs = bit 0 hw.cmbsz;
  cqs = bit 1 hw.cmbsz;
  lists = bit 2 hw.cmbsz;
  rds = bit 3 hw.cmbsz;
  wds = bit 4 hw.cmbsz;
  cqmms = bit 3 hw.cmbloc;
  cqpds = bit 4 hw.cmbloc;
  cdpmls = bit 5 hw.cmbloc;
  cdpcils = bit 6 hw.cmbloc;
  cdmmms = bit 7 hw.cmbloc;
  cqda = bit 8 hw.cmbloc;
}

-- How the setup ends: `undefined` is a shift too far; else with the status, the node and what was told to
-- the outside, newest first.
pub data CmbRun : Type 0 where
  undefined : CmbRun
  ended : Status → Option Cmb → List Effect → CmbRun

abbrev pub tell : ℕ → List Effect → List Effect
tell value io = write_reg reg_cmbmsc value ∷ io

-- The buffer is cut to what its BAR has behind the offset.
unfoldable pub reduce : ℕ → Cmb → Cmb
reduce len cmb =
    if ltb (len - cmb.offset) cmb.size then record cmb { size = len - cmb.offset } else cmb

unfoldable pub publish : Cmb → List Effect → List Effect
publish cmb io =
    let added = add_p2pdma cmb.bar cmb.size cmb.offset ∷ io in
    if cmb.wds && cmb.rds then publish_p2pmem ∷ added else added

-- The registration, of the buffer that was reduced.
unfoldable pub finish_cmb : Status → Cmb → List Effect → CmbRun
unfolding publish
finish_cmb (fail e) cmb io = ended (fail e) none io
finish_cmb done cmb io = ended done (some cmb) (publish cmb io)

-- From the offset on: the decoding is enabled, and the memory registered.
unfoldable pub add_cmb : CmbHw → Cmb → List Effect → CmbRun
unfolding reduce finish_cmb
add_cmb hw cmb io =
    let len = hw.bar_len cmb.bar in
    if ltb len cmb.offset
    then ended (fail eperm) none io
    else let io' = tell (bit_or 3 ((cmb.bus_addr + cmb.offset) % 2 ^ 64)) io in
      finish_cmb hw.add_resource (reduce len cmb) io'

unfoldable pub cmb_setup : CmbHw → List Effect → CmbRun
unfolding cmb_size_unit cmb_parse_capability add_cmb
cmb_setup hw io =
    let io' = tell 1 io in
    if hw.cmbsz == 0 then ended (fail eopnotsupp) none io' else elim (cmb_size_unit hw.cmbsz) [
      | none ↦ undefined
      | some unit ↦ add_cmb hw (cmb_parse_capability hw unit) io'
    ]

-- The device behind the setup.
pub data CmbMapped : Type 0 where
  undefined : CmbMapped
  mapped : Status → Device → CmbMapped

unfoldable pub keep_cmb : Device → CmbRun → CmbMapped
keep_cmb dev CmbRun.undefined = CmbMapped.undefined
keep_cmb dev (ended (fail e) c io) = mapped (fail e) (record dev { io = io })
keep_cmb dev (ended done c io) = mapped done (record dev { cmb = c; io = io })

-- The attempt, by what is mapped already. NVME_CAP_CMBS is bit 57 of CAP.
unfoldable pub map_unless : CmbHw → Device → Option Cmb → CmbMapped
unfolding cmb_setup keep_cmb
map_unless hw dev (some cmb) = mapped done dev
map_unless hw dev none =
    if not (bit 57 dev.reg_cap)
    then mapped (fail eopnotsupp) dev
    else if hw.alloc
    then keep_cmb dev (cmb_setup hw dev.io)
    else mapped (fail enomem) dev

unfoldable pub map_cmb : CmbHw → Device → CmbMapped
unfolding map_unless
map_cmb hw dev = map_unless hw dev dev.cmb

unfoldable pub unmap_cmb : Device → Device
unmap_cmb dev = record dev { cmb = none }
