-- ===== src/Pmr.antt =====
-- modules/dnvme/pmr.c: the persistent memory region. What registers, the clock and the PCI core answer is
-- an argument.
pub mod Map
use Prim.Native.Nat.{bit_or, bit_and}
use dnvme.Base.{
  ℕ, zero, suc, ◌+◌, ◌-◌, ◌*◌, ◌/◌, ◌%◌, ◌^◌, Bool, true, false, not, ◌&&◌, ◌||◌, Option, none,
  some, List, ◌∷◌, ltb, ◌==◌, if◌then◌else◌,
}
use dnvme.Device.{
  eopnotsupp, eperm, enomem, etime, Status, done, fail, Pmr, Device, Effect, write_reg,
}
use dnvme.Cmb.{bit}

-- NVME_REG_PMRCTL, NVME_REG_PMRMSCL and NVME_REG_PMRMSCU
abbrev pub reg_pmrctl : ℕ
reg_pmrctl = 0xe04

abbrev pub reg_pmrmscl : ℕ
reg_pmrmscl = 0xe14

abbrev pub reg_pmrmscu : ℕ
reg_pmrmscu = 0xe18

-- The answers: the registers, PMRSTS behind the write of the base address and at each read of the wait,
-- whether the time is up after each, the BARs that are mapped and where they lie, and the kernel's.
pub record PmrHw : Type 0 where
  pub pmrcap : ℕ
  pub pmrctl : ℕ
  pub pmrmscl : ℕ
  pub base_sts : ℕ
  pub pmrsts : ℕ → ℕ
  pub late : ℕ → Bool
  pub bar_mapped : ℕ → Bool
  pub res_start : ℕ → ℕ
  pub bus_address : ℕ → ℕ
  pub bar_len : ℕ → ℕ
  pub alloc : Bool

-- NVME_PMRCAP_BIR
unfoldable pub pmrcap_bir : ℕ → ℕ
pmrcap_bir cap = cap / 32 % 8

-- `timeout` in milliseconds: PMRTO in minutes or in half seconds.
unfoldable pub pmr_timeout : ℕ → ℕ
pmr_timeout cap = cap / 65536 % 256 * (if cap / 256 % 4 == 0 then 500 else 60000)

-- How a step ends, with what was written, newest first; `endless` is a wait that does not end on its
-- fuel.
pub data PmrRun : Type 0 where
  endless : PmrRun
  ended : Status → List Effect → PmrRun

-- The checks of `dnvme_pmr_parse_capability`, and the node that it fills.
unfoldable pub check_pmr : PmrHw → Status
unfolding pmrcap_bir
check_pmr hw =
    if ltb (pmrcap_bir hw.pmrcap) 2 || ltb 5 (pmrcap_bir hw.pmrcap)
    then fail eperm
    else if not (hw.bar_mapped (pmrcap_bir hw.pmrcap))
    then fail eperm
    else done

-- The addresses are set with the base address alone.
unfoldable pub pmr_of : PmrHw → Pmr
unfolding pmrcap_bir pmr_timeout
pmr_of hw =
    let cmss = bit 24 hw.pmrcap in
    let bir = pmrcap_bir hw.pmrcap in
    record {
      bir = bir;
      timeout = pmr_timeout hw.pmrcap;
      res_addr = if cmss then hw.res_start bir else 0;
      bus_addr = if cmss then hw.bus_address bir else 0;
      size = if cmss then hw.bar_len bir else 0;
      cmss = cmss;
    }

-- The lower half of the address with NVME_PMRMSCL_CMSE; NVME_PMRMSCL_RSVD must be clear in it.
unfoldable pub mscl_of : ℕ → ℕ
mscl_of addr = bit_or (addr % 4294967296) 2

unfoldable pub pmr_enable_cba : PmrHw → Pmr → List Effect → Status × List Effect
unfolding mscl_of
pmr_enable_cba hw pmr io =
    if not pmr.cmss
    then (done, io)
    else if not (bit_and (mscl_of pmr.bus_addr) 0xffd == 0)
    then (fail eperm, io)
    else let told =
        write_reg reg_pmrmscl (mscl_of pmr.bus_addr)
        ∷ write_reg reg_pmrmscu (pmr.bus_addr / 4294967296 % 4294967296)
        ∷ io in
      if bit 12 hw.base_sts then (fail eperm, told) else (done, told)

-- NVME_PMRMSCL_CMSE is bit 1.
unfoldable pub pmr_disable_cba : PmrHw → Pmr → List Effect → List Effect
pmr_disable_cba hw pmr io =
    if not pmr.cmss
    then io
    else write_reg reg_pmrmscl (if bit 1 hw.pmrmscl then hw.pmrmscl - 2 else hw.pmrmscl) ∷ io

-- NVME_PMRSTS_NRDY is bit 8.
unfoldable pub pmr_reached : Bool → ℕ → Bool
pmr_reached true sts = not (bit 8 sts)
pmr_reached false sts = bit 8 sts

-- The `do` loop of `dnvme_config_pmr` from read `i` on.
unfoldable pub pmr_wait : ℕ → PmrHw → Bool → ℕ → Option Status
unfolding pmr_reached
pmr_wait zero hw enable i = none
pmr_wait (suc fuel) hw enable i =
    let later = pmr_wait fuel hw enable (suc i) in
    if pmr_reached enable (hw.pmrsts i)
    then some done
    else if hw.late i
    then some (fail etime)
    else later

unfoldable pub waited : List Effect → Option Status → PmrRun
waited io none = endless
waited io (some s) = ended s io

-- NVME_PMRCTL_EN is bit 0.
unfoldable pub config_pmr : ℕ → PmrHw → Bool → List Effect → PmrRun
unfolding pmr_wait waited
config_pmr fuel hw enable io =
    if enable && bit 0 hw.pmrctl
    then ended done io
    else if not enable && not (bit 0 hw.pmrctl)
    then ended done io
    else waited (write_reg reg_pmrctl (if enable then hw.pmrctl + 1 else hw.pmrctl - 1) ∷ io)
        (pmr_wait fuel hw enable 0)

pub data PmrMapped : Type 0 where
  endless : PmrMapped
  mapped : Status → Device → PmrMapped

-- Behind `dnvme_enable_pmr`: the node is kept, or `out_disable_cba` and `out_free_pmr`.
unfoldable pub keep_pmr : PmrHw → Device → PmrRun → PmrMapped
unfolding pmr_of pmr_disable_cba
keep_pmr hw dev PmrRun.endless = PmrMapped.endless
keep_pmr hw dev (ended (fail e) io) =
    mapped (fail e) (record dev { io = pmr_disable_cba hw (pmr_of hw) io })
keep_pmr hw dev (ended done io) = mapped done (record dev { pmr = some (pmr_of hw); io = io })

-- Behind `dnvme_pmr_enable_cba`.
unfoldable pub enable_mapped : ℕ → PmrHw → Device → Status × List Effect → PmrMapped
unfolding config_pmr keep_pmr
enable_mapped fuel hw dev (fail e, io) = mapped (fail e) (record dev { io = io })
enable_mapped fuel hw dev (done, io) = keep_pmr hw dev (config_pmr fuel hw true io)

unfoldable pub setup_pmr : ℕ → PmrHw → Device → Status → PmrMapped
unfolding pmr_of pmr_enable_cba enable_mapped
setup_pmr fuel hw dev (fail e) = mapped (fail e) dev
setup_pmr fuel hw dev done = enable_mapped fuel hw dev (pmr_enable_cba hw (pmr_of hw) dev.io)

-- NVME_CAP_PMRS is bit 56 of CAP.
unfoldable pub map_unless : ℕ → PmrHw → Device → Option Pmr → PmrMapped
unfolding check_pmr setup_pmr
map_unless fuel hw dev (some pmr) = mapped done dev
map_unless fuel hw dev none =
    if not (bit 56 dev.reg_cap)
    then mapped (fail eopnotsupp) dev
    else if hw.alloc
    then setup_pmr fuel hw dev (check_pmr hw)
    else mapped (fail enomem) dev

unfoldable pub map_pmr : ℕ → PmrHw → Device → PmrMapped
unfolding map_unless
map_pmr fuel hw dev = map_unless fuel hw dev dev.pmr

-- The status of the disabling is not looked at.
unfoldable pub drop_pmr : PmrHw → Device → Pmr → PmrRun → PmrMapped
unfolding pmr_disable_cba
drop_pmr hw dev pmr PmrRun.endless = PmrMapped.endless
drop_pmr hw dev pmr (ended s io) =
    mapped done (record dev { pmr = none; io = pmr_disable_cba hw pmr io })

unfoldable pub unmap_if : ℕ → PmrHw → Device → Option Pmr → PmrMapped
unfolding config_pmr drop_pmr
unmap_if fuel hw dev none = mapped done dev
unmap_if fuel hw dev (some pmr) = drop_pmr hw dev pmr (config_pmr fuel hw false dev.io)

unfoldable pub unmap_pmr : ℕ → PmrHw → Device → PmrMapped
unfolding unmap_if
unmap_pmr fuel hw dev = unmap_if fuel hw dev dev.pmr
