-- ===== src/Ctrl.antt =====
-- modules/dnvme/ioctl.c and core.c: the state of the controller, from CC.EN and the wait for CSTS.RDY
-- to the cleanup of the driver's data. What registers read is an argument; writes are logged.
pub mod Ready
pub mod Clean
use dnvme.Base.{
  ℕ, zero, suc, ◌+◌, ◌-◌, ◌*◌, ◌/◌, ◌%◌, Bool, true, false, not, ◌&&◌, Option, none, some, List,
  ◌∷◌, ◌==◌, if◌then◌else◌,
}
use dnvme.Device.{
  Errno, enodev, etime, einval, eperm, Status, done, fail, Device, write_reg, State, enable,
  disable, disable_complete, subsystem_reset, flr_reset, hot_reset, linkdown_reset,
}
use dnvme.Irq.Scheme.{clean_interrupt}
use dnvme.Queue.Admin.{delete_all_queues}
use dnvme.Meta.{delete_meta_nodes}
use dnvme.Hmb.{release_hmb}

-- NVME_REG_CC and NVME_REG_NSSR
abbrev pub reg_cc : ℕ
reg_cc = 0x14

abbrev pub reg_nssr : ℕ
reg_nssr = 0x20

-- What the controller and the clock answer to a wait: CSTS at each read, and whether the time is up
-- after each.
pub record Wait : Type 0 where
  pub csts : ℕ → ℕ
  pub late : ℕ → Bool

-- NVME_CSTS_RDY
unfoldable pub rdy : ℕ → Bool
rdy csts = csts % 2 == 1

-- `(csts & NVME_CSTS_RDY) == bit`
abbrev pub has_state : Bool → Bool → Bool
has_state true b = b
has_state false b = not b

-- The `while` loop of `dnvme_wait_ready` from read `i` on; `none` means that the fuel ran out.
unfoldable pub wait_loop : ℕ → Wait → Bool → ℕ → Option Status
unfolding rdy
wait_loop zero w enabled i = none
wait_loop (suc fuel) w enabled i =
    let further = wait_loop fuel w enabled (suc i) in
    if w.csts i == 4294967295
    then some (fail enodev)
    else if has_state enabled (rdy (w.csts i))
    then some done
    else if w.late i
    then some (fail etime)
    else further

-- IOSQES 6, IOCQES 4 and EN set, the other fields as they were.
unfoldable pub cc_enable : ℕ → ℕ
cc_enable cc = cc / 16777216 * 16777216 + 4 * 1048576 + 6 * 65536 + (cc % 65536 - cc % 2) + 1

unfoldable pub cc_disable : ℕ → ℕ
cc_disable cc = cc - cc % 2

-- How a call of this file ends; `hang` is a wait that does not end on the fuel given.
pub data CtrlRun : Type 0 where
  ended : Status → Device → CtrlRun
  hang : CtrlRun

unfoldable pub waited : Device → Option Status → CtrlRun
waited dev none = hang
waited dev (some s) = ended s dev

unfoldable pub set_ctrl_state : ℕ → Wait → ℕ → Device → Bool → CtrlRun
unfolding wait_loop waited cc_enable cc_disable
set_ctrl_state fuel w cc dev enabled =
    waited
      (record dev {
        io = write_reg reg_cc (if enabled then cc_enable cc else cc_disable cc) ∷ dev.io;
      })
      (wait_loop fuel w enabled 0)

-- "NVMe"; only the device `falcon_lite` waits.
unfoldable pub reset_subsystem : ℕ → Wait → Bool → Device → CtrlRun
unfolding wait_loop waited
reset_subsystem fuel w falcon_lite dev =
    let told = record dev { io = write_reg reg_nssr 0x4e564d65 ∷ dev.io } in
    if falcon_lite then waited told (wait_loop fuel w false 0) else ended done told

unfoldable pub cleanup_device : Device → State → Device
unfolding clean_interrupt delete_all_queues delete_meta_nodes release_hmb
cleanup_device dev state =
    let (set, io) = clean_interrupt dev.irq_set dev.io in
    release_hmb
      (delete_meta_nodes (delete_all_queues (record dev { irq_set = set; io = io }) state))

unfoldable pub after_disable : State → CtrlRun → CtrlRun
unfolding cleanup_device
after_disable state hang = hang
after_disable state (ended (fail e) dev) = ended (fail e) dev
after_disable state (ended done dev) = ended done (cleanup_device dev state)

-- `none` is a number that no state has.
unfoldable pub set_device_state :
    ℕ → Wait → ℕ → Bool → (State → Status) → Device → Option State → CtrlRun
unfolding set_ctrl_state reset_subsystem after_disable
set_device_state fuel w cc falcon pci dev none = ended (fail einval) dev
set_device_state fuel w cc falcon pci dev (some enable) = set_ctrl_state fuel w cc dev true
set_device_state fuel w cc falcon pci dev (some disable) =
    after_disable disable (set_ctrl_state fuel w cc dev false)
set_device_state fuel w cc falcon pci dev (some disable_complete) =
    after_disable disable_complete (set_ctrl_state fuel w cc dev false)
set_device_state fuel w cc falcon pci dev (some subsystem_reset) = reset_subsystem fuel w falcon dev
set_device_state fuel w cc falcon pci dev (some flr_reset) = ended (pci flr_reset) dev
set_device_state fuel w cc falcon pci dev (some hot_reset) = ended (pci hot_reset) dev
set_device_state fuel w cc falcon pci dev (some linkdown_reset) = ended (pci linkdown_reset) dev

-- `dnvme_open` and `dnvme_release`; the flag is `opened`.
unfoldable pub open_device : Bool → Status × Bool
open_device opened = if opened then (fail eperm, opened) else (done, true)

unfoldable pub release_device : Device → Bool × Device
unfolding cleanup_device
release_device dev = (false, cleanup_device dev disable_complete)
