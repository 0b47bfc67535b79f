-- ===== src/Netlink.antt =====
-- modules/dnvme/netlink.c: `dnvme_gnl_cmd_reap_cqe`, which waits for completion entries and reaps them.
pub mod Poll
use dnvme.Base.{
  ℕ, zero, suc, ◌+◌, ◌-◌, Bool, true, false, not, Option, none, some, List, [], ltb, leb, ◌==◌,
  if◌then◌else◌,
}
use dnvme.Base.Dict.{lookup, update}
use dnvme.Device.{
  Errno, einval, enoent, enomem, emsgsize, etimedout, Status, done, fail, Completion, Cq, Device,
}
use dnvme.Phase.{Walk, counted, get_cqe_remain}
use dnvme.Cmd.Reap.{Reaped, answer, error, hang}
use dnvme.Cmd.Direct.{DirectReq, DirectAns, reap_cqe}

-- The attribute NVME_GNL_ATTR_TIMEOUT, in milliseconds.
pub data Timeout : Type 0 where
  absent negative : Timeout
  given : ℕ → Timeout

-- S32_MAX for a negative one.
unfoldable pub timeout_of : Timeout → ℕ
timeout_of absent = 0
timeout_of negative = 2147483647
timeout_of (given t) = t

-- The request, and what the kernel answers: the error of `dnvme_lock_device`, the memory of the queue in
-- each round of the wait, and whether the reply could be made.
pub record GnlReq : Type 0 where
  pub has_attrs : Bool
  pub cqid : ℕ
  pub expect : ℕ
  pub buf : ℕ
  pub size : ℕ
  pub timeout : Timeout
  pub lock : Option Errno
  pub memory : ℕ → List Completion
  pub copies : ℕ → Bool
  pub msg : Bool
  pub hdr : Bool

-- How the wait ends: by its fuel, by a walk that does not end or goes through a
-- null pointer, or in a round with the queue as it is
-- then and the number of its new entries.
pub data Polled : Type 0 where
  no_fuel : Polled
  endless : Polled
  no_memory : Polled
  stopped : ℕ → Cq → ℕ → Polled

abbrev pub seen_at : Cq → List Completion → Cq
seen_at cq slots = record cq { slots = slots }

-- The `do` loop from round `i` on, with `timeout` milliseconds left.
unfoldable pub poll_loop : ℕ → (ℕ → List Completion) → Cq → ℕ → ℕ → ℕ → Polled
poll_loop zero memory cq expect timeout i = no_fuel
poll_loop (suc fuel) memory cq expect timeout i =
    let later = poll_loop fuel memory cq expect (timeout - 1) (suc i) in
    elim (get_cqe_remain (cq.elements + 1) (seen_at cq (memory i))) [
      | Walk.null_prps ↦ no_memory
      | Walk.endless ↦ endless
      | counted cq' actual ↦
          if leb expect actual
          then stopped i cq' actual
          else if ltb 1 timeout
          then later
          else stopped i cq' actual
    ]

-- The reply; `none` is a count that was never set.
pub record Response : Type 0 where
  pub status : Status
  pub num : Option ℕ

-- `crash` is a message printed for a device that was not found, or an access through a null pointer.
pub data GnlRun : Type 0 where
  hangs : GnlRun
  crash : GnlRun
  silent : Errno → Device → GnlRun
  replied : Response → List Completion → Device → GnlRun

-- The label `out_response`; `found` tells whether `ndev` is a device.
unfoldable pub respond : GnlReq → Bool → Response → List Completion → Device → GnlRun
respond req found r out dev =
    if not req.msg
    then (if found then silent enomem dev else GnlRun.crash)
    else if req.hdr
    then replied r out dev
    else silent emsgsize dev

unfoldable pub reply_reaped : GnlReq → ℕ → Reaped DirectAns → GnlRun
unfolding respond
reply_reaped req actual hang = hangs
reply_reaped req actual Reaped.crash = GnlRun.crash
reply_reaped req actual (error e dev) =
    respond req true (record { status = fail e; num = some actual }) [] dev
reply_reaped req actual (answer ans dev) =
    respond req true (record { status = done; num = some ans.reaped }) ans.out dev

abbrev pub direct_of : GnlReq → ℕ → DirectReq
direct_of req n = record { expect = n; buf = req.buf; size = req.size; copies = req.copies }

-- The node after a round.
abbrev pub store_cq : ℕ → Cq → Device → Device
store_cq cqid cq dev = record dev {
  cqs = update cqid (λ q. record q { slots = cq.slots; tail_ptr = cq.tail_ptr }) dev.cqs;
}

unfoldable pub reap_polled : GnlReq → Cq → ℕ → Device → GnlRun
unfolding reply_reaped
reap_polled req cq actual dev =
    if leb req.expect actual
    then reply_reaped req actual (reap_cqe dev cq (direct_of req req.expect))
    else if actual == 0
    then respond req true (record { status = fail etimedout; num = some actual }) [] dev
    else reply_reaped req actual (reap_cqe dev cq (direct_of req actual))

unfoldable pub after_poll : GnlReq → Device → Polled → GnlRun
unfolding reap_polled
after_poll req dev no_fuel = hangs
after_poll req dev endless = hangs
after_poll req dev no_memory = GnlRun.crash
after_poll req dev (stopped i cq actual) = reap_polled req cq actual (store_cq req.cqid cq dev)

-- Fuel one more than the milliseconds.
unfoldable pub gnl_cmd_reap_cqe : GnlReq → Device → GnlRun
unfolding timeout_of poll_loop after_poll
gnl_cmd_reap_cqe req dev =
    if not req.has_attrs
    then respond req false (record { status = fail einval; num = none }) [] dev
    else elim req.lock [
      | some e ↦ respond req false (record { status = fail e; num = none }) [] dev
      | none ↦ elim (lookup req.cqid dev.cqs) [
        | none ↦ respond req true (record { status = fail enoent; num = none }) [] dev
        | some cq ↦ after_poll req dev (
            poll_loop (timeout_of req.timeout + 1) req.memory cq req.expect (timeout_of req.timeout)
              0)
      ]
    ]
