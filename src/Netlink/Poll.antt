-- ===== src/Netlink/Poll.antt =====
-- How the wait of `dnvme_gnl_cmd_reap_cqe` ends, and what its reply holds then.
use dnvme.Base.{
  ℕ, ◌+◌, ◌*◌, ◌^◌, ◌≡◌, ◌≤◌, ◌<◌, ◌⊎◌, true, false, none, some, List, [], ◌==◌, if◌then◌else◌,
}
use dnvme.Base.Dict.{lookup}
use dnvme.Device.{etimedout, done, fail, Completion, Cq, Device, is_sound}
use dnvme.Phase.{is_backed, counted, get_cqe_remain}
use dnvme.Phase.Remain.{IsCount}
use dnvme.Cmd.Copy.{window}
use dnvme.Cmd.Direct.{copied_by}
use dnvme.Netlink.{
  Polled, stopped, seen_at, timeout_of, GnlReq, GnlRun, replied, direct_of, store_cq,
}

-- The new entries that stand in a queue with the given slots.
abbrev pub Counts : Cq → List Completion → ℕ → Type 0
Counts cq slots n =
    (tail : ℕ) × (get_cqe_remain (cq.elements + 1) (seen_at cq slots)
      ≡ counted (record cq { slots = slots; tail_ptr = tail }) n)
    × IsCount slots cq.elements cq.head_ptr cq.pbit_new_entry tail n

-- Rounds that a wait has: one at least.
abbrev pub rounds : ℕ → ℕ
rounds timeout = if timeout == 0 then 1 else timeout

module _ (memory : ℕ → List Completion) (cq : Cq) (expect : ℕ) (inside : cq.head_ptr < cq.elements)
    (small : cq.elements < 65536) (backed : is_backed cq ≡ true) where
  -- The wait has ended in a round, with the entries of that round, and not before the count was reached
  -- but in its last round.
  pub record IsWaited (i timeout : ℕ) (r : Polled) : Type 0 where
    pub round : ℕ
    pub actual : ℕ
    pub tail : ℕ
    pub ended : r ≡ stopped round (record cq { slots = memory round; tail_ptr = tail }) actual
    pub from : i ≤ round
    pub bound : round < i + rounds timeout
    pub count : IsCount (memory round) cq.elements cq.head_ptr cq.pbit_new_entry tail actual
    pub early : (j : ℕ) → i ≤ j → j < round → (n : ℕ) × Counts cq (memory j) n × (n < expect)
    pub enough : (expect ≤ actual) ⊎ (round + 1 ≡ i + rounds timeout)

-- What a reply holds for `actual` entries in a ring; `bad` tells that settling them has gone through a
-- null pointer.
abbrev pub Serves : Type 0 → ℕ → ℕ → List Completion → ℕ → ℕ → GnlRun → Type 0
Serves bad expect actual slots elements head GnlRun.crash = bad
Serves bad expect actual slots elements head (replied r out dev) =
    ((actual ≡ 0) × (r ≡ record { status = fail etimedout; num = some 0 }) × (out ≡ []))
    ⊎ ((0 < actual)
        × ((reaped : ℕ) × (r ≡ record { status = done; num = some reaped })
            × (reaped ≤ expect)
            × (reaped ≤ actual)
            × (out ≡ window slots elements head reaped)))
Serves bad expect actual slots elements head _ = true ≡ false

-- Settling the first `n` entries of a ring, for an `n` that may be reaped, goes through a null pointer.
abbrev pub IsUnsound : GnlReq → Cq → ℕ → Device → Type 0
IsUnsound req cq actual dev =
    (n : ℕ) × (n ≤ req.expect)
    × (n ≤ actual)
    × (is_sound (copied_by dev cq (direct_of req n)).dev.io ≡ false)

-- A request that can be served, for a queue without interrupt and its head inside.
pub record IsServable (req : GnlReq) (dev : Device) (cq : Cq) : Type 0 where
  pub attrs : req.has_attrs ≡ true
  pub locked : req.lock ≡ none
  pub queue : lookup req.cqid dev.cqs ≡ some cq
  pub inside : cq.head_ptr < cq.elements
  pub small : cq.elements < 65536
  pub polled : cq.irq_enabled ≡ false
  pub wanted : 0 < req.expect
  pub buf : 0 < req.buf
  pub size : req.expect * 2 ^ cq.cqes ≤ req.size
  pub fits : req.size < 4294967296
  pub msg : req.msg ≡ true
  pub hdr : req.hdr ≡ true
  pub backed : is_backed cq ≡ true

-- The wait, and the reply for what stood in the queue when it ended.
pub record IsAnswered (req : GnlReq) (dev : Device) (cq : Cq) (h : IsServable req dev cq)
    (run : GnlRun) : Type 0 where
  pub polled : Polled
  pub waited :
      IsWaited req.memory cq req.expect h.inside h.small h.backed 0 (timeout_of req.timeout) polled
  pub seen : Cq
  pub looks : seen ≡ record cq { slots = req.memory waited.round; tail_ptr = waited.tail }
  pub serves :
      Serves
        (IsUnsound req seen waited.actual (store_cq req.cqid seen dev))
        req.expect
        waited.actual
        (req.memory waited.round)
        cq.elements
        cq.head_ptr
        run
