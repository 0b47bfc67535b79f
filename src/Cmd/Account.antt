-- ===== src/Cmd/Account.antt =====
-- modules/dnvme/queue.c, `dnvme_reap_cqe_legacy`: what the user is told about the entries.
use dnvme.Base.{ℕ, ◌+◌, ◌-◌, ◌≤◌, ◌≡◌, [], if◌then◌else◌, ◌==◌, min}
use dnvme.Device.{Cq, Device}
use dnvme.Cmd.Complete.{Copied, copy_cq_data, update_cq_head}
use dnvme.Cmd.Copy.{window}
use dnvme.Cmd.Reap.{answer, ReapReq, ReapAns, expected, reap_cqe_legacy}

-- What the user may rely on, for a queue that held `remain` new entries.
pub record IsAccounted (req : ReapReq) (cq : Cq) (remain : ℕ) (ans : ReapAns) : Type 0 where
  pub accounted : ans.reaped + ans.remained ≡ remain
  pub bounded : ans.reaped ≤ expected req cq
  pub entries : ans.out ≡ window cq.slots cq.elements cq.head_ptr ans.reaped

module _ (req : ReapReq) (cq : Cq) (remain : ℕ) (dev : Device) where
  abbrev wanted : ℕ
  wanted = min (expected req cq) remain

  abbrev pub copied : Copied
  copied = copy_cq_data req.copies cq.slots cq.elements wanted cq.head_ptr [] dev

  abbrev told : ReapAns
  told = record {
    reaped = wanted - copied.left;
    remained = remain - wanted + copied.left;
    out = copied.out;
  }

  -- The device behind the call, for a queue that no interrupt is reset for.
  abbrev settled : Device
  settled = if told.reaped == 0 then copied.dev else update_cq_head copied.dev cq told.reaped

-- What a call of `dnvme_reap_cqe_legacy` has answered.
pub record IsReaped (dev : Device) (req : ReapReq) (cq : Cq) (remain : ℕ) : Type 0 where
  pub ans : ReapAns
  pub after : Device
  pub returns : reap_cqe_legacy dev req ≡ answer ans after
  pub accounts : IsAccounted req cq remain ans
