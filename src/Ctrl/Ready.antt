-- ===== src/Ctrl/Ready.antt =====
-- modules/dnvme/ioctl.c: the end of `dnvme_wait_ready`.
use dnvme.Base.{
  ℕ, zero, suc, ◌+◌, ◌≤◌, ◌<◌, ◌≡◌, refl, Bool, true, false, Option, some, ◌==◌, if-elim,
  flag-later, arith,
}
use mathlib.Core.Path.{subst}
use native.Mathlib.Decide.{dec_lt}
use dnvme.Device.{enodev, etime, Status, done, fail}
use dnvme.Ctrl.{Wait, rdy, has_state, wait_loop}

-- A read that neither has the state waited for nor is all ones, with time left behind it.
pub record IsWaiting (w : Wait) (enabled : Bool) (i : ℕ) : Type 0 where
  pub present : (w.csts i == 4294967295) ≡ false
  pub other : has_state enabled (rdy (w.csts i)) ≡ false
  pub early : w.late i ≡ false

-- The read that ended the wait.
abbrev pub Decides : Wait → Bool → ℕ → Status → Type 0
Decides w enabled i done =
    ((w.csts i == 4294967295) ≡ false) × (has_state enabled (rdy (w.csts i)) ≡ true)
Decides w enabled i (fail enodev) = (w.csts i == 4294967295) ≡ true
Decides w enabled i (fail etime) = (has_state enabled (rdy (w.csts i)) ≡ false) × (w.late i ≡ true)
Decides w enabled i (fail _) = true ≡ false

-- The wait that starts at read `i` has ended at a read before `last` or at it.
pub record IsOver (w : Wait) (enabled : Bool) (i last : ℕ) (r : Option Status) : Type 0 where
  pub status : Status
  pub at : ℕ
  pub ended : r ≡ some status
  pub from : i ≤ at
  pub bound : at ≤ last
  pub waiting : (j : ℕ) → i ≤ j → j < at → IsWaiting w enabled j
  pub decides : Decides w enabled at status

module _ (w : Wait) (enabled : Bool) (last : ℕ) (time_up : w.late last ≡ true) where
  IsOver-now :
      (i : ℕ) (s : Status) → i ≤ last → Decides w enabled i s → IsOver w enabled i last (some s)
  IsOver-now i s le d = record {
    status = s;
    at = i;
    ended = refl;
    from = omega arith;
    bound = le;
    waiting = λ j a b. absurd (omega arith);
    decides = d;
  }

  IsOver-later :
      (i : ℕ) (r : Option Status)
      → IsWaiting w enabled i
      → IsOver w enabled (suc i) last r
      → IsOver w enabled i last r
  IsOver-later i r here h = record {
    status = h.status;
    at = h.at;
    ended = h.ended;
    from = omega (arith, h.from);
    bound = h.bound;
    waiting = λ j a b. elim (dec_lt i j) [
      | yes behind ↦ h.waiting j (omega arith) b
      | no first ↦ let same : i ≡ j = omega arith in subst (IsWaiting w enabled) same here
    ];
    decides = h.decides;
  }

  wait_loop-IsOver :
      (fuel i : ℕ)
      → i ≤ last
      → last < i + fuel
      → IsOver w enabled i last (wait_loop fuel w enabled i)
  unfolding wait_loop
  wait_loop-IsOver zero i le enough = absurd (omega arith)
  wait_loop-IsOver (suc fuel) i le enough =
      if-elim (IsOver w enabled i last) (w.csts i == 4294967295)
        (λ gone. IsOver-now i (fail enodev) le gone)
        (λ present.
          if-elim (IsOver w enabled i last) (has_state enabled (rdy (w.csts i)))
            (λ reached. IsOver-now i done le (present, reached))
            (λ other.
              if-elim (IsOver w enabled i last) (w.late i)
                (λ late. IsOver-now i (fail etime) le (other, late))
                (λ early.
                  IsOver-later i _ (record { present = present; other = other; early = early })
                    (wait_loop-IsOver fuel (suc i) (flag-later w.late last i time_up le early)
                      (omega arith)))))

-- Where the clock says by read `last` that the time is up, the wait of `dnvme_wait_ready` ends, on fuel
-- one more than that, at that read or before. It ends well at a read that has the state waited for, with
-- ENODEV at one of all ones, and with ETIME at one without the state behind which the time is up;
-- every read before was none of these.
pub wait_loop-ends :
    (w : Wait) (enabled : Bool) (last : ℕ)
    → w.late last ≡ true
    → IsOver w enabled 0 last (wait_loop (last + 1) w enabled 0)
wait_loop-ends w enabled last time_up =
    wait_loop-IsOver w enabled last time_up (last + 1) 0 (omega arith) (omega arith)
