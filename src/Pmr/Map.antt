-- ===== src/Pmr/Map.antt =====
-- What mapping the persistent memory region leaves.
use dnvme.Base.{
  ℕ, zero, suc, ◌+◌, ◌≤◌, ◌<◌, ◌≡◌, ◌⊎◌, inl, inr, refl, sym, Bool, true, false, not, Option, none,
  some, List, if-elim, flag-later, arith,
}
use mathlib.Core.Path.{subst}
use dnvme.Device.{etime, Status, done, fail, Pmr, Device, Effect}
use dnvme.Cmb.{bit}
use dnvme.Pmr.{
  PmrHw, PmrRun, ended, PmrMapped, mapped, check_pmr, pmr_of, pmr_enable_cba, pmr_reached, pmr_wait,
  waited, config_pmr, keep_pmr, enable_mapped, setup_pmr, map_unless, map_pmr,
}

-- The region was found enabled, or a read in time found it ready.
abbrev pub IsReady : PmrHw → ℕ → Type 0
IsReady hw last = (bit 0 hw.pmrctl ≡ true) ⊎ ((i : ℕ) × (i ≤ last) × (bit 8 (hw.pmrsts i) ≡ false))

module _ (hw : PmrHw) (enable : Bool) (last : ℕ) (time_up : hw.late last ≡ true) where
  -- The end of the wait.
  Waits : Option Status → Type 0
  Waits none = true ≡ false
  Waits (some done) = (i : ℕ) × (i ≤ last) × (pmr_reached enable (hw.pmrsts i) ≡ true)
  Waits (some (fail e)) = e ≡ etime

  pmr_wait-Waits : (fuel i : ℕ) → i ≤ last → last < i + fuel → Waits (pmr_wait fuel hw enable i)
  unfolding pmr_wait Waits
  pmr_wait-Waits zero i le enough = absurd (omega arith)
  pmr_wait-Waits (suc fuel) i le enough =
      if-elim Waits (pmr_reached enable (hw.pmrsts i)) (λ there. (i, le, there))
        (λ not_yet.
          if-elim Waits (hw.late i) (λ late. refl)
            (λ early.
              let more = flag-later hw.late last i time_up le early in
              pmr_wait-Waits fuel (suc i) more (omega arith)))

-- A region that is noted as the controller describes it, in a BAR that is mapped, and ready.
pub record IsMapped (hw : PmrHw) (last : ℕ) (dev dev' : Device) : Type 0 where
  pub noted : dev' ≡ record dev { pmr = some (pmr_of hw); io = dev'.io }
  pub low : 2 ≤ (pmr_of hw).bir
  pub high : (pmr_of hw).bir ≤ 5
  pub bar : hw.bar_mapped (pmr_of hw).bir ≡ true
  pub ready : IsReady hw last

-- What the attempt comes to.
abbrev pub Maps : PmrHw → ℕ → Device → PmrMapped → Type 0
Maps hw last dev PmrMapped.endless = true ≡ false
Maps hw last dev (mapped done dev') = IsMapped hw last dev dev'
Maps hw last dev (mapped (fail e) dev') = dev' ≡ record dev { io = dev'.io }

-- A passed check.
record IsPlaced (hw : PmrHw) : Type 0 where
  low : 2 ≤ (pmr_of hw).bir
  high : (pmr_of hw).bir ≤ 5
  bar : hw.bar_mapped (pmr_of hw).bir ≡ true

check_pmr-IsPlaced : (hw : PmrHw) → check_pmr hw ≡ done → IsPlaced hw
unfolding check_pmr pmr_of
check_pmr-IsPlaced hw e = record { low = ground arith; high = ground arith; bar = ground arith }

module _ (hw : PmrHw) (dev : Device) (last : ℕ) (time_up : hw.late last ≡ true) where
  -- How the configuration ends.
  Configures : PmrRun → Type 0
  Configures PmrRun.endless = true ≡ false
  Configures (ended done io) = IsReady hw last
  Configures (ended (fail e) io) = e ≡ etime

  waited-Configures :
      (io : List Effect) (r : Option Status)
      → Waits hw true last time_up r
      → Configures (waited io r)
  unfolding waited Configures Waits pmr_reached
  waited-Configures io none h = absurd (cc)
  waited-Configures io (some (fail e)) h = h
  waited-Configures io (some done) (i, le, there) = inr (i, le, ground arith)

  found_on : (io : List Effect) → bit 0 hw.pmrctl ≡ true → Configures (ended done io)
  unfolding Configures
  found_on io on = inl on

  config_pmr-Configures : (io : List Effect) → Configures (config_pmr (last + 1) hw true io)
  unfolding config_pmr
  config_pmr-Configures io =
      if-elim Configures (bit 0 hw.pmrctl) (λ on. found_on io on)
        (λ off.
          waited-Configures _ _
            (pmr_wait-Waits hw true last time_up (last + 1) 0 (omega arith) (omega arith)))

  keep_pmr-Maps : (r : PmrRun) → IsPlaced hw → Configures r → Maps hw last dev (keep_pmr hw dev r)
  unfolding keep_pmr Configures
  keep_pmr-Maps PmrRun.endless placed h = h
  keep_pmr-Maps (ended (fail e) io) placed h = refl
  keep_pmr-Maps (ended done io) placed h = record {
    noted = refl;
    low = placed.low;
    high = placed.high;
    bar = placed.bar;
    ready = h;
  }

  enable_mapped-Maps :
      (s : Status) (io : List Effect)
      → IsPlaced hw
      → Maps hw last dev (enable_mapped (last + 1) hw dev (s, io))
  unfolding enable_mapped
  enable_mapped-Maps (fail e) io placed = refl
  enable_mapped-Maps done io placed =
      keep_pmr-Maps (config_pmr (last + 1) hw true io) placed (config_pmr-Configures io)

  setup_pmr-Maps :
      (s : Status) → check_pmr hw ≡ s → Maps hw last dev (setup_pmr (last + 1) hw dev s)
  unfolding setup_pmr
  setup_pmr-Maps (fail e) h = refl
  setup_pmr-Maps done h =
      let told = pmr_enable_cba hw (pmr_of hw) dev.io in
      enable_mapped-Maps told.0 told.1 (check_pmr-IsPlaced hw h)

-- Let no persistent memory region be mapped yet, and let the clock say by read `last` of PMRSTS that the time
-- is up. On fuel one more than that, `dnvme_map_pmr` ends. It succeeds with the region noted that
-- PMRCAP describes, in BAR 2 to 5, which is mapped, and the region was found enabled or PMRSTS said at
-- a read no later than `last` that it is ready; or it fails and changes nothing of the device but for
-- what it wrote to the registers.
pub map_pmr-Maps :
    (hw : PmrHw) (dev : Device) (last : ℕ)
    → hw.late last ≡ true
    → dev.pmr ≡ none
    → Maps hw last dev (map_pmr (last + 1) hw dev)
unfolding map_pmr map_unless
map_pmr-Maps hw dev last time_up e =
    let M = λ (c : Option Pmr). Maps hw last dev (map_unless (last + 1) hw dev c) in
    subst M (sym e) (
      if-elim (Maps hw last dev) (not (bit 56 dev.reg_cap)) (λ _. refl)
        (λ _.
          if-elim (Maps hw last dev) hw.alloc
            (λ _. setup_pmr-Maps hw dev last time_up (check_pmr hw) refl) (λ _. refl)))
