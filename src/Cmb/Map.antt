-- ===== src/Cmb/Map.antt =====
-- What mapping the controller memory buffer leaves.
use dnvme.Base.{
  ℕ, ◌+◌, ◌-◌, ◌*◌, ◌/◌, ◌%◌, ◌^◌, ◌≤◌, ◌<◌, ◌≡◌, refl, sym, ap, not, Option, none, some, List, [],
  ◌∷◌, ◌++◌, ◌&&◌, ltb, ltb→lt, ◌==◌, if-elim, Option-cases, inl, inr, arith,
}
use mathlib.Core.Path.{subst}
use native.Mathlib.Nat.{mod-le}
use dnvme.Device.{
  Errno, eperm, eopnotsupp, Status, done, fail, Cmb, Device, Effect, add_p2pdma, publish_p2pmem,
}
use dnvme.Queue.{cmb_support_sq, cmb_support_cq}
use dnvme.Cmb.{
  bit, CmbHw, ended, CmbMapped, mapped, cmb_parse_capability, cmb_size_unit, cmbsz_szu, cmbloc_bir,
  cmb_size, tell, reduce, publish, finish_cmb, add_cmb, cmb_setup, keep_cmb, map_unless, map_cmb,
}

-- A buffer that lies in its BAR, is no larger than the controller reports, and was registered as it is
-- noted. The queues find in it the support that the controller reports.
pub record IsMapped (hw : CmbHw) (dev dev' : Device) : Type 0 where
  pub cmb : Cmb
  pub noted : dev'.cmb ≡ some cmb
  pub place : cmb.bar ≡ hw.cmbloc % 8
  pub inside : cmb.offset + cmb.size ≤ hw.bar_len cmb.bar
  pub reported : cmb.size ≤ 2 ^ (12 + 4 * (hw.cmbsz / 256 % 16)) * (hw.cmbsz / 4096 % 1048576)
  pub sq_support : cmb_support_sq dev'.cmb ≡ bit 0 hw.cmbsz
  pub cq_support : cmb_support_cq dev'.cmb ≡ bit 1 hw.cmbsz
  pub told :
      (ws : List Effect) × (rest : List Effect) × (dev'.io
        ≡ ws ++ add_p2pdma cmb.bar cmb.size cmb.offset ∷ rest)
  pub others : dev' ≡ record dev { cmb = dev'.cmb; io = dev'.io }

-- What the attempt comes to.
abbrev pub Maps : CmbHw → Device → CmbMapped → Type 0
Maps hw dev CmbMapped.undefined = 64 ≤ 12 + 4 * (hw.cmbsz / 256 % 16)
Maps hw dev (mapped done dev') = IsMapped hw dev dev'
Maps hw dev (mapped (fail e) dev') = dev' ≡ record dev { io = dev'.io }

-- The cut of a buffer that starts in its BAR.
record IsReduced (len : ℕ) (cmb cmb' : Cmb) : Type 0 where
  bar : cmb'.bar ≡ cmb.bar
  inside : cmb'.offset + cmb'.size ≤ len
  less : cmb'.size ≤ cmb.size
  sqs : cmb'.sqs ≡ cmb.sqs
  cqs : cmb'.cqs ≡ cmb.cqs

reduce-IsReduced : (len : ℕ) (cmb : Cmb) → cmb.offset ≤ len → IsReduced len cmb (reduce len cmb)
unfolding reduce
reduce-IsReduced len cmb le =
    if-elim (IsReduced len cmb) (ltb (len - cmb.offset) cmb.size)
      (λ e.
        let longer : len - cmb.offset < cmb.size = ltb→lt (len - cmb.offset) cmb.size e in
        record { bar = refl; inside = omega arith; less = omega arith; sqs = refl; cqs = refl })
      (λ e.
        let fits : cmb.size ≤ len - cmb.offset = ground arith in
        record { bar = refl; inside = omega arith; less = omega arith; sqs = refl; cqs = refl })

publish-told :
    (cmb : Cmb) (io : List Effect)
    → (ws : List Effect) × (rest : List Effect) × (publish cmb io
        ≡ ws ++ add_p2pdma cmb.bar cmb.size cmb.offset ∷ rest)
unfolding publish
publish-told cmb io =
    if-elim
      (λ l.
        (ws : List Effect) × (rest : List Effect) × (l
          ≡ ws ++ add_p2pdma cmb.bar cmb.size cmb.offset ∷ rest))
      (cmb.wds && cmb.rds) (λ e. (publish_p2pmem ∷ [], io, refl)) (λ e. ([], io, refl))

refused-Maps :
    (hw : CmbHw) (dev : Device) (e : Errno) (io : List Effect)
    → Maps hw dev (keep_cmb dev (ended (fail e) none io))
unfolding keep_cmb
refused-Maps hw dev e io = refl

module _ (hw : CmbHw) (dev : Device) (unit : ℕ)
    (is_unit : unit ≡ 2 ^ (12 + 4 * (hw.cmbsz / 256 % 16))) where
  keep_cmb-IsMapped :
      (cmb : Cmb) (io : List Effect)
      → IsReduced (hw.bar_len (cmbloc_bir hw.cmbloc)) (cmb_parse_capability hw unit) cmb
      → IsMapped hw dev (record dev { cmb = some cmb; io = publish cmb io })
  unfolding cmb_parse_capability cmbloc_bir cmb_support_sq cmb_support_cq cmb_size
  keep_cmb-IsMapped cmb io r =
      let place = r.bar in
      let inside = r.inside in
      let less = r.less in
      let whole = mod-le (unit * (hw.cmbsz / 4096 % 1048576)) (2 ^ 64) in
      record {
        cmb = cmb;
        noted = refl;
        place = place;
        inside = subst (λ bar. cmb.offset + cmb.size ≤ hw.bar_len bar) (sym place) inside;
        reported = omega (arith, less, whole, ap (λ u. u * (hw.cmbsz / 4096 % 1048576)) is_unit);
        sq_support = r.sqs;
        cq_support = r.cqs;
        told = publish-told cmb io;
        others = refl;
      }

  finish_cmb-Maps :
      (s : Status) (cmb : Cmb) (io : List Effect)
      → IsReduced (hw.bar_len (cmbloc_bir hw.cmbloc)) (cmb_parse_capability hw unit) cmb
      → Maps hw dev (keep_cmb dev (finish_cmb s cmb io))
  unfolding finish_cmb keep_cmb
  finish_cmb-Maps (fail e) cmb io r = refl
  finish_cmb-Maps done cmb io r = keep_cmb-IsMapped cmb io r

  reduce-parsed :
      (cmb_parse_capability hw unit).offset ≤ hw.bar_len (cmb_parse_capability hw unit).bar
      → IsReduced
          (hw.bar_len (cmbloc_bir hw.cmbloc))
          (cmb_parse_capability hw unit)
          (reduce (hw.bar_len (cmb_parse_capability hw unit).bar) (cmb_parse_capability hw unit))
  unfolding cmb_parse_capability
  reduce-parsed le =
      reduce-IsReduced (hw.bar_len (cmbloc_bir hw.cmbloc)) (cmb_parse_capability hw unit) le

  add_cmb-Maps :
      (io : List Effect) → Maps hw dev (keep_cmb dev (add_cmb hw (cmb_parse_capability hw unit) io))
  unfolding add_cmb
  add_cmb-Maps io =
      let cmb = cmb_parse_capability hw unit in
      let len = hw.bar_len cmb.bar in
      if-elim (λ r. Maps hw dev (keep_cmb dev r)) (ltb len cmb.offset)
        (λ behind. refused-Maps hw dev eperm io)
        (λ e.
          let le : cmb.offset ≤ len = ground arith in
          finish_cmb-Maps hw.add_resource (reduce len cmb) _ (reduce-parsed le))

-- The size unit is a power of two, or the shift has no meaning.
cmb_size_unit-none : (cmbsz : ℕ) → cmb_size_unit cmbsz ≡ none → 64 ≤ 12 + 4 * (cmbsz / 256 % 16)
unfolding cmb_size_unit cmbsz_szu
cmb_size_unit-none cmbsz e = ground arith

cmb_size_unit-some :
    (cmbsz unit : ℕ) → cmb_size_unit cmbsz ≡ some unit → unit ≡ 2 ^ (12 + 4 * (cmbsz / 256 % 16))
unfolding cmb_size_unit cmbsz_szu
cmb_size_unit-some cmbsz unit e = ground arith

cmb_setup-Maps : (hw : CmbHw) (dev : Device) → Maps hw dev (keep_cmb dev (cmb_setup hw dev.io))
unfolding cmb_setup keep_cmb
cmb_setup-Maps hw dev =
    if-elim (λ r. Maps hw dev (keep_cmb dev r)) (hw.cmbsz == 0)
      (λ e. refused-Maps hw dev eopnotsupp (tell 1 dev.io))
      (λ e. elim (Option-cases (cmb_size_unit hw.cmbsz)) [
        | inl far ↦ rw (far, keep_cmb) (cmb_size_unit-none hw.cmbsz far)
        | inr (unit, e) ↦
            rw e (add_cmb-Maps hw dev unit (cmb_size_unit-some hw.cmbsz unit e) (tell 1 dev.io))
      ])

-- Let no controller memory buffer be mapped yet. `dnvme_map_cmb` then succeeds with a buffer that lies in the
-- BAR that CMBLOC names, is no larger than CMBSZ reports, is registered with the place and size that
-- are noted, and shows the queues the support that CMBSZ reports; or it fails and changes nothing of
-- the device but for what it wrote to the registers; or its size unit is 2 to the 64 or more, for
-- which the shift has no meaning.
pub map_cmb-Maps : (hw : CmbHw) (dev : Device) → dev.cmb ≡ none → Maps hw dev (map_cmb hw dev)
unfolding map_cmb map_unless
map_cmb-Maps hw dev e =
    let M = λ (c : Option Cmb). Maps hw dev (map_unless hw dev c) in
    subst M (sym e) (
      if-elim (Maps hw dev) (not (bit 57 dev.reg_cap)) (λ _. refl)
        (λ _. if-elim (Maps hw dev) hw.alloc (λ _. cmb_setup-Maps hw dev) (λ _. refl)))
