-- ===== src/Ctrl/Clean.antt =====
-- modules/dnvme/core.c: what `dnvme_cleanup_device` leaves of the driver's data.
use dnvme.Base.{
  ℕ, ◌≡◌, refl, sym, ap, ◌∙◌, Bool, true, false, ◌&&◌, none, [], ◌∷◌, ◌==◌, if-elim, arith, ◌⊎◌,
}
use mathlib.Core.Path.{subst}
use dnvme.Base.Dict.{Dict, lookup}
use dnvme.Device.{State, Sq, Cq, Meta, Device, done, fail, write_reg, is_sound}
use dnvme.Irq.Scheme.{clean_interrupt}
use dnvme.Irq.Change.{IsCleared, clean_interrupt-IsCleared}
use dnvme.Queue.{release_sq, release_cq}
use dnvme.Queue.Admin.{
  reinit_asq, reinit_acq, delete_all_sqs, delete_all_cqs, delete_all_queues, saves_aq,
}
use dnvme.Queue.Teardown.{IsKeyedSqs, IsKeyedCqs, delete_all_queues-empty}
use dnvme.Meta.{delete_meta_node, delete_metas, delete_meta_nodes}
use dnvme.Meta.Life.{IsKeyedMetas, delete_meta_nodes-none}
use dnvme.Hmb.{release_hmb}
use dnvme.Ctrl.{CtrlRun, ended, hang, cleanup_device, reg_cc, cc_disable}

-- The parts of the device that a deletion of queues leaves.
record KeepsOthers (dev dev' : Device) : Type 0 where
  metas : dev'.metas ≡ dev.metas
  irq : dev'.irq_set ≡ dev.irq_set
  hmb : dev'.hmb ≡ dev.hmb

KeepsOthers-trans : {a b c : Device} → KeepsOthers a b → KeepsOthers b c → KeepsOthers a c
KeepsOthers-trans h k = record {
  metas = k.metas ∙ h.metas;
  irq = k.irq ∙ h.irq;
  hmb = k.hmb ∙ h.hmb;
}

KeepsOthers-self : (dev : Device) → KeepsOthers dev dev
KeepsOthers-self dev = record { metas = refl; irq = refl; hmb = refl }

delete_all_sqs-KeepsOthers :
    (save_aq : Bool) (m : Dict Sq) (dev : Device) → KeepsOthers dev (delete_all_sqs save_aq m dev)
unfolding delete_all_sqs reinit_asq release_sq
delete_all_sqs-KeepsOthers save_aq [] dev = KeepsOthers-self dev
delete_all_sqs-KeepsOthers save_aq ((i, sq) ∷ m) dev =
    KeepsOthers-trans
      (if-elim (KeepsOthers dev) (save_aq && sq.sq_id == 0)
        (λ _. record { metas = refl; irq = refl; hmb = refl })
        (λ _. record { metas = refl; irq = refl; hmb = refl }))
      (delete_all_sqs-KeepsOthers save_aq m _)

delete_all_cqs-KeepsOthers :
    (save_aq : Bool) (m : Dict Cq) (dev : Device) → KeepsOthers dev (delete_all_cqs save_aq m dev)
unfolding delete_all_cqs reinit_acq release_cq
delete_all_cqs-KeepsOthers save_aq [] dev = KeepsOthers-self dev
delete_all_cqs-KeepsOthers save_aq ((i, cq) ∷ m) dev =
    KeepsOthers-trans
      (if-elim (KeepsOthers dev) (save_aq && cq.q_id == 0)
        (λ _. record { metas = refl; irq = refl; hmb = refl })
        (λ _. record { metas = refl; irq = refl; hmb = refl }))
      (delete_all_cqs-KeepsOthers save_aq m _)

delete_all_queues-KeepsOthers :
    (dev : Device) (state : State) → KeepsOthers dev (delete_all_queues dev state)
unfolding delete_all_queues
delete_all_queues-KeepsOthers dev state =
    let dev₁ = delete_all_sqs (saves_aq state) dev.sqs dev in
    let h =
      KeepsOthers-trans (delete_all_sqs-KeepsOthers (saves_aq state) dev.sqs dev)
        (delete_all_cqs-KeepsOthers (saves_aq state) dev₁.cqs dev₁) in
    if-elim (KeepsOthers dev) (saves_aq state) (λ _. h)
      (λ _. record { metas = h.metas; irq = h.irq; hmb = h.hmb })

-- The parts that the last two steps leave.
record KeepsQueues (dev dev' : Device) : Type 0 where
  sqs : dev'.sqs ≡ dev.sqs
  cqs : dev'.cqs ≡ dev.cqs
  irq : dev'.irq_set ≡ dev.irq_set

delete_metas-KeepsQueues : (ms : Dict Meta) (dev : Device) → KeepsQueues dev (delete_metas ms dev)
unfolding delete_metas delete_meta_node
delete_metas-KeepsQueues [] dev = record { sqs = refl; cqs = refl; irq = refl }
delete_metas-KeepsQueues ((i, m) ∷ ms) dev =
    let rest = delete_metas-KeepsQueues ms (delete_meta_node dev m) in
    record { sqs = rest.sqs; cqs = rest.cqs; irq = rest.irq }

record IsReleased (dev dev' : Device) : Type 0 where
  queues : KeepsQueues dev dev'
  metas : dev'.metas ≡ dev.metas
  gone : dev'.hmb ≡ none

release_hmb-IsReleased : (dev : Device) → IsReleased dev (release_hmb dev)
unfolding release_hmb
release_hmb-IsReleased dev = record {
  queues = record { sqs = ground arith; cqs = ground arith; irq = ground arith };
  metas = ground arith;
  gone = ground arith;
}

-- No data is left of the device, but for the queues numbered 0 where they are saved.
pub record IsClean (save_aq : Bool) (dev : Device) : Type 0 where
  pub interrupts : IsCleared dev.irq_set
  pub sqs : (id : ℕ) → (save_aq && id == 0) ≡ false → lookup id dev.sqs ≡ none
  pub cqs : (id : ℕ) → (save_aq && id == 0) ≡ false → lookup id dev.cqs ≡ none
  pub metas : (id : ℕ) → lookup id dev.metas ≡ none
  pub hmb : dev.hmb ≡ none

-- The device's nodes stand under the numbers that they carry.
pub record IsKeyed (dev : Device) : Type 0 where
  pub sqs : IsKeyedSqs dev.sqs
  pub cqs : IsKeyedCqs dev.cqs
  pub metas : IsKeyedMetas dev.metas

-- `dnvme_cleanup_device` of a device whose nodes stand under the numbers that they carry: no
-- interrupt scheme is active and no node of one is left, there is no queue under any number, but for
-- number 0 where the admin queues are to be saved, no meta buffer, and no host memory buffer.
pub cleanup_device-IsClean :
    (dev : Device) (state : State)
    → IsKeyed dev
    → IsClean (saves_aq state) (cleanup_device dev state)
unfolding cleanup_device
cleanup_device-IsClean dev state keyed =
    let (set, io) = clean_interrupt dev.irq_set dev.io in
    let dev₁ : Device = record dev { irq_set = set; io = io } in
    let dev₂ = delete_all_queues dev₁ state in
    let dev₃ = delete_meta_nodes dev₂ in
    let others = delete_all_queues-KeepsOthers dev₁ state in
    let kept = delete_metas-KeepsQueues dev₂.metas dev₂ in
    let released = release_hmb-IsReleased dev₃ in
    let keyed_metas = subst IsKeyedMetas (sym others.metas) keyed.metas in
    let queues = released.queues in
    let no_queue = λ (id : ℕ) (other : (saves_aq state && id == 0) ≡ false).
      delete_all_queues-empty dev₁ state id keyed.sqs keyed.cqs other in
    record {
      interrupts =
          subst IsCleared (sym (queues.irq ∙ kept.irq ∙ others.irq))
            (clean_interrupt-IsCleared dev.irq_set dev.io);
      sqs = λ id other. ap (lookup id) (queues.sqs ∙ kept.sqs) ∙ (no_queue id other).0;
      cqs = λ id other. ap (lookup id) (queues.cqs ∙ kept.cqs) ∙ (no_queue id other).1;
      metas = λ id. ap (lookup id) released.metas ∙ delete_meta_nodes-none dev₂ id keyed_metas;
      hmb = released.gone;
    }

-- The device is clean, or cleaning up has gone through a null pointer or freed one that was not set.
abbrev pub Cleans : State → Device → Type 0
Cleans state dev =
    (is_sound dev.io ≡ false) ⊎ ((is_sound dev.io ≡ true) × IsClean (saves_aq state) dev)

-- What a call that disables the controller leaves, with the device as it was told to disable.
abbrev pub Disables : State → Device → CtrlRun → Type 0
Disables state told (ended done dev) = Cleans state dev
Disables state told (ended (fail e) dev) = dev ≡ told
Disables state told hang = true ≡ false

-- The device with CC.EN cleared.
abbrev pub told_disable : ℕ → Device → Device
told_disable cc dev = record dev { io = write_reg reg_cc (cc_disable cc) ∷ dev.io }
