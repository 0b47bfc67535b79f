-- ===== src/Irq/Reach.antt =====
-- modules/dnvme/irq.c: the interrupt sets that the driver can come to, as a relation over the calls
-- that write `struct nvme_irq_set`.
use dnvme.Base.{
  ℕ, ◌<◌, ◌≡◌, inl, inr, refl, sym, ap, ◌∙◌, Bool, false, Option, List, [], ◌∷◌, ◌==◌, Option-cases,
  if-elim, arith,
}
use mathlib.Core.Path.{subst}
use dnvme.Device.{done, fail, Irq, Work, IrqType, int_none, IrqSet, Device, Effect}
use dnvme.Irq.{
  find_icq_node, find_irq_node_by_id, create_icq_node, dnvme_create_icq_node, dnvme_delete_icq_node,
  inc_isr_count, find_work_node_by_vec,
}
use dnvme.Irq.Handler.{queue_work, mask_interrupt, interrupt, update_irq_flag}
use dnvme.Irq.Keys.{irq_keys, work_keys, irq_keys-update, irq_keys-update_found}
use dnvme.Irq.Paired.{create_icq_node-key}
use dnvme.Irq.Scheme.{SchemeMem, Run, clean_interrupt, set_interrupt}
use dnvme.Irq.Check.{Interrupt, IrqHw, MsixPtr}
use dnvme.Irq.Change.{
  vec_under, registered_under, numbered, IsBare, IsCleared, IsActive, Changed,
  clean_interrupt-IsCleared, set_interrupt-ends,
}
use dnvme.Cmd.Reap.{clear_fired}

-- The vectors of different interrupts differ.
abbrev pub Apart : (ℕ → ℕ) → Type 0
Apart vec = (a b : ℕ) → a < b → (vec b == vec a) ≡ false

-- One call that writes the set.
pub data Step : IrqSet → IrqSet → Type 0 where
  change :
      (mem : SchemeMem) (hw : IrqHw) (irq : Interrupt) (ptr : MsixPtr) {set : IrqSet}
      (io : List Effect)
      → Apart mem.entry_vec
      → Step set (set_interrupt mem hw irq ptr set io).0.1
  clean : {set : IrqSet} (io : List Effect) → Step set (clean_interrupt set io).0
  track :
      (alloc : Bool) {set : IrqSet} (cq_id irq_no : ℕ)
      → Step set (dnvme_create_icq_node alloc set cq_id irq_no).1
  untrack : {set : IrqSet} (cq_id irq_no : ℕ) → Step set (dnvme_delete_icq_node set cq_id irq_no)
  fire : (dev : Device) (int_vec : ℕ) → Step dev.irq_set (interrupt dev int_vec).1.irq_set
  work : (dev : Device) (irq_id : ℕ) → Step dev.irq_set (update_irq_flag dev irq_id).irq_set
  reset : (dev : Device) (irq_no : ℕ) → Step dev.irq_set (clear_fired irq_no dev).irq_set

-- The sets that follow on that of a device just probed.
pub data Reach : IrqSet → Type 0 where
  start : (set : IrqSet) → IsCleared set → Reach set
  later : {set set' : IrqSet} → Reach set → Step set set' → Reach set'

-- Both lists hold the interrupts of the active scheme, numbered from 0, each with its own vector.
pub record IsNumbered (set : IrqSet) : Type 0 where
  pub vec : ℕ → ℕ
  pub apart : Apart vec
  pub irqs : irq_keys set.irq_list ≡ numbered vec (registered_under set.irq_type set.nr_irq)
  pub works : work_keys set.work_list ≡ numbered vec (registered_under set.irq_type set.nr_irq)

-- A write that keeps the keys, the type and the count.
IsNumbered-same :
    (set set' : IrqSet)
    → IsNumbered set
    → irq_keys set'.irq_list ≡ irq_keys set.irq_list
    → set'.work_list ≡ set.work_list
    → set'.irq_type ≡ set.irq_type
    → set'.nr_irq ≡ set.nr_irq
    → IsNumbered set'
IsNumbered-same set set' h i w t n = record {
  vec = h.vec;
  apart = h.apart;
  irqs = i ∙ h.irqs ∙ sym count;
  works = ap work_keys w ∙ h.works ∙ sym count;
}
  where
    count :
        numbered h.vec (registered_under set'.irq_type set'.nr_irq)
        ≡ numbered h.vec (registered_under set.irq_type set.nr_irq)
    count =
        ap (λ type. numbered h.vec (registered_under type set'.nr_irq)) t
        ∙ ap (λ num. numbered h.vec (registered_under set.irq_type num)) n

IsCleared-IsNumbered : (set : IrqSet) → IsCleared set → IsNumbered set
IsCleared-IsNumbered set h =
    let none_left = sym (ap (λ t. numbered (λ i. i) (registered_under t set.nr_irq)) h.inactive) in
    record {
      vec = λ i. i;
      apart = λ a b lt. ground arith;
      irqs = ap irq_keys h.bare.irqs ∙ none_left;
      works = ap work_keys h.bare.works ∙ none_left;
    }

vec_under-Apart :
    (mem : SchemeMem) (type : IrqType) → Apart mem.entry_vec → Apart (vec_under mem type)
vec_under-Apart mem IrqType.msix h = h
vec_under-Apart mem IrqType.msi_single h = λ a b lt. ground arith
vec_under-Apart mem IrqType.msi_multi h = λ a b lt. ground arith
vec_under-Apart mem IrqType.pin h = λ a b lt. ground arith
vec_under-Apart mem IrqType.int_none h = λ a b lt. ground arith

IsActive-IsNumbered :
    (mem : SchemeMem) (type : IrqType) (num : ℕ) (set : IrqSet)
    → Apart mem.entry_vec
    → IsActive mem type num set
    → IsNumbered set
IsActive-IsNumbered mem type num set apart h =
    let vec = vec_under mem type in
    let count =
      ap (λ t. numbered vec (registered_under t set.nr_irq)) h.active
      ∙ ap (λ n. numbered vec (registered_under type n)) h.count in
    record {
      vec = vec;
      apart = vec_under-Apart mem type apart;
      irqs = h.irqs ∙ sym count;
      works = h.works ∙ sym count;
    }

Changed-IsNumbered :
    (mem : SchemeMem) (asked : Option IrqType) (num : ℕ) (before : IrqSet) (r : Run)
    → Apart mem.entry_vec
    → IsNumbered before
    → Changed mem asked num before r
    → IsNumbered r.1
Changed-IsNumbered mem asked num before (done, set, io) apart h (type, e, active) =
    IsActive-IsNumbered mem type num set apart active
Changed-IsNumbered mem asked num before (fail e, set, io) apart h (inl same) =
    subst IsNumbered (sym same) h
Changed-IsNumbered mem asked num before (fail e, set, io) apart h (inr cleared) =
    IsCleared-IsNumbered set cleared

irq_keys-empty : (ns : List Irq) → irq_keys ns ≡ [] → ns ≡ []
irq_keys-empty [] e = refl
irq_keys-empty (n ∷ ns) e = cc

work_keys-empty : (ns : List Work) → work_keys ns ≡ [] → ns ≡ []
work_keys-empty [] e = refl
work_keys-empty (n ∷ ns) e = cc

-- Where no scheme is active no node is left.
pub IsNumbered-idle : (set : IrqSet) → IsNumbered set → set.irq_type ≡ int_none → IsBare set
IsNumbered-idle set h e =
    let none_left = ap (λ t. numbered h.vec (registered_under t set.nr_irq)) e in
    record {
      irqs = irq_keys-empty _ (h.irqs ∙ none_left);
      works = work_keys-empty _ (h.works ∙ none_left);
    }

icq-keys :
    (alloc : Bool) (set : IrqSet) (cq_id irq_no : ℕ)
    → IsNumbered set
    → IsNumbered (dnvme_create_icq_node alloc set cq_id irq_no).1
unfolding dnvme_create_icq_node
icq-keys alloc set cq_id irq_no h = elim (Option-cases (find_irq_node_by_id set.irq_list irq_no)) [
  | inl e ↦ rw (e, dnvme_create_icq_node) h
  | inr (n, e) ↦
      let (p, q) = create_icq_node-key alloc n cq_id in
      let kept =
        irq_keys-update_found irq_no n (create_icq_node alloc n cq_id).1 set.irq_list e p q in
      rw (e, dnvme_create_icq_node) (IsNumbered-same set _ h kept refl refl refl)
]

queue_work-IsNumbered :
    (set : IrqSet) (irq_id : ℕ) → IsNumbered set → IsNumbered (queue_work set irq_id)
unfolding queue_work
queue_work-IsNumbered set irq_id h =
    if-elim IsNumbered (find_icq_node set.queued irq_id) (λ _. h)
      (λ _. IsNumbered-same set _ h refl refl refl refl)

interrupt-IsNumbered :
    (dev : Device) (v : ℕ) → IsNumbered dev.irq_set → IsNumbered (interrupt dev v).1.irq_set
unfolding interrupt mask_interrupt
interrupt-IsNumbered dev v h = elim (Option-cases (find_work_node_by_vec dev.irq_set.work_list v)) [
  | inl e ↦ rw (e, interrupt) h
  | inr (w, e) ↦ rw (e, interrupt) (queue_work-IsNumbered dev.irq_set w.irq_id h)
]

-- Every call that writes the interrupt set keeps both lists numbered as the active scheme has it.
pub Step-IsNumbered : {set set' : IrqSet} → Step set set' → IsNumbered set → IsNumbered set'
unfolding dnvme_delete_icq_node update_irq_flag inc_isr_count
Step-IsNumbered (change mem hw irq ptr {set} io apart) h =
    Changed-IsNumbered mem irq.irq_type irq.num_irqs set _ apart h
      (set_interrupt-ends mem hw irq ptr set io apart (IsNumbered-idle set h))
Step-IsNumbered (clean {set} io) h = IsCleared-IsNumbered _ (clean_interrupt-IsCleared set io)
Step-IsNumbered (track alloc {set} cq_id irq_no) h = icq-keys alloc set cq_id irq_no h
Step-IsNumbered (untrack {set} cq_id irq_no) h =
    IsNumbered-same set _ h (irq_keys-update irq_no _ set.irq_list (λ n. (refl, refl))) refl refl
      refl
Step-IsNumbered (fire dev int_vec) h = interrupt-IsNumbered dev int_vec h
Step-IsNumbered (work dev irq_id) h =
    IsNumbered-same dev.irq_set _ h
      (irq_keys-update irq_id _ dev.irq_set.irq_list (λ n. (refl, refl))) refl refl refl
Step-IsNumbered (reset dev irq_no) h =
    IsNumbered-same dev.irq_set _ h
      (irq_keys-update irq_no _ dev.irq_set.irq_list (λ n. (refl, refl))) refl refl refl

-- In every interrupt set that the driver comes to from a device just probed, by whatever calls that
-- change or clean the scheme, track queues, take interrupts, run their work items or reset their
-- flags, and whether these succeed or fail: the irq list and the work list hold exactly the
-- interrupts of the active scheme, numbered from 0, under vectors that differ.
pub Reach-IsNumbered : {set : IrqSet} → Reach set → IsNumbered set
Reach-IsNumbered (start set h) = IsCleared-IsNumbered set h
Reach-IsNumbered (later r step) = Step-IsNumbered step (Reach-IsNumbered r)
