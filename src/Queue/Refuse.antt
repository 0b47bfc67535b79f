-- ===== src/Queue/Refuse.antt =====
-- modules/dnvme/ioctl.c: an I/O completion queue that cannot be prepared.
use dnvme.Base.{
  ℕ, ◌≡◌, refl, sym, ap, ◌∙◌, Bool, true, false, Option, none, some, arith, List, [], ◌∷◌,
  Option-cases, inl, inr, if◌then◌else◌, ◌⊎◌,
}
use mathlib.Core.Path.{subst}
use dnvme.Base.Dict.{lookup, insert, lookup-erase, lookup-insert}
use dnvme.Device.{Errno, Status, done, fail, Irq, IrqSet, Cq, Device, Effect, is_sound}
use dnvme.Irq.{create_icq_node, dnvme_create_icq_node, update_irq_node, find_irq_node_by_id}
use dnvme.Queue.{
  PrepCq, QueueMem, Buffer, alloc_cq, fill_cq, insert_cq, new_cq, alloc_buffer, release_cq,
  cmb_support_cq, queue_size,
}
use dnvme.Queue.Admin.{check_qid_unique}
use dnvme.Queue.Prepare.{track_cq, prepared_cq, prepare_cq}

-- The completion queues are found as before and the interrupt set is the same.
pub record IsSame (dev dev' : Device) : Type 0 where
  pub cqs : (id : ℕ) → lookup id dev'.cqs ≡ lookup id dev.cqs
  pub sqs : dev'.sqs ≡ dev.sqs
  pub irq_set : dev'.irq_set ≡ dev.irq_set

Status-cases : (s : Status) → (s ≡ done) ⊎ ((e : Errno) × (s ≡ fail e))
Status-cases done = inl refl
Status-cases (fail e) = inr (e, refl)

abbrev FailsSame : Device → Status × Device → Type 0
FailsSame dev (done, dev') = Unit
FailsSame dev (fail e, dev') = IsSame dev dev'

FailsSame-if :
    (dev : Device) (b : Bool) (x y : Status × Device)
    → FailsSame dev x
    → FailsSame dev y
    → FailsSame dev (if b then x else y)
FailsSame-if dev true x y p q = p
FailsSame-if dev false x y p q = q

-- A write that puts the found node back.
update-found_same :
    (id : ℕ) (n : Irq) (ns : List Irq)
    → find_irq_node_by_id ns id ≡ some n
    → update_irq_node id (λ _. n) ns ≡ ns
unfolding update_irq_node find_irq_node_by_id
update-found_same id n [] e = refl
update-found_same id n (k ∷ ks) e = ground (arith, update-found_same id n ks)

create_icq_node-fails :
    (alloc : Bool) (irq : Irq) (id : ℕ) (e : Errno)
    → (create_icq_node alloc irq id).0 ≡ fail e
    → (create_icq_node alloc irq id).1 ≡ irq
unfolding create_icq_node
create_icq_node-fails alloc irq id e p = ground arith

dnvme_create_icq_node-found :
    (alloc : Bool) (set : IrqSet) (cq_id irq_no : ℕ) (n : Irq)
    → find_irq_node_by_id set.irq_list irq_no ≡ some n
    → dnvme_create_icq_node alloc set cq_id irq_no ≡ (
      (create_icq_node alloc n cq_id).0,
      record set {
        irq_list = update_irq_node irq_no (λ _. (create_icq_node alloc n cq_id).1) set.irq_list;
      },
    )
unfolding dnvme_create_icq_node
dnvme_create_icq_node-found alloc set cq_id irq_no n f = rw (f, dnvme_create_icq_node) refl

dnvme_create_icq_node-fails :
    (alloc : Bool) (set : IrqSet) (cq_id irq_no : ℕ) (e : Errno)
    → (dnvme_create_icq_node alloc set cq_id irq_no).0 ≡ fail e
    → (dnvme_create_icq_node alloc set cq_id irq_no).1 ≡ set
unfolding dnvme_create_icq_node
dnvme_create_icq_node-fails alloc set cq_id irq_no e p =
    elim (Option-cases (find_irq_node_by_id set.irq_list irq_no)) [
      | inl f ↦ rw (f, dnvme_create_icq_node) refl
      | inr (n, f) ↦
          let found = dnvme_create_icq_node-found alloc set cq_id irq_no n f in
          let kept = create_icq_node-fails alloc n cq_id e (sym (ap (λ r. r.0) found) ∙ p) in
          ap (λ r. r.1) found
          ∙ ap (λ m. record set { irq_list = update_irq_node irq_no (λ _. m) set.irq_list }) kept
          ∙ ap (λ l. record set { irq_list = l }) (update-found_same irq_no n set.irq_list f)
    ]

-- A queue put in under a free number and taken out again.
release_cq-insert :
    (dev : Device) (cq : Cq) (id : ℕ)
    → lookup cq.q_id dev.cqs ≡ none
    → lookup id (release_cq (record dev { cqs = insert cq.q_id cq dev.cqs }) cq).cqs
      ≡ lookup id dev.cqs
unfolding release_cq
release_cq-insert dev cq id free =
    let a = lookup-erase cq.q_id id (insert cq.q_id cq dev.cqs) in
    let b = lookup-insert cq.q_id id cq dev.cqs in ground (arith, a, b)

IsSame-refl : (dev : Device) → IsSame dev dev
IsSame-refl dev = record { cqs = λ id. refl; sqs = refl; irq_set = refl }

release_cq-rest :
    (dev : Device) (cq : Cq)
    → ((release_cq dev cq).irq_set ≡ dev.irq_set) × ((release_cq dev cq).sqs ≡ dev.sqs)
unfolding release_cq
release_cq-rest dev cq = (refl, refl)

track_cq-FailsSame :
    (alloc : Bool) (dev : Device) (cq : Cq)
    → lookup cq.q_id dev.cqs ≡ none
    → FailsSame dev (track_cq alloc (record dev { cqs = insert cq.q_id cq dev.cqs }) cq)
unfolding track_cq
track_cq-FailsSame alloc dev cq free =
    elim (Status-cases (dnvme_create_icq_node alloc dev.irq_set cq.q_id cq.irq_no).0) [
      | inl e ↦ rw (e, track_cq) tt
      | inr (err, e) ↦
          let same = dnvme_create_icq_node-fails alloc dev.irq_set cq.q_id cq.irq_no err e in
          rw (e, same, track_cq)
            (record {
              cqs = λ id. release_cq-insert dev cq id free;
              sqs = (release_cq-rest (record dev { cqs = insert cq.q_id cq dev.cqs }) cq).1;
              irq_set = (release_cq-rest (record dev { cqs = insert cq.q_id cq dev.cqs }) cq).0;
            })
    ]

prepared_cq-FailsSame :
    (alloc xa : Bool) (dev : Device) (cq : Cq)
    → lookup cq.q_id dev.cqs ≡ none
    → FailsSame dev (prepared_cq alloc (insert_cq xa dev cq))
unfolding prepared_cq insert_cq
prepared_cq-FailsSame alloc false dev cq free =
    rw (free, insert_cq) (record { cqs = λ id. refl; sqs = refl; irq_set = refl })
prepared_cq-FailsSame alloc true dev cq free =
    let tracked = track_cq-FailsSame alloc dev cq free in
    rw (free, insert_cq) (FailsSame-if dev cq.irq_enabled _ _ tracked tt)

filled_cq-FailsSame :
    (mem : QueueMem) (alloc : Bool) (dev : Device) (prep : PrepCq) (cqes : ℕ)
    (b : Option Buffer × List Effect)
    → lookup prep.cq_id dev.cqs ≡ none
    → FailsSame dev (prepared_cq alloc (fill_cq mem dev prep cqes b))
unfolding fill_cq prepared_cq new_cq
filled_cq-FailsSame mem alloc dev prep cqes (none, undone) free = record {
  cqs = λ id. refl;
  sqs = refl;
  irq_set = refl;
}
filled_cq-FailsSame mem alloc dev prep cqes (some b, undone) free =
    prepared_cq-FailsSame alloc mem.xa_ok dev (new_cq mem dev prep cqes b) free

alloc_cq-FailsSame :
    (mem : QueueMem) (alloc : Bool) (dev : Device) (prep : PrepCq) (cqes : ℕ)
    → lookup prep.cq_id dev.cqs ≡ none
    → FailsSame dev (prepared_cq alloc (alloc_cq mem dev prep cqes))
unfolding alloc_cq prepared_cq
alloc_cq-FailsSame mem alloc dev prep cqes free =
    let supported = cmb_support_cq dev.cmb in
    let buffer =
      alloc_buffer mem supported prep.contig prep.use_cmb (queue_size prep.elements cqes) in
    let filled = filled_cq-FailsSame mem alloc dev prep cqes buffer free in
    let same = IsSame-refl dev in ground (arith, filled, same)

prepare_cq-FailsSame :
    (mem : QueueMem) (alloc : Bool) (dev : Device) (prep : PrepCq)
    → FailsSame dev (prepare_cq mem alloc dev prep)
unfolding prepare_cq check_qid_unique
prepare_cq-FailsSame mem alloc dev prep =
    let same = IsSame-refl dev in
    elim (Option-cases (lookup prep.cq_id dev.cqs)) [
      | inl free ↦
          let prepared = alloc_cq-FailsSame mem alloc dev prep 4 free in
          ground (arith, same, prepared)
      | inr (q, taken) ↦ ground (arith, same)
    ]

-- A completion queue that `dnvme_prepare_cq` refuses leaves nothing behind: every completion queue
-- is found as before, the submission queues are the same, and so is the interrupt set, also where
-- the queue had been allocated and stored before its interrupt could not track it. Giving the queue
-- back is not to go through a null pointer, as it does for one that is not contiguous.
pub prepare_cq-IsSame :
    (mem : QueueMem) (alloc : Bool) (dev : Device) (prep : PrepCq) (err : Errno) (dev' : Device)
    → prepare_cq mem alloc dev prep ≡ (fail err, dev')
    → is_sound dev'.io ≡ true
    → IsSame dev dev'
prepare_cq-IsSame mem alloc dev prep err dev' e safe =
    subst (FailsSame dev) e (prepare_cq-FailsSame mem alloc dev prep)
