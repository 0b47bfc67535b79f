-- ===== src/Queue/Teardown.antt =====
-- modules/dnvme/queue.c: which queues `dnvme_delete_all_queues` leaves.
use dnvme.Base.{
  ℕ, ◌≡◌, refl, sym, ap, ◌∙◌, Bool, true, false, ◌&&◌, none, some, arith, [], ◌∷◌, ◌==◌,
  if◌then◌else◌, All, Bool-cases, inl, inr,
}
use mathlib.Core.Path.{subst}
use dnvme.Base.Dict.{Dict, lookup, lookup-erase, lookup-update, lookup-update_here}
use dnvme.Device.{Sq, Cq, Device, State, disable}
use dnvme.Queue.{release_sq, release_cq}
use dnvme.Queue.Admin.{
  reinit_asq_node, reinit_asq, reinit_acq_node, reinit_acq, delete_all_sqs, delete_all_cqs,
  delete_all_queues, saves_aq,
}

-- Every node stands under the number that it carries.
abbrev pub IsKeyedSqs : Dict Sq → Type 0
IsKeyedSqs m = All (λ slot. slot.1.sq_id ≡ slot.0) m

abbrev pub IsKeyedCqs : Dict Cq → Type 0
IsKeyedCqs m = All (λ slot. slot.1.q_id ≡ slot.0) m

-- What one round of the loop does.
abbrev sq_round : Bool → Sq → Device → Device
sq_round save_aq sq dev = if save_aq && sq.sq_id == 0 then reinit_asq dev sq else release_sq dev sq

abbrev cq_round : Bool → Cq → Device → Device
cq_round save_aq cq dev = if save_aq && cq.q_id == 0 then reinit_acq dev cq else release_cq dev cq

sq_round-lookup :
    (save_aq : Bool) (sq : Sq) (dev : Device) (id : ℕ)
    → (save_aq && id == 0) ≡ false
    → lookup id (sq_round save_aq sq dev).sqs ≡ (if sq.sq_id == id then none else lookup id dev.sqs)
unfolding reinit_asq release_sq
sq_round-lookup save_aq sq dev id other =
    let erased = lookup-erase sq.sq_id id dev.sqs in
    let updated = lookup-update sq.sq_id id reinit_asq_node dev.sqs in
    ground (arith, erased, updated)

cq_round-lookup :
    (save_aq : Bool) (cq : Cq) (dev : Device) (id : ℕ)
    → (save_aq && id == 0) ≡ false
    → lookup id (cq_round save_aq cq dev).cqs ≡ (if cq.q_id == id then none else lookup id dev.cqs)
unfolding reinit_acq release_cq
cq_round-lookup save_aq cq dev id other =
    let erased = lookup-erase cq.q_id id dev.cqs in
    let updated = lookup-update cq.q_id id reinit_acq_node dev.cqs in
    ground (arith, erased, updated)

-- A number that is left to the loop, or free already, is free behind it.
delete_all_sqs-none :
    (save_aq : Bool) (m : Dict Sq) (dev : Device) (id : ℕ)
    → IsKeyedSqs m
    → (save_aq && id == 0) ≡ false
    → (lookup id m ≡ none → lookup id dev.sqs ≡ none)
    → lookup id (delete_all_sqs save_aq m dev).sqs ≡ none
unfolding delete_all_sqs lookup
delete_all_sqs-none save_aq [] dev id keyed other left = left refl
delete_all_sqs-none save_aq ((i, sq) ∷ m) dev id keyed other left =
    let e = keyed.0 in
    let round = sq_round-lookup save_aq sq dev id other in
    delete_all_sqs-none save_aq m (sq_round save_aq sq dev) id keyed.1 other
      (λ n. ground (arith, e, round, n, left))

delete_all_cqs-none :
    (save_aq : Bool) (m : Dict Cq) (dev : Device) (id : ℕ)
    → IsKeyedCqs m
    → (save_aq && id == 0) ≡ false
    → (lookup id m ≡ none → lookup id dev.cqs ≡ none)
    → lookup id (delete_all_cqs save_aq m dev).cqs ≡ none
unfolding delete_all_cqs lookup
delete_all_cqs-none save_aq [] dev id keyed other left = left refl
delete_all_cqs-none save_aq ((i, cq) ∷ m) dev id keyed other left =
    let e = keyed.0 in
    let round = cq_round-lookup save_aq cq dev id other in
    delete_all_cqs-none save_aq m (cq_round save_aq cq dev) id keyed.1 other
      (λ n. ground (arith, e, round, n, left))

delete_all_sqs-cqs :
    (save_aq : Bool) (m : Dict Sq) (dev : Device) → (delete_all_sqs save_aq m dev).cqs ≡ dev.cqs
unfolding delete_all_sqs reinit_asq release_sq
delete_all_sqs-cqs save_aq [] dev = refl
delete_all_sqs-cqs save_aq ((i, sq) ∷ m) dev =
    let rest = delete_all_sqs-cqs save_aq m (sq_round save_aq sq dev) in ground (arith, rest)

delete_all_cqs-sqs :
    (save_aq : Bool) (m : Dict Cq) (dev : Device) → (delete_all_cqs save_aq m dev).sqs ≡ dev.sqs
unfolding delete_all_cqs reinit_acq release_cq
delete_all_cqs-sqs save_aq [] dev = refl
delete_all_cqs-sqs save_aq ((i, cq) ∷ m) dev =
    let rest = delete_all_cqs-sqs save_aq m (cq_round save_aq cq dev) in ground (arith, rest)

delete_all_queues-tables :
    (dev : Device) (state : State)
    → let dev₁ = delete_all_sqs (saves_aq state) dev.sqs dev in
      ((delete_all_queues dev state).sqs ≡ dev₁.sqs)
      × ((delete_all_queues dev state).cqs ≡ (delete_all_cqs (saves_aq state) dev₁.cqs dev₁).cqs)
unfolding delete_all_queues
delete_all_queues-tables dev state =
    let dev₁ = delete_all_sqs (saves_aq state) dev.sqs dev in
    let e = delete_all_cqs-sqs (saves_aq state) dev₁.cqs dev₁ in ground (arith, e)

-- What the tables hold behind the two loops, whatever the log says.
pub delete_all_queues-empty :
    (dev : Device) (state : State) (id : ℕ)
    → IsKeyedSqs dev.sqs
    → IsKeyedCqs dev.cqs
    → (saves_aq state && id == 0) ≡ false
    → (lookup id (delete_all_queues dev state).sqs ≡ none)
      × (lookup id (delete_all_queues dev state).cqs ≡ none)
delete_all_queues-empty dev state id keyed_sqs keyed_cqs other =
    let dev₁ = delete_all_sqs (saves_aq state) dev.sqs dev in
    let same = delete_all_sqs-cqs (saves_aq state) dev.sqs dev in
    let (e, f) = delete_all_queues-tables dev state in
    (
      ap (lookup id) e
          ∙ delete_all_sqs-none (saves_aq state) dev.sqs dev id keyed_sqs other (λ n. n),
      ap (lookup id) f
          ∙ delete_all_cqs-none (saves_aq state) dev₁.cqs dev₁ id
              (subst IsKeyedCqs (sym same) keyed_cqs) other (λ n. n),
    )

-- The submission queue `sq'` is `sq` as it was before the first command: nothing in flight, the
-- pointers and the identifiers at 0, and the memory the same.
pub record IsReset (sq sq' : Sq) : Type 0 where
  pub commands : sq'.cmd_list ≡ []
  pub head : sq'.head_ptr ≡ 0
  pub tail : sq'.tail_ptr ≡ 0
  pub tail_virt : sq'.tail_ptr_virt ≡ 0
  pub cid : sq'.next_cid ≡ 0
  pub buf : sq'.buf ≡ sq.buf
  pub dma : sq'.dma ≡ sq.dma
  pub elements : sq'.elements ≡ sq.elements

reinit_asq_node-IsReset : (sq : Sq) → IsReset sq (reinit_asq_node sq)
unfolding reinit_asq_node
reinit_asq_node-IsReset sq = record {
  commands = refl;
  head = refl;
  tail = refl;
  tail_virt = refl;
  cid = refl;
  buf = refl;
  dma = refl;
  elements = refl;
}

-- Behind the loop the admin queue that is saved has been reset.
abbrev Saved : Sq → Device → Type 0
Saved sq dev = (sq' : Sq) × (lookup 0 dev.sqs ≡ some sq') × IsReset sq sq'

IsReset-twice : {sq sq' : Sq} → IsReset sq sq' → IsReset sq (reinit_asq_node sq')
unfolding reinit_asq_node
IsReset-twice h = record {
  commands = refl;
  head = refl;
  tail = refl;
  tail_virt = refl;
  cid = refl;
  buf = h.buf;
  dma = h.dma;
  elements = h.elements;
}

Saved-round : (sq node : Sq) (dev : Device) → Saved sq dev → Saved sq (sq_round true node dev)
unfolding reinit_asq release_sq
Saved-round sq node dev (sq', e, h) = elim (Bool-cases (node.sq_id == 0)) [
  | inl admin ↦
      let zero_id : node.sq_id ≡ 0 = ground arith in
      rw (admin, zero_id)
        (reinit_asq_node sq', lookup-update_here 0 reinit_asq_node sq' dev.sqs e, IsReset-twice h)
  | inr other ↦ rw other (sq', ground (arith, lookup-erase node.sq_id 0 dev.sqs), h)
]

delete_all_sqs-Saved :
    (sq : Sq) (m : Dict Sq) (dev : Device) → Saved sq dev → Saved sq (delete_all_sqs true m dev)
unfolding delete_all_sqs
delete_all_sqs-Saved sq [] dev h = h
delete_all_sqs-Saved sq ((i, node) ∷ m) dev h =
    delete_all_sqs-Saved sq m (sq_round true node dev) (Saved-round sq node dev h)

delete_all_sqs-reset :
    (sq : Sq) (m : Dict Sq) (dev : Device) (found : Sq)
    → IsKeyedSqs m
    → lookup 0 m ≡ some found
    → lookup 0 dev.sqs ≡ some sq
    → Saved sq (delete_all_sqs true m dev)
unfolding delete_all_sqs lookup reinit_asq release_sq
delete_all_sqs-reset sq [] dev found keyed at e = cc
delete_all_sqs-reset sq ((i, node) ∷ m) dev found keyed at e =
    let same = keyed.0 in
    elim (Bool-cases (node.sq_id == 0)) [
      | inl admin ↦
          let zero_id : node.sq_id ≡ 0 = ground arith in
          delete_all_sqs-Saved sq m (sq_round true node dev) (
            rw (admin, zero_id)
              (
                reinit_asq_node sq,
                lookup-update_here 0 reinit_asq_node sq dev.sqs e,
                reinit_asq_node-IsReset sq,
              ))
      | inr other ↦
          delete_all_sqs-reset sq m (sq_round true node dev) found keyed.1
            (ground (arith, same, at, other))
            (rw other (ground (arith, lookup-erase node.sq_id 0 dev.sqs)))
    ]

-- In a device whose submission queues stand under the numbers that they carry, and where the
-- state is NVME_ST_DISABLE, `dnvme_delete_all_queues`, whatever its log says, keeps the admin submission queue, if
-- there is one, with its memory, and resets it: no command in flight, the pointers and the next
-- identifier 0.
pub delete_all_queues-IsReset :
    (dev : Device) (sq : Sq)
    → IsKeyedSqs dev.sqs
    → lookup 0 dev.sqs ≡ some sq
    → (sq' : Sq) × (lookup 0 (delete_all_queues dev disable).sqs ≡ some sq') × IsReset sq sq'
delete_all_queues-IsReset dev sq keyed e =
    let (sq', found, reset) = delete_all_sqs-reset sq dev.sqs dev sq keyed e e in
    (sq', ap (lookup 0) (delete_all_queues-tables dev disable).0 ∙ found, reset)
