-- ===== src/Irq/Change.antt =====
-- modules/dnvme/irq.c: what `dnvme_set_interrupt` leaves behind.
use dnvme.Base.{
  ℕ, zero, suc, ◌+◌, ◌<◌, ◌≡◌, ◌⊎◌, inl, inr, refl, sym, ap, ◌∙◌, Bool, true, false, ◌&&◌, Option,
  none, some, List, [], ◌∷◌, ◌++◌, ◌==◌, Bool-cases, if-elim, arith,
}
use mathlib.Core.Path.{subst}
use dnvme.Device.{
  Errno, Status, done, fail, enomem, IrqType, msi_single, msi_multi, msix, pin, int_none, IrqSet,
  Effect, is_sound,
}
use dnvme.Irq.{
  create_irq_work_pair, find_irq_node_by_id, find_irq_node_by_vec, find_work_node_by_id,
  find_work_node_by_vec, inc_isr_count, update_irq_node,
}
use dnvme.Irq.Keys.{Key, irq_keys, work_keys, irq_keys-append, work_keys-append}
use dnvme.Irq.Unique.{IsFree, registered, create_irq_work_pair-free}
use dnvme.Irq.Setup.{destroy_pairs}
use dnvme.Irq.Rollback.{
  tower, Made, EndsWith, destroy_pairs-tower, create_pairs-tower, set_int_msix-EndsWith,
}
use dnvme.Irq.Check.{Interrupt, IrqHw, MsixPtr, check_interrupt}
use dnvme.Irq.Scheme.{
  SchemeMem, Run, finish_pin, set_int_pin, finish_msi_single, set_int_msi_single, msi_vec,
  finish_msi_multi, pair_msi_multi, set_int_msi_multi, flush_workqueue, destroy_irq_work_queue,
  create_irq_work_queue, clean_interrupt, set_scheme, finish_interrupt, start_scheme, leave_scheme,
  change_scheme, after_check, set_interrupt,
}

-- The vector of interrupt `i` under a scheme, and how many interrupts it registers.
abbrev pub vec_under : SchemeMem → IrqType → ℕ → ℕ
vec_under mem msix = mem.entry_vec
vec_under mem msi_single = msi_vec mem.irq
vec_under mem msi_multi = msi_vec mem.irq
vec_under mem pin = msi_vec mem.irq
vec_under mem int_none = msi_vec mem.irq

abbrev pub registered_under : IrqType → ℕ → ℕ
registered_under msix num = num
registered_under msi_multi num = num
registered_under msi_single num = 1
registered_under pin num = 1
registered_under int_none num = 0

-- The first `n` ids with their vectors.
abbrev pub numbered : (ℕ → ℕ) → ℕ → List Key
numbered vec zero = []
numbered vec (suc n) = numbered vec n ++ (n, vec n) ∷ []

-- No node of either list.
pub record IsBare (set : IrqSet) : Type 0 where
  pub irqs : set.irq_list ≡ []
  pub works : set.work_list ≡ []

Bare-IsFree : (set : IrqSet) → IsBare set → (v k : ℕ) → IsFree set v k
unfolding find_irq_node_by_id find_irq_node_by_vec find_work_node_by_id find_work_node_by_vec
Bare-IsFree set bare v k = record {
  irq_by_id = ap (λ l. find_irq_node_by_id l k) bare.irqs;
  irq_by_vec = ap (λ l. find_irq_node_by_vec l v) bare.irqs;
  work_by_id = ap (λ l. find_work_node_by_id l k) bare.works;
  work_by_vec = ap (λ l. find_work_node_by_vec l v) bare.works;
}

module _ (set : IrqSet) (bare : IsBare set) (vec : ℕ → ℕ) where
  tower-irq_keys : (n : ℕ) → irq_keys (tower set vec n).irq_list ≡ numbered vec n
  tower-irq_keys zero = ap irq_keys bare.irqs
  tower-irq_keys (suc n) =
      irq_keys-append (tower set vec n).irq_list _
      ∙ ap (λ ks. ks ++ (n, vec n) ∷ []) (tower-irq_keys n)

  tower-work_keys : (n : ℕ) → work_keys (tower set vec n).work_list ≡ numbered vec n
  tower-work_keys zero = ap work_keys bare.works
  tower-work_keys (suc n) =
      work_keys-append (tower set vec n).work_list _
      ∙ ap (λ ks. ks ++ (n, vec n) ∷ []) (tower-work_keys n)

  tower-wq : (n : ℕ) → (tower set vec n).wq ≡ set.wq
  tower-wq zero = refl
  tower-wq (suc n) = tower-wq n

Status-cases : (s : Status) → (s ≡ done) ⊎ ((e : Errno) × (s ≡ fail e))
Status-cases done = inl refl
Status-cases (fail e) = inr (e, refl)

-- One pair registered, or none.
abbrev Single : SchemeMem → IrqSet → Status × IrqSet → Type 0
Single mem set (done, set') = set' ≡ tower set (msi_vec mem.irq) 1
Single mem set (fail e, set') = set' ≡ set

-- The schemes that register the one pair of `pdev->irq`, and the block of MSI vectors.
module _ (mem : SchemeMem) (set : IrqSet) (bare : IsBare set) where
  first_pair-Single : Single mem set (create_irq_work_pair (mem.answers.pair 0) set mem.irq 0)
  first_pair-Single =
      let pair = mem.answers.pair 0 in
      let run = create_irq_work_pair-free set mem.irq 0 (Bare-IsFree set bare mem.irq 0) pair in
      let same : registered set mem.irq 0 ≡ registered set (mem.irq + 0) 0 =
        ap (λ v. registered set v 0) (omega arith) in
      elim (Bool-cases (pair.irq_ok && (pair.work_ok && pair.icq_ok))) [
        | inl e ↦
            let made : create_irq_work_pair pair set mem.irq 0 ≡ (done, registered set mem.irq 0) =
              run ∙ rw e refl in
            subst (Single mem set) (sym made) same
        | inr e ↦
            let stop : create_irq_work_pair pair set mem.irq 0 ≡ (fail enomem, set) =
              run ∙ rw e refl in
            subst (Single mem set) (sym stop) refl
      ]

  finish_pin-EndsWith :
      (r : Status × IrqSet) (io : List Effect)
      → Single mem set r
      → EndsWith set (msi_vec mem.irq) 1 (finish_pin mem.irq r io)
  unfolding finish_pin
  finish_pin-EndsWith (done, set') io h = h
  finish_pin-EndsWith (fail e, set') io h = h

  set_int_pin-EndsWith :
      (io : List Effect) → EndsWith set (msi_vec mem.irq) 1 (set_int_pin mem set io)
  unfolding set_int_pin
  set_int_pin-EndsWith io = elim (Status-cases (mem.answers.request 0)) [
    | inr (e, asked) ↦ rw (asked, set_int_pin) refl
    | inl asked ↦ rw (asked, set_int_pin) (finish_pin-EndsWith _ _ first_pair-Single)
  ]

  finish_msi_single-EndsWith :
      (r : Status × IrqSet) (io : List Effect)
      → Single mem set r
      → EndsWith set (msi_vec mem.irq) 1 (finish_msi_single mem.irq r io)
  unfolding finish_msi_single
  finish_msi_single-EndsWith (done, set') io h = h
  finish_msi_single-EndsWith (fail e, set') io h = h

  set_int_msi_single-EndsWith :
      (io : List Effect) → EndsWith set (msi_vec mem.irq) 1 (set_int_msi_single mem set io)
  unfolding set_int_msi_single
  set_int_msi_single-EndsWith io = elim (Status-cases mem.msi) [
    | inr (e, enabled) ↦ rw (enabled, set_int_msi_single) refl
    | inl enabled ↦ elim (Status-cases (mem.answers.request 0)) [
      | inr (e, asked) ↦ rw (enabled, asked, set_int_msi_single) refl
      | inl asked ↦
          rw (enabled, asked, set_int_msi_single) (finish_msi_single-EndsWith _ _ first_pair-Single)
    ]
  ]

  distinct : (a b : ℕ) → a < b → (msi_vec mem.irq b == msi_vec mem.irq a) ≡ false
  distinct a b lt = ground arith

  free : (k : ℕ) → IsFree set (msi_vec mem.irq k) k
  free k = Bare-IsFree set bare (msi_vec mem.irq k) k

  finish_msi_multi-EndsWith :
      (num i : ℕ) (r : Status × ℕ × IrqSet) (io : List Effect)
      → Made set (msi_vec mem.irq) num r
      → EndsWith set (msi_vec mem.irq) num (finish_msi_multi mem.irq i r io)
  unfolding finish_msi_multi
  finish_msi_multi-EndsWith num i (fail e, j, set') io h =
      ap (destroy_pairs j) h ∙ destroy_pairs-tower set (msi_vec mem.irq) distinct free j
  finish_msi_multi-EndsWith num i (done, j, set') io (all, h) =
      h ∙ ap (tower set (msi_vec mem.irq)) all

  pair_msi_multi-EndsWith :
      (num : ℕ) (r : Status × ℕ × List Effect)
      → EndsWith set (msi_vec mem.irq) num (pair_msi_multi mem num set r)
  unfolding pair_msi_multi
  pair_msi_multi-EndsWith num (fail e, i, io) = refl
  pair_msi_multi-EndsWith num (done, i, io) = finish_msi_multi-EndsWith num i _ io (
      create_pairs-tower set (msi_vec mem.irq) distinct free mem.answers.pair num num 0
        (omega arith))

  set_int_msi_multi-EndsWith :
      (num : ℕ) (io : List Effect)
      → EndsWith set (msi_vec mem.irq) num (set_int_msi_multi mem num set io)
  unfolding set_int_msi_multi
  set_int_msi_multi-EndsWith num io = elim (Status-cases mem.msi) [
    | inr (e, enabled) ↦ rw (enabled, set_int_msi_multi) refl
    | inl enabled ↦ rw (enabled, set_int_msi_multi) (pair_msi_multi-EndsWith num _)
  ]

  set_scheme-EndsWith :
      ((a b : ℕ) → a < b → (mem.entry_vec b == mem.entry_vec a) ≡ false)
      → (ptr : MsixPtr) (type : IrqType) (num : ℕ) (io : List Effect)
      → EndsWith set
          (vec_under mem type)
          (registered_under type num)
          (set_scheme mem ptr type num set io)
  unfolding set_scheme
  set_scheme-EndsWith apart ptr msi_single num io = set_int_msi_single-EndsWith io
  set_scheme-EndsWith apart ptr msi_multi num io = set_int_msi_multi-EndsWith num io
  set_scheme-EndsWith apart ptr msix num io =
      set_int_msix-EndsWith set mem.entry_vec apart (λ k. Bare-IsFree set bare (mem.entry_vec k) k)
        mem.answers ptr num io
  set_scheme-EndsWith apart ptr pin num io = set_int_pin-EndsWith io
  set_scheme-EndsWith apart ptr int_none num io = refl

-- No scheme is active, and no node is left of one.
pub record IsCleared (set : IrqSet) : Type 0 where
  pub bare : IsBare set
  pub inactive : set.irq_type ≡ int_none

-- The scheme is active, with its interrupts numbered from 0 in both lists, and the work queue stands.
pub record IsActive (mem : SchemeMem) (type : IrqType) (num : ℕ) (set : IrqSet) : Type 0 where
  pub active : set.irq_type ≡ type
  pub count : set.nr_irq ≡ num
  pub irqs : irq_keys set.irq_list ≡ numbered (vec_under mem type) (registered_under type num)
  pub works : work_keys set.work_list ≡ numbered (vec_under mem type) (registered_under type num)
  pub queue : set.wq ≡ true

inc_isr_count-bare :
    (id : ℕ) (set : IrqSet) → set.irq_list ≡ [] → (inc_isr_count set id).irq_list ≡ []
unfolding inc_isr_count update_irq_node
inc_isr_count-bare id set e = ap (update_irq_node id _) e

flush_workqueue-IsCleared :
    (ids : List ℕ) (set : IrqSet) → IsCleared set → IsCleared (flush_workqueue ids set)
unfolding flush_workqueue inc_isr_count
flush_workqueue-IsCleared [] set h = record {
  bare = record { irqs = h.bare.irqs; works = h.bare.works };
  inactive = h.inactive;
}
flush_workqueue-IsCleared (id ∷ ids) set h =
    flush_workqueue-IsCleared ids (inc_isr_count set id) (record {
      bare = record { irqs = inc_isr_count-bare id set h.bare.irqs; works = h.bare.works };
      inactive = h.inactive;
    })

destroy_irq_work_queue-IsCleared :
    (set : IrqSet) → IsCleared set → IsCleared (destroy_irq_work_queue set)
unfolding destroy_irq_work_queue
destroy_irq_work_queue-IsCleared set h =
    let f = flush_workqueue-IsCleared set.queued set h in
    if-elim IsCleared set.wq
      (λ _. record {
        bare = record { irqs = f.bare.irqs; works = f.bare.works };
        inactive = f.inactive;
      })
      (λ _. h)

-- A scheme changed, with the way it ended.
abbrev pub Changed : SchemeMem → Option IrqType → ℕ → IrqSet → Run → Type 0
Changed mem asked num before (done, set, io) =
    (type : IrqType) × (asked ≡ some type) × IsActive mem type num set
Changed mem asked num before (fail e, set, io) = (set ≡ before) ⊎ IsCleared set

-- The queue for the work items stands, or could not be made.
abbrev Ready : Status × IrqSet → Type 0
Ready (done, set) = IsCleared set × (set.wq ≡ true)
Ready (fail e, set) = IsCleared set

create_irq_work_queue-Ready :
    (alloc : Bool) (set : IrqSet) → IsCleared set → Ready (create_irq_work_queue alloc set)
unfolding create_irq_work_queue
create_irq_work_queue-Ready alloc set h =
    if-elim Ready set.wq (λ wq. (h, wq))
      (λ _.
        if-elim Ready alloc
          (λ _. (
            record {
              bare = record { irqs = h.bare.irqs; works = h.bare.works };
              inactive = h.inactive;
            },
            refl,
          ))
          (λ _. h))

pub clean_interrupt-IsCleared :
    (set : IrqSet) (io : List Effect) → IsCleared (clean_interrupt set io).0
unfolding clean_interrupt
clean_interrupt-IsCleared set io = record {
  bare = record { irqs = refl; works = refl };
  inactive = refl;
}

leave_scheme-IsCleared :
    (type : IrqType) (set : IrqSet) (io : List Effect)
    → set.irq_type ≡ type
    → (type ≡ int_none → IsBare set)
    → IsCleared (leave_scheme type set io).0
unfolding leave_scheme
leave_scheme-IsCleared int_none set io e idle = record { bare = idle refl; inactive = e }
leave_scheme-IsCleared _ set io e idle = clean_interrupt-IsCleared set io

module _ (mem : SchemeMem)
    (apart : (a b : ℕ) → a < b → (mem.entry_vec b == mem.entry_vec a) ≡ false) (num : ℕ)
    (before : IrqSet) where
  finish_interrupt-Changed :
      (type : IrqType) (set : IrqSet) (r : Run)
      → IsCleared set
      → set.wq ≡ true
      → EndsWith set (vec_under mem type) (registered_under type num) r
      → Changed mem (some type) num before (finish_interrupt type num r)
  unfolding finish_interrupt
  finish_interrupt-Changed type set (fail e, set', io) h wq same =
      inr (destroy_irq_work_queue-IsCleared set' (subst IsCleared (sym same) h))
  finish_interrupt-Changed type set (done, set', io) h wq same =
      let n = registered_under type num in
      let vec = vec_under mem type in
      (
        type,
        refl,
        record {
          active = refl;
          count = refl;
          irqs = ap (λ s. irq_keys s.irq_list) same ∙ tower-irq_keys set h.bare vec n;
          works = ap (λ s. work_keys s.work_list) same ∙ tower-work_keys set h.bare vec n;
          queue = ap (λ s. s.wq) same ∙ tower-wq set h.bare vec n ∙ wq;
        },
      )

  start_scheme-Changed :
      (ptr : MsixPtr) (asked : Option IrqType) (r : Status × IrqSet) (io : List Effect)
      → Ready r
      → Changed mem asked num before (start_scheme mem ptr asked num r io)
  unfolding start_scheme
  start_scheme-Changed ptr asked (fail e, set) io h = inr h
  start_scheme-Changed ptr none (done, set) io (h, wq) =
      inr (destroy_irq_work_queue-IsCleared set h)
  start_scheme-Changed ptr (some type) (done, set) io (h, wq) =
      finish_interrupt-Changed type set _ h wq
        (set_scheme-EndsWith mem set h.bare apart ptr type num io)

  after_check-Changed :
      (asked : Option IrqType) (r : Status × MsixPtr) (io : List Effect)
      → (before.irq_type ≡ int_none → IsBare before)
      → Changed mem asked num before
          (after_check mem (record { irq_type = asked; num_irqs = num }) r before io).0
  unfolding after_check change_scheme
  after_check-Changed asked (fail e, ptr) io idle = inl refl
  after_check-Changed asked (done, ptr) io idle =
      let left = leave_scheme before.irq_type before io in
      start_scheme-Changed ptr asked _ _ (
        create_irq_work_queue-Ready mem.wq left.0
          (leave_scheme-IsCleared before.irq_type before io refl idle))

-- How the call leaves the set, whatever the log says.
pub set_interrupt-ends :
    (mem : SchemeMem) (hw : IrqHw) (irq : Interrupt) (ptr : MsixPtr) (set : IrqSet)
    (io : List Effect)
    → ((a b : ℕ) → a < b → (mem.entry_vec b == mem.entry_vec a) ≡ false)
    → (set.irq_type ≡ int_none → IsBare set)
    → Changed mem irq.irq_type irq.num_irqs set (set_interrupt mem hw irq ptr set io).0
unfolding set_interrupt
set_interrupt-ends mem hw irq ptr set io apart idle =
    if-elim (λ (r : Run × MsixPtr). Changed mem irq.irq_type irq.num_irqs set r.0) mem.copy_in
      (λ _.
        after_check-Changed mem apart irq.num_irqs set irq.irq_type (check_interrupt hw irq ptr) io
          idle)
      (λ _. inl refl)

-- `dnvme_set_interrupt` on a set that holds no node where no scheme is active, for a device whose
-- MSI-X entries have different vectors, where the call goes through no null pointer to the MSI-X
-- tables. Where it succeeds, the scheme that was asked for is active, the irq list and the work list
-- hold its interrupts, numbered from 0 with the vectors of the scheme, and nothing of the scheme
-- before; the work queue stands. Where it fails, at whatever step, either the set is as it was, or
-- no scheme is active and no node is left of either scheme.
pub set_interrupt-Changed :
    (mem : SchemeMem) (hw : IrqHw) (irq : Interrupt) (ptr : MsixPtr) (set : IrqSet)
    (io : List Effect)
    → ((a b : ℕ) → a < b → (mem.entry_vec b == mem.entry_vec a) ≡ false)
    → (set.irq_type ≡ int_none → IsBare set)
    → is_sound (set_interrupt mem hw irq ptr set io).0.2 ≡ true
    → Changed mem irq.irq_type irq.num_irqs set (set_interrupt mem hw irq ptr set io).0
set_interrupt-Changed mem hw irq ptr set io apart idle sound =
    set_interrupt-ends mem hw irq ptr set io apart idle
