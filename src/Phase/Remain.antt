-- ===== src/Phase/Remain.antt =====
-- modules/dnvme/queue.c: what `dnvme_get_cqe_remain` counts.
use dnvme.Base.{
  ℕ, zero, suc, ◌+◌, ◌-◌, ◌%◌, ◌≤◌, ◌<◌, ◌≡◌, refl, Bool, true, false, not, some, List, ltb, leb,
  if◌then◌else◌, Bool-cases, inl, inr, arith, ap, ap₂, sym, ◌∙◌,
}
use mathlib.Core.Bool.{false≢true}
use native.Mathlib.Decide.{dec_lt}
use dnvme.Device.{Completion, Cq}
use dnvme.Phase.{
  same_phase, entry_is_new, remain_loop, is_backed, counted, counted_of, get_cqe_remain,
}

-- The ring read from the head: the slot of the entry with `k` entries before it.
abbrev pub slot_at : ℕ → ℕ → ℕ → ℕ
slot_at elements head k = if ltb (head + k) elements then head + k else head + k - elements

-- The phase that a new entry has there.
abbrev pub phase_at : ℕ → ℕ → Bool → ℕ → Bool
phase_at elements head phase k = if ltb (head + k) elements then phase else not phase

abbrev pub is_new : List Completion → ℕ → ℕ → Bool → ℕ → Bool
is_new slots elements head phase k =
    entry_is_new slots (slot_at elements head k) (phase_at elements head phase k)

same_phase-not : (a b : Bool) → same_phase a b ≡ true → same_phase a (not b) ≡ false
unfolding same_phase
same_phase-not a b h = ground arith

entry_is_new-not :
    (slots : List Completion) (i : ℕ) (p : Bool)
    → entry_is_new slots i p ≡ true
    → entry_is_new slots i (not p) ≡ false
unfolding entry_is_new
entry_is_new-not slots i p h = same_phase-not _ p h

next_slot : ℕ → ℕ → ℕ
next_slot elements tail = if leb elements ((tail + 1) % 65536) then 0 else (tail + 1) % 65536

next_phase : ℕ → ℕ → Bool → Bool
next_phase elements tail p = if leb elements ((tail + 1) % 65536) then not p else p

remain_loop_step :
    (fuel : ℕ) (slots : List Completion) (elements tail : ℕ) (p : Bool) (remain : ℕ)
    → entry_is_new slots tail p ≡ true
    → remain_loop (suc fuel) slots elements tail p remain
      ≡ remain_loop fuel slots elements
          (next_slot elements tail)
          (next_phase elements tail p)
          (remain + 1)
unfolding remain_loop next_slot next_phase
remain_loop_step fuel slots elements tail p remain e = rw e

remain_loop_stop :
    (fuel : ℕ) (slots : List Completion) (elements tail : ℕ) (p : Bool) (remain : ℕ)
    → entry_is_new slots tail p ≡ false
    → remain_loop (suc fuel) slots elements tail p remain ≡ some (tail, remain)
unfolding remain_loop
remain_loop_stop fuel slots elements tail p remain e = rw e

module _ (slots : List Completion) (elements head : ℕ) (phase : Bool) where
  -- What the walk has found when it stops with `remain` entries counted.
  pub record IsCount (tail remain : ℕ) : Type 0 where
    pub bound : remain ≤ elements
    pub new : (k : ℕ) → k < remain → is_new slots elements head phase k ≡ true
    pub stop : is_new slots elements head phase remain ≡ false
    pub at : tail ≡ slot_at elements head remain

module _ (slots : List Completion) (elements head : ℕ) (phase : Bool) (inside : head < elements)
    (small : elements < 65536) where
  -- A whole lap after a new entry its slot is not new: the phase has been inverted.
  not_new_after_lap :
      is_new slots elements head phase 0 ≡ true → is_new slots elements head phase elements ≡ false
  not_new_after_lap new =
      let first : entry_is_new slots head phase ≡ true = ground arith in
      ground (arith, entry_is_new-not slots head phase first)

  slot_at_step :
      (k : ℕ)
      → k < elements
      → next_slot elements (slot_at elements head k) ≡ slot_at elements head (k + 1)
  unfolding next_slot
  slot_at_step k lt = ground arith

  phase_at_step :
      (k : ℕ)
      → k < elements
      → next_phase elements (slot_at elements head k) (phase_at elements head phase k)
        ≡ phase_at elements head phase (k + 1)
  unfolding next_phase
  phase_at_step k lt = ground arith

  new_before_end :
      (k : ℕ)
      → k ≤ elements
      → ((j : ℕ) → j < k → is_new slots elements head phase j ≡ true)
      → is_new slots elements head phase k ≡ true
      → k < elements
  new_before_end k le before e = elim (dec_lt k elements) [
    | yes lt ↦ lt
    | no ge ↦
        let lap : k ≡ elements = omega arith in
        let old = not_new_after_lap (before 0 (omega arith)) in
        absurd (false≢true (sym old ∙ ap (is_new slots elements head phase) (sym lap) ∙ e))
  ]

  new_up_to :
      (k : ℕ)
      → ((j : ℕ) → j < k → is_new slots elements head phase j ≡ true)
      → is_new slots elements head phase k ≡ true
      → (j : ℕ) → j < k + 1
      → is_new slots elements head phase j ≡ true
  new_up_to k before e j lt = elim (dec_lt j k) [
    | yes earlier ↦ before j earlier
    | no last ↦ let here : j ≡ k = omega arith in ap (is_new slots elements head phase) here ∙ e
  ]

  loop_IsCount :
      (fuel k : ℕ)
      → k ≤ elements
      → elements < fuel + k
      → ((j : ℕ) → j < k → is_new slots elements head phase j ≡ true)
      → (tail : ℕ) × (remain : ℕ) × (remain_loop fuel slots elements
            (slot_at elements head k)
            (phase_at elements head phase k)
            k
          ≡ some (tail, remain))
        × IsCount slots elements head phase tail remain
  loop_IsCount zero k le enough before = absurd (omega arith)
  loop_IsCount (suc fuel) k le enough before =
      elim (Bool-cases (is_new slots elements head phase k)) [
        | inr old ↦ (
          slot_at elements head k,
          k,
          remain_loop_stop fuel slots elements _ _ k old,
          record { bound = le; new = before; stop = old; at = refl },
        )
        | inl new ↦
            let lt = new_before_end k le before new in
            let (tail, remain, e, c) =
              loop_IsCount fuel (k + 1) (omega arith) (omega arith) (new_up_to k before new) in
            (
              tail,
              remain,
              remain_loop_step fuel slots elements _ _ k new
                  ∙ rw (slot_at_step k lt, phase_at_step k lt) e,
              c,
            )
      ]

remain_loop-IsCount :
    (slots : List Completion) (elements head : ℕ) (phase : Bool)
    → head < elements
    → elements < 65536
    → (tail : ℕ) × (remain : ℕ) × (remain_loop (elements + 1) slots elements head phase 0
        ≡ some (tail, remain))
      × IsCount slots elements head phase tail remain
remain_loop-IsCount slots elements head phase inside small =
    let (tail, remain, e, c) =
      loop_IsCount slots elements head phase inside small (elements + 1) 0 (omega arith)
        (omega arith) (λ j h. elim h [ ]) in
    let start : slot_at elements head 0 ≡ head = ground arith in
    let expected : phase_at elements head phase 0 ≡ phase = ground arith in
    (
      tail,
      remain,
      ap₂ (λ t p. remain_loop (elements + 1) slots elements t p 0) (sym start) (sym expected) ∙ e,
      c,
    )

-- The walk of `dnvme_get_cqe_remain` over a queue of fewer than 65536 entries, its head inside, that is
-- contiguous or whose create command has set its PRPs, ends on fuel one more than the elements. It counts exactly the run of new entries from the
-- head on, at most a queue full, leaves the tail at the first slot that is not new, and changes
-- nothing else of the queue.
pub get_cqe_remain-IsCount :
    (cq : Cq)
    → cq.head_ptr < cq.elements
    → cq.elements < 65536
    → is_backed cq ≡ true
    → (tail : ℕ) × (remain : ℕ) × (get_cqe_remain (cq.elements + 1) cq
        ≡ counted (record cq { tail_ptr = tail }) remain)
      × IsCount cq.slots cq.elements cq.head_ptr cq.pbit_new_entry tail remain
unfolding get_cqe_remain counted_of
get_cqe_remain-IsCount cq inside small backed =
    let (tail, remain, e, c) =
      remain_loop-IsCount cq.slots cq.elements cq.head_ptr cq.pbit_new_entry inside small in
    (tail, remain, rw (backed, e, get_cqe_remain), c)
