-- ===== src/Phase.antt =====
-- modules/dnvme/queue.c: the phase bit, and the walk of `dnvme_get_cqe_remain` over the slots of a
-- completion queue.
pub mod Remain
pub mod FullRange
use dnvme.Base.{
  ℕ, zero, suc, ◌+◌, ◌/◌, ◌%◌, Bool, true, false, not, ◌||◌, Option, none, some, List, leb, ◌==◌,
  if◌then◌else◌, get_or,
}
use dnvme.Device.{Completion, Prps, Cq}

-- What a slot holds after the `memset` of its queue.
abbrev pub blank : Completion
blank = record { result = 0; sq_head = 0; sq_id = 0; command_id = 0; status = 0 }

-- NVME_CQE_STATUS_TO_PHASE
unfoldable pub status_to_phase : ℕ → Bool
status_to_phase s = s % 2 == 1

-- NVME_CQE_STATUS_TO_STATE
unfoldable pub status_to_state : ℕ → ℕ
status_to_state s = s / 2 % 32768

unfoldable pub same_phase : Bool → Bool → Bool
same_phase true b = b
same_phase false b = not b

-- Whether the entry at a slot carries the phase that the walk expects there.
unfoldable pub entry_is_new : List Completion → ℕ → Bool → Bool
unfolding status_to_phase same_phase
entry_is_new slots tail phase = same_phase (status_to_phase (get_or slots tail blank).status) phase

-- The `while` loop; the tail is a `u16`. `none` means that the fuel ran out.
unfoldable pub remain_loop : ℕ → List Completion → ℕ → ℕ → Bool → ℕ → Option (ℕ × ℕ)
remain_loop zero slots elements tail phase remain = none
remain_loop (suc fuel) slots elements tail phase remain =
    let next = (tail + 1) % 65536 in
    let wraps = leb elements next in
    let rest =
      remain_loop fuel slots elements (if wraps then 0 else next)
        (if wraps then not phase else phase) (remain + 1) in
    if entry_is_new slots tail phase then rest else some (tail, remain)

abbrev pub has_prps : Option Prps → Bool
has_prps none = false
has_prps (some p) = true

-- Whether the memory of a queue is there: one that is not contiguous has it behind `prps`, which its
-- create command sets.
unfoldable pub is_backed : Cq → Bool
is_backed cq = cq.contig || has_prps cq.prps

-- How the walk ends: on a read through a null `prps`, not on its fuel, or with the queue with its tail
-- recomputed and the number of entries that wait to be reaped.
pub data Walk : Type 0 where
  null_prps : Walk
  endless : Walk
  counted : Cq → ℕ → Walk

unfoldable pub counted_of : Cq → Option (ℕ × ℕ) → Walk
counted_of cq none = endless
counted_of cq (some (tail, remain)) = counted (record cq { tail_ptr = tail }) remain

unfoldable pub get_cqe_remain : ℕ → Cq → Walk
unfolding is_backed counted_of
get_cqe_remain fuel cq =
    if is_backed cq
    then counted_of cq (remain_loop fuel cq.slots cq.elements cq.head_ptr cq.pbit_new_entry 0)
    else null_prps
