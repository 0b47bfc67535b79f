-- ===== src/Cmd/Advance.antt =====
-- modules/dnvme/queue.c, `update_cq_head`: the ring as it reads from the new head.
use native.Mathlib.Nat.{mod-eq_of_lt, mod-eq-sub-mod}
use native.Mathlib.Decide.{dec_lt}
use mathlib.Core.Path.{subst}
use dnvme.Base.{ℕ, ◌+◌, ◌-◌, sym, ◌%◌, ◌≤◌, ◌<◌, ◌≡◌, ap₂, Bool, not, arith}
use dnvme.Device.{Cq}
use dnvme.Phase.{entry_is_new}
use dnvme.Phase.Remain.{slot_at, phase_at, is_new}
use dnvme.Cmd.Complete.{update_cq_head_node}

abbrev pub reads_new : Cq → ℕ → Bool
reads_new cq k = is_new cq.slots cq.elements cq.head_ptr cq.pbit_new_entry k

module _ (cq : Cq) (num : ℕ) (inside : cq.head_ptr < cq.elements) (small : cq.elements ≤ 65536)
    (room : num ≤ cq.elements) where
  no_carry : (cq.head_ptr + num) % 4294967296 ≡ cq.head_ptr + num
  no_carry = omega arith

  advance_within :
      cq.head_ptr + num < cq.elements
      → update_cq_head_node num cq ≡ record cq { head_ptr = cq.head_ptr + num }
  unfolding update_cq_head_node
  advance_within lt = ground (arith, no_carry)

  advance_past_end :
      cq.elements ≤ cq.head_ptr + num
      → update_cq_head_node num cq ≡ record cq {
        pbit_new_entry = not cq.pbit_new_entry;
        head_ptr = cq.head_ptr + num - cq.elements;
      }
  unfolding update_cq_head_node
  advance_past_end le =
      let wrapped : (cq.head_ptr + num) % cq.elements ≡ cq.head_ptr + num - cq.elements = omega (
        arith,
        mod-eq-sub-mod {n = cq.head_ptr + num} {m = cq.elements} le,
        mod-eq_of_lt {n = cq.head_ptr + num - cq.elements} {m = cq.elements} (omega arith),
      ) in
      ground (arith, no_carry, wrapped)

-- What a reader of the ring sees behind an advance.
abbrev Reads : Cq → ℕ → ℕ → Cq → Type 0
Reads cq num k cq' =
    (cq'.head_ptr < cq'.elements)
    × (slot_at cq'.elements cq'.head_ptr k ≡ slot_at cq.elements cq.head_ptr (num + k))
    × (reads_new cq' k ≡ reads_new cq (num + k))

-- In a queue of at most 65536 entries with its head inside: after `update_cq_head` by `num`
-- entries the head lies in the queue, and for `num + k` at most a queue full, the entry with `k`
-- entries before it is the one that had `num + k` before it, the same slot, and new or not as
-- before.
pub update_cq_head_node-reads :
    (cq : Cq) (num k : ℕ)
    → cq.head_ptr < cq.elements
    → cq.elements ≤ 65536
    → num + k ≤ cq.elements
    → let cq' = update_cq_head_node num cq in
      (cq'.head_ptr < cq'.elements)
      × (slot_at cq'.elements cq'.head_ptr k ≡ slot_at cq.elements cq.head_ptr (num + k))
      × (reads_new cq' k ≡ reads_new cq (num + k))
update_cq_head_node-reads cq num k inside small room =
    elim (dec_lt (cq.head_ptr + num) cq.elements) [
      | yes lt ↦
          let slot : slot_at cq.elements (cq.head_ptr + num) k
              ≡ slot_at cq.elements cq.head_ptr (num + k) =
            ground arith in
          let phase : phase_at cq.elements (cq.head_ptr + num) cq.pbit_new_entry k
              ≡ phase_at cq.elements cq.head_ptr cq.pbit_new_entry (num + k) =
            ground arith in
          subst (Reads cq num k) (sym (advance_within cq num inside small (omega arith) lt))
            (lt, slot, ap₂ (entry_is_new cq.slots) slot phase)
      | no ge ↦
          let head = cq.head_ptr + num - cq.elements in
          let slot : slot_at cq.elements head k ≡ slot_at cq.elements cq.head_ptr (num + k) =
            ground arith in
          let phase : phase_at cq.elements head (not cq.pbit_new_entry) k
              ≡ phase_at cq.elements cq.head_ptr cq.pbit_new_entry (num + k) =
            ground arith in
          subst (Reads cq num k)
            (sym (advance_past_end cq num inside small (omega arith) (omega arith)))
            (omega arith, slot, ap₂ (entry_is_new cq.slots) slot phase)
    ]
