-- ===== src/Phase/FullRange.antt =====
-- `dnvme_get_cqe_remain` on a queue of 65536 entries, the depth of a controller with CAP.MQES at
-- its largest, where the `u16` tail never reaches the number of entries.
use dnvme.Base.{ℕ, zero, suc, ◌+◌, ◌%◌, ◌<◌, ◌≡◌, refl, Bool, true, none, List, arith}
use dnvme.Device.{Completion, Cq}
use dnvme.Phase.{entry_is_new, remain_loop, is_backed, endless, counted_of, get_cqe_remain}

module _ (slots : List Completion) where
  remain_loop_diverges :
      (fuel tail remain : ℕ) (p : Bool)
      → tail < 65536
      → ((i : ℕ) → i < 65536 → entry_is_new slots i p ≡ true)
      → remain_loop fuel slots 65536 tail p remain ≡ none
  unfolding remain_loop
  remain_loop_diverges zero tail remain p lt full = refl
  remain_loop_diverges (suc fuel) tail remain p lt full = ground (
    arith,
    full tail lt,
    remain_loop_diverges fuel ((tail + 1) % 65536) (remain + 1) p (omega arith) full,
  )

-- On a queue of 65536 entries, contiguous or with its PRPs set, its head inside, whose slots all carry the expected phase, the
-- walk of `dnvme_get_cqe_remain` ends on no fuel.
pub get_cqe_remain-diverges :
    (fuel : ℕ) (cq : Cq)
    → cq.elements ≡ 65536
    → cq.head_ptr < 65536
    → ((i : ℕ) → i < 65536 → entry_is_new cq.slots i cq.pbit_new_entry ≡ true)
    → is_backed cq ≡ true
    → get_cqe_remain fuel cq ≡ endless
unfolding get_cqe_remain counted_of
get_cqe_remain-diverges fuel cq e lt full backed = rw (
  backed,
  e,
  remain_loop_diverges cq.slots fuel cq.head_ptr 0 cq.pbit_new_entry lt full,
  get_cqe_remain,
)
