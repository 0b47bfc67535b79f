-- ===== src/Cmd/Occupied.antt =====
-- modules/dnvme/queue.h and cmd.c: how full a submission queue is.
use dnvme.Base.{
  ℕ, ◌+◌, ◌-◌, ◌%◌, ◌==◌, ◌≡◌, ◌≤◌, ◌<◌, ap, ◌∙◌, false, arith, leb, if◌then◌else◌, Bool-cases, inl,
  inr,
}
use native.Mathlib.Nat.{mod-eq_of_lt, mod_self}
use dnvme.Device.{Command, Sq}
use dnvme.Cmd.Submit.{sq_is_full, put_command}

-- The number of commands between the head, as the last completion reported it, and the tail.
unfoldable pub occupied : Sq → ℕ
occupied sq =
    if leb sq.head_ptr sq.tail_ptr_virt
    then sq.tail_ptr_virt - sq.head_ptr
    else sq.tail_ptr_virt + sq.elements - sq.head_ptr

-- The pointers are slots of the queue, and a slot number fits 16 bits.
pub record IsRing (sq : Sq) : Type 0 where
  pub head : sq.head_ptr < sq.elements
  pub tail : sq.tail_ptr_virt < sq.elements
  pub fits : sq.elements ≤ 65536

-- The slot behind a slot of a ring of `n`.
next_slot : (t n : ℕ) → t < n → (t + 1) % n ≡ (if t + 1 == n then 0 else t + 1)
next_slot t n lt = elim (Bool-cases (t + 1 == n)) [
  | inl e ↦ let same : t + 1 ≡ n = ground arith in rw e (ap (λ x. x % n) same ∙ mod_self n)
  | inr e ↦ let less : t + 1 < n = ground arith in rw e (mod-eq_of_lt less)
]

next_tail :
    (sq : Sq)
    → IsRing sq
    → (sq.tail_ptr_virt + 1) % sq.elements
      ≡ (if sq.tail_ptr_virt + 1 == sq.elements then 0 else sq.tail_ptr_virt + 1)
next_tail sq h = next_slot sq.tail_ptr_virt sq.elements h.tail

-- In a ring of at most 65536 slots with both pointers inside, `dnvme_sq_is_full` answers yes
-- just when all slots but one are occupied.
pub sq_is_full-occupied : (sq : Sq) → IsRing sq → sq_is_full sq ≡ (occupied sq + 1 == sq.elements)
unfolding sq_is_full occupied
sq_is_full-occupied sq h =
    let e = next_tail sq h in
    let a = h.head in let b = h.tail in rw (e, sq_is_full) (ground (arith, a, b))

pub record IsFilled (sq sq' : Sq) : Type 0 where
  pub ring : IsRing sq'
  pub one_more : occupied sq' ≡ occupied sq + 1
  pub room : occupied sq' < sq'.elements

-- In a ring of at most 65536 slots with both pointers inside that is not full, a command that is
-- put occupies one slot more, the pointers stay inside, and not all slots are occupied.
pub put_command-IsFilled :
    (c : Command) (sq : Sq) → IsRing sq → sq_is_full sq ≡ false → IsFilled sq (put_command c sq)
unfolding sq_is_full occupied
put_command-IsFilled c sq h not_full =
    let e = next_tail sq h in
    let a = h.head in
    let b = h.tail in
    let f = h.fits in
    let tail : (put_command c sq).tail_ptr_virt
        ≡ (if sq.tail_ptr_virt + 1 == sq.elements then 0 else sq.tail_ptr_virt + 1) =
      ap (λ x. x % 65536) e ∙ ground (arith, b, f) in
    record {
      ring = record { head = a; tail = ground (arith, tail, b); fits = f };
      one_more = ground (arith, tail, a, b, not_full, e);
      room = ground (arith, tail, a, b, not_full, e);
    }
