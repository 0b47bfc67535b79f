-- ===== src/Cmd/Refine.antt =====
-- A submission queue as the driver keeps it is a bounded first-in first-out queue.
use dnvme.Base.{
  ℕ, ◌+◌, ◌-◌, ◌≡◌, ◌≤◌, ◌<◌, refl, sym, ap, ap₂, ◌∙◌, false, arith, List, [], ◌∷◌, ◌++◌, length,
  length-set, get_or, get_or-set_self, set, ◌==◌,
}
use mathlib.Core.Path.{subst}
use dnvme.Device.{Command, Sq, no_command}
use dnvme.Phase.Remain.{slot_at}
use dnvme.Cmd.Submit.{sq_is_full, put_command}
use dnvme.Cmd.Occupied.{occupied, put_command-IsFilled, sq_is_full-occupied}
use dnvme.Cmd.Fifo.{
  ring_from, pending, IsQueue, SqStep, submit, report, FifoStep, push, pop, SqReach, FifoReach,
  slot_at-bound, ring_from-behind, ring_from-set, ring_from-append, length-ring_from, tail-behind,
  occupied-bound, occupied-report,
}

length-pending : (sq : Sq) → length (pending sq) ≡ occupied sq
unfolding pending
length-pending sq = length-ring_from sq.slots sq.elements sq.head_ptr 0 (occupied sq)

-- The driver's test, in terms of the commands.
sq_is_full-length :
    (sq : Sq) → IsQueue sq → sq_is_full sq ≡ false → length (pending sq) < sq.elements - 1
sq_is_full-length sq h e =
    let full = sq_is_full-occupied sq h.ring in
    let bound = occupied-bound sq h.ring in ground (arith, full, bound, e, length-pending sq)

module _ (c : Command) (sq : Sq) (h : IsQueue sq) (room : sq_is_full sq ≡ false) where
  written : List Command
  written = set sq.slots (slot_at sq.elements sq.head_ptr (occupied sq)) c

  slot-written : get_or written (slot_at sq.elements sq.head_ptr (0 + occupied sq)) no_command ≡ c
  unfolding written
  slot-written =
      let at : 0 + occupied sq ≡ occupied sq = omega arith in
      let inside =
        slot_at-bound sq.elements sq.head_ptr h.ring.head (occupied sq)
          (occupied-bound sq h.ring) in
      let w = h.whole in
      ap (λ k. get_or written (slot_at sq.elements sq.head_ptr k) no_command) at
      ∙ get_or-set_self sq.slots (slot_at sq.elements sq.head_ptr (occupied sq)) c no_command
          (omega (arith, inside, w))

  pending-put : pending (put_command c sq) ≡ pending sq ++ c ∷ []
  unfolding pending written
  pending-put =
      let filled = put_command-IsFilled c sq h.ring room in
      let occ = occupied sq in
      ap₂ (λ n t. ring_from (set sq.slots t c) sq.elements sq.head_ptr 0 n) filled.one_more
        (tail-behind sq h.ring)
      ∙ ring_from-append written sq.elements sq.head_ptr occ 1 0
      ∙ ap₂ (λ l d. l ++ d ∷ [])
          (ring_from-set sq.elements sq.head_ptr h.ring.head sq.slots c occ occ 0 (omega arith)
            (occupied-bound sq h.ring))
          slot-written

  put_command-IsQueue : IsQueue (put_command c sq)
  put_command-IsQueue = record {
    ring = (put_command-IsFilled c sq h.ring room).ring;
    whole = length-set sq.slots sq.tail_ptr_virt c ∙ h.whole;
  }

module _ (n : ℕ) (sq : Sq) (h : IsQueue sq) (le : n ≤ occupied sq) where
  reported : Sq
  reported = record sq { head_ptr = slot_at sq.elements sq.head_ptr n }

  -- The commands are those reported and those left.
  pending-report : pending sq ≡ ring_from sq.slots sq.elements sq.head_ptr 0 n ++ pending reported
  unfolding pending reported
  pending-report =
      let left = occupied (record sq { head_ptr = slot_at sq.elements sq.head_ptr n }) in
      let fewer = occupied-report sq n h.ring le in
      let bound = occupied-bound sq h.ring in
      let all : occupied sq ≡ n + left = omega (arith, fewer) in
      let at : n + 0 ≡ 0 + n = omega arith in
      ap (ring_from sq.slots sq.elements sq.head_ptr 0) all
      ∙ ring_from-append sq.slots sq.elements sq.head_ptr n left 0
      ∙ ap (λ l. ring_from sq.slots sq.elements sq.head_ptr 0 n ++ l)
          (ap (λ k. ring_from sq.slots sq.elements sq.head_ptr k left) (sym at)
            ∙ sym (
                ring_from-behind sq.elements sq.head_ptr h.ring.head sq.slots n left 0
                  (omega (arith, fewer, bound))))

  reported-IsQueue : IsQueue reported
  unfolding reported
  reported-IsQueue =
      let bound = occupied-bound sq h.ring in
      record {
        ring = record {
          head = slot_at-bound sq.elements sq.head_ptr h.ring.head n (omega (arith, bound));
          tail = h.ring.tail;
          fits = h.ring.fits;
        };
        whole = h.whole;
      }

-- One step of the ring is one of the queue, and keeps the ring well formed.
record Follows (room : ℕ) (cs : List Command) (sq : Sq) : Type 0 where
  pub valid : IsQueue sq
  pub size : sq.elements - 1 ≡ room
  pub step : FifoStep room cs (pending sq)

SqStep-Follows :
    (sq sq' : Sq) → IsQueue sq → SqStep sq sq' → Follows (sq.elements - 1) (pending sq) sq'
unfolding reported
SqStep-Follows sq sq' h (submit c room e) =
    subst (Follows (sq.elements - 1) (pending sq)) (sym e) (record {
      valid = put_command-IsQueue c sq h room;
      size = refl;
      step = push c (sq_is_full-length sq h room) (pending-put c sq h room);
    })
SqStep-Follows sq sq' h (report n le e) =
    subst (Follows (sq.elements - 1) (pending sq)) (sym e) (record {
      valid = reported-IsQueue n sq h le;
      size = refl;
      step = pop (ring_from sq.slots sq.elements sq.head_ptr 0 n) (pending-report n sq h le);
    })

pub record Refines (room : ℕ) (cs : List Command) (sq : Sq) : Type 0 where
  pub valid : IsQueue sq
  pub size : sq.elements - 1 ≡ room
  pub run : FifoReach room cs (pending sq)
  pub full : sq_is_full sq ≡ (length (pending sq) == room)

full-length :
    (room : ℕ) (sq : Sq)
    → IsQueue sq
    → sq.elements - 1 ≡ room
    → sq_is_full sq ≡ (length (pending sq) == room)
full-length room sq h size =
    let full = sq_is_full-occupied sq h.ring in
    let bound = occupied-bound sq h.ring in full ∙ ground (arith, bound, length-pending sq)

-- Whatever commands the driver puts into a submission queue where `dnvme_sq_is_full` says that it is not
-- full, and whatever part of the commands completions report as fetched, in any order of these:
-- from a queue that is well formed on, the queue stays well formed, the commands that are not
-- reported run through the steps of a first-in first-out queue of one command less than the ring
-- has slots, and the test for a full queue says just whether it holds as many.
pub SqReach-Refines :
    (sq sq' : Sq) → IsQueue sq → SqReach sq sq' → Refines (sq.elements - 1) (pending sq) sq'
SqReach-Refines sq sq' h SqReach.at_start = record {
  valid = h;
  size = refl;
  run = FifoReach.at_start;
  full = full-length (sq.elements - 1) sq h refl;
}
SqReach-Refines sq sq' h (SqReach.more {sq₁} r s) =
    let before = SqReach-Refines sq sq₁ h r in
    let next = SqStep-Follows sq₁ sq' before.valid s in
    let size = next.size ∙ before.size in
    record {
      valid = next.valid;
      size = size;
      run =
          FifoReach.more before.run
            (subst (λ room. FifoStep room (pending sq₁) (pending sq')) before.size next.step);
      full = full-length (sq.elements - 1) sq' next.valid size;
    }
