-- ===== src/Cmd/Fifo.antt =====
-- modules/dnvme/cmd.c: a submission queue against a bounded first-in first-out queue of commands.
use dnvme.Base.{
  ℕ, zero, suc, ◌+◌, ◌≡◌, ◌≢◌, ◌≤◌, ◌<◌, refl, ap, ap₂, ◌∙◌, false, arith, List, [], ◌∷◌, ◌++◌,
  length, get_or, get_or-set_ne, set,
}
use dnvme.Device.{Command, Sq, no_command}
use dnvme.Phase.Remain.{slot_at}
use dnvme.Cmd.Submit.{sq_is_full, put_command}
use dnvme.Cmd.Occupied.{occupied, IsRing}

-- `n` commands of a ring from the one with `k` before it.
abbrev pub ring_from : List Command → ℕ → ℕ → ℕ → ℕ → List Command
ring_from slots elements head k zero = []
ring_from slots elements head k (suc n) =
    get_or slots (slot_at elements head k) no_command ∷ ring_from slots elements head (suc k) n

-- The commands that the controller has not reported as fetched, the oldest first.
unfoldable pub pending : Sq → List Command
unfolding occupied
pending sq = ring_from sq.slots sq.elements sq.head_ptr 0 (occupied sq)

-- The pointers lie in the ring, which has all its slots.
pub record IsQueue (sq : Sq) : Type 0 where
  pub ring : IsRing sq
  pub whole : length sq.slots ≡ sq.elements

-- What happens to the ring: the driver puts a command where the ring is not full, and a completion
-- reports the slot behind `n` of the commands, which the driver stores as the head.
pub data SqStep (sq sq' : Sq) : Type 0 where
  submit : (c : Command) → sq_is_full sq ≡ false → sq' ≡ put_command c sq → SqStep sq sq'
  report :
      (n : ℕ)
      → n ≤ occupied sq
      → sq' ≡ record sq { head_ptr = slot_at sq.elements sq.head_ptr n }
      → SqStep sq sq'

-- A queue that holds `room` commands at most: one more behind the others, or some in front gone.
pub data FifoStep (room : ℕ) (cs cs' : List Command) : Type 0 where
  push : (c : Command) → length cs < room → cs' ≡ cs ++ c ∷ [] → FifoStep room cs cs'
  pop : (taken : List Command) → cs ≡ taken ++ cs' → FifoStep room cs cs'

pub data SqReach (sq : Sq) : Sq → Type 0 where
  at_start : SqReach sq sq
  more : {sq₁ sq₂ : Sq} → SqReach sq sq₁ → SqStep sq₁ sq₂ → SqReach sq sq₂

pub data FifoReach (room : ℕ) (cs : List Command) : List Command → Type 0 where
  at_start : FifoReach room cs cs
  more :
      {cs₁ cs₂ : List Command}
      → FifoReach room cs cs₁
      → FifoStep room cs₁ cs₂
      → FifoReach room cs cs₂

module _ (elements head : ℕ) (inside : head < elements) where
  pub slot_at-bound : (k : ℕ) → k < elements → slot_at elements head k < elements
  slot_at-bound k lt = ground arith

  slot_at-ne : (k n : ℕ) → k < n → n < elements → slot_at elements head n ≢ slot_at elements head k
  slot_at-ne k n lt le = λ e. absurd (ground arith)

  slot_at_twice :
      (n k : ℕ)
      → n + k < elements
      → slot_at elements (slot_at elements head n) k ≡ slot_at elements head (n + k)
  slot_at_twice n k lt = ground arith

  -- The ring from a head further on.
  pub ring_from-behind :
      (slots : List Command) (n m k : ℕ)
      → n + k + m ≤ elements
      → ring_from slots elements (slot_at elements head n) k m
        ≡ ring_from slots elements head (n + k) m
  ring_from-behind slots n zero k le = refl
  ring_from-behind slots n (suc m) k le =
      let next : n + suc k ≡ suc (n + k) = omega arith in
      ap₂ (λ at l. get_or slots at no_command ∷ l) (slot_at_twice n k (omega arith))
        (ring_from-behind slots n m (suc k) (omega arith)
          ∙ ap (λ j. ring_from slots elements head j m) next)

  -- A slot behind the commands is written.
  pub ring_from-set :
      (slots : List Command) (c : Command) (t m k : ℕ)
      → k + m ≤ t
      → t < elements
      → ring_from (set slots (slot_at elements head t) c) elements head k m
        ≡ ring_from slots elements head k m
  ring_from-set slots c t zero k le lt = refl
  ring_from-set slots c t (suc m) k le lt =
      ap₂ ◌∷◌
        (get_or-set_ne slots (slot_at elements head t) (slot_at elements head k) c no_command
          (slot_at-ne k t (omega arith) lt))
        (ring_from-set slots c t m (suc k) (omega arith) lt)

pub ring_from-append :
    (slots : List Command) (elements head m n k : ℕ)
    → ring_from slots elements head k (m + n)
      ≡ ring_from slots elements head k m ++ ring_from slots elements head (k + m) n
ring_from-append slots elements head zero n k =
    let all : 0 + n ≡ n = omega arith in
    let at : k ≡ k + 0 = omega arith in
    ap (ring_from slots elements head k) all ∙ ap (λ j. ring_from slots elements head j n) at
ring_from-append slots elements head (suc m) n k =
    let all : suc m + n ≡ suc (m + n) = omega arith in
    let at : suc k + m ≡ k + suc m = omega arith in
    ap (ring_from slots elements head k) all
    ∙ ap (λ l. get_or slots (slot_at elements head k) no_command ∷ l)
        (ring_from-append slots elements head m n (suc k)
          ∙ ap (λ j. ring_from slots elements head (suc k) m ++ ring_from slots elements head j n)
              at)

pub length-ring_from :
    (slots : List Command) (elements head k n : ℕ) → length (ring_from slots elements head k n) ≡ n
length-ring_from slots elements head k zero = refl
length-ring_from slots elements head k (suc n) =
    ap suc (length-ring_from slots elements head (suc k) n)

-- The tail is the slot behind the commands.
pub tail-behind :
    (sq : Sq) → IsRing sq → sq.tail_ptr_virt ≡ slot_at sq.elements sq.head_ptr (occupied sq)
unfolding occupied
tail-behind sq h = let a = h.head in let b = h.tail in ground (arith, a, b)

pub occupied-bound : (sq : Sq) → IsRing sq → occupied sq < sq.elements
unfolding occupied
occupied-bound sq h = let a = h.head in let b = h.tail in ground (arith, a, b)

-- `n` commands fewer behind a report.
pub occupied-report :
    (sq : Sq) (n : ℕ)
    → IsRing sq
    → n ≤ occupied sq
    → occupied (record sq { head_ptr = slot_at sq.elements sq.head_ptr n }) + n ≡ occupied sq
unfolding occupied
occupied-report sq n h le = let a = h.head in let b = h.tail in ground (arith, a, b, le)
