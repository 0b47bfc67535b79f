-- ===== src/User/Alloc.antt =====
-- lib/nvme/queue.c: the queues that are noted at the start, and how they are found.
use dnvme.Base.{
  ℕ, zero, suc, ◌+◌, ◌-◌, ◌%◌, ◌≤◌, ◌<◌, ◌≡◌, refl, ap, Bool, true, false, not, Option, none, some,
  List, [], ◌∷◌, ltb, leb, ◌==◌, get_elem?, length, arith, min, if-elim, ltb→lt, ==_iff,
}
use native.Mathlib.Nat.{mod-lt}
use mathlib.Core.Path.{subst}
use dnvme.User.{
  SqInfo, nr_entry_random, draws, new_sq_info, note, alloc_sq_loop, InfoRun, overrun, no_memory,
  allocated, of_loop, alloc_iosq_info, Found, found, null, behind_front, find_iosq_info,
}

-- A queue between 256 entries, or all that there can be, and all that there can be.
pub record IsSized (mqes : ℕ) (sq : SqInfo) : Type 0 where
  pub least : min 256 mqes ≤ sq.nr_entry
  pub most : sq.nr_entry ≤ mqes

nr_entry_random-bounds :
    (mqes r : ℕ) → (min 256 mqes ≤ nr_entry_random mqes r) × (nr_entry_random mqes r ≤ mqes)
unfolding nr_entry_random
nr_entry_random-bounds mqes r =
    let less = mod-lt r {m = mqes - 255} in (ground (arith, less), ground (arith, less))

-- The array of `n` queues from identifier `qid` on, each bound to the completion queue of its number.
pub record IsListed (mqes qid n : ℕ) (sqs : List SqInfo) : Type 0 where
  pub size : length sqs ≡ n
  pub entry :
      (j : ℕ)
      → j < n
      → (sq : SqInfo) × (get_elem? sqs j ≡ some sq)
        × (sq.sqid ≡ qid + j)
        × (sq.cqid ≡ qid + j)
        × IsSized mqes sq

IsListed-cons :
    (mqes qid n : ℕ) (sq : SqInfo) (sqs : List SqInfo)
    → sq.sqid ≡ qid
    → sq.cqid ≡ qid
    → IsSized mqes sq
    → IsListed mqes (suc qid) n sqs
    → IsListed mqes qid (suc n) (sq ∷ sqs)
IsListed-cons mqes qid n sq sqs a b s h = record { size = ap suc h.size; entry = at }
  where
    at :
        (j : ℕ)
        → j < suc n
        → (q : SqInfo) × (get_elem? (sq ∷ sqs) j ≡ some q)
          × (q.sqid ≡ qid + j)
          × (q.cqid ≡ qid + j)
          × IsSized mqes q
    at zero lt = (sq, refl, omega arith, omega arith, s)
    at (suc j) lt =
        let (q, e, c, d, t) = h.entry j (omega arith) in (q, e, omega arith, omega arith, t)

module _ (rand : ℕ → ℕ) (mqes nr_sq : ℕ) (few : nr_sq < 65535) where
  new_sq_info-IsSized : (k qid : ℕ) → IsSized mqes (new_sq_info rand mqes k qid)
  unfolding new_sq_info
  new_sq_info-IsSized k qid =
      let (least, most) = nr_entry_random-bounds mqes (rand k) in
      record { least = least; most = most }

  new_sq_info-ids :
      (k qid : ℕ)
      → ((new_sq_info rand mqes k qid).sqid ≡ qid) × ((new_sq_info rand mqes k qid).cqid ≡ qid)
  unfolding new_sq_info
  new_sq_info-ids k qid = (refl, refl)

  Lists : ℕ → ℕ → Option (List SqInfo) → Type 0
  Lists qid n none = true ≡ false
  Lists qid n (some sqs) = IsListed mqes qid n sqs

  note-Lists :
      (qid n k : ℕ) (r : Option (List SqInfo))
      → Lists (suc qid) n r
      → Lists qid (suc n) (note (new_sq_info rand mqes k qid) r)
  unfolding Lists
  note-Lists qid n k none h = h
  note-Lists qid n k (some sqs) h =
      let (a, b) = new_sq_info-ids k qid in
      IsListed-cons mqes qid n (new_sq_info rand mqes k qid) sqs a b (new_sq_info-IsSized k qid) h

  none_left : (qid : ℕ) → Lists qid 0 (some [])
  unfolding Lists
  none_left qid = record { size = refl; entry = λ j lt. absurd (omega arith) }

  alloc_sq_loop-Lists :
      (fuel n k qid : ℕ)
      → 0 < qid
      → qid + n ≡ suc nr_sq
      → n < fuel
      → Lists qid n (alloc_sq_loop fuel rand mqes nr_sq k qid)
  unfolding alloc_sq_loop
  alloc_sq_loop-Lists zero n k qid pos all enough = absurd (omega arith)
  alloc_sq_loop-Lists (suc fuel) zero k qid pos all enough =
      if-elim (Lists qid 0) (not (leb qid nr_sq)) (λ e. none_left qid) (λ e. absurd (ground arith))
  alloc_sq_loop-Lists (suc fuel) (suc n) k qid pos all enough =
      if-elim (Lists qid (suc n)) (not (leb qid nr_sq)) (λ e. absurd (ground arith))
        (λ e.
          if-elim (Lists qid (suc n)) (qid == 0) (λ first. absurd (ground arith))
            (λ later.
              let next : suc qid ≡ (qid + 1) % 65536 = omega arith in
              note-Lists qid n k _ (
                subst
                  (λ q.
                    Lists (suc qid) n (alloc_sq_loop fuel rand mqes nr_sq (k + draws mqes + 1) q))
                  next
                  (alloc_sq_loop-Lists fuel n (k + draws mqes + 1) (suc qid) (omega arith)
                    (omega arith) (omega arith)))))

-- What a search of the array for a number finds.
abbrev pub Finds : ℕ → ℕ → ℕ → Found SqInfo → Type 0
Finds mqes nr_sq sqid (found sq) = (sq.sqid ≡ sqid) × (sq.cqid ≡ sqid) × IsSized mqes sq
Finds mqes nr_sq sqid null = nr_sq < sqid
Finds mqes nr_sq sqid behind_front = sqid ≡ 0

find_iosq_info-Finds :
    (mqes nr_sq sqid : ℕ) (sqs : List SqInfo)
    → IsListed mqes 1 nr_sq sqs
    → Finds mqes nr_sq sqid (find_iosq_info sqs nr_sq sqid)
unfolding find_iosq_info
find_iosq_info-Finds mqes nr_sq sqid sqs h =
    if-elim (Finds mqes nr_sq sqid) (ltb nr_sq sqid) (λ e. ltb→lt nr_sq sqid e)
      (λ inside.
        if-elim (Finds mqes nr_sq sqid) (sqid == 0) (λ e. (==_iff sqid 0).0 e)
          (λ positive.
            let pos : 0 < sqid = ground arith in
            let le : sqid - 1 < nr_sq = ground arith in
            let (sq, e, a, b, s) = h.entry (sqid - 1) le in
            let same : sq.sqid ≡ sqid = omega arith in
            let bound : sq.cqid ≡ sqid = omega arith in
            rw e (
              if-elim (Finds mqes nr_sq sqid) (sq.sqid == sqid) (λ _. (same, bound, s))
                (λ other. absurd (ground arith)))))

-- What the allocation comes to.
abbrev pub Notes : ℕ → ℕ → Bool → InfoRun (List SqInfo) → Type 0
Notes mqes nr_sq alloc overrun = true ≡ false
Notes mqes nr_sq alloc no_memory = alloc ≡ false
Notes mqes nr_sq alloc (allocated sqs) =
    IsListed mqes 1 nr_sq sqs × ((sqid : ℕ) → Finds mqes nr_sq sqid (find_iosq_info sqs nr_sq sqid))

of_loop-Notes :
    (mqes nr_sq : ℕ) (alloc : Bool) (rand : ℕ → ℕ) (few : nr_sq < 65535) (r : Option (List SqInfo))
    → Lists rand mqes nr_sq few 1 nr_sq r
    → Notes mqes nr_sq alloc (of_loop r)
unfolding of_loop Lists
of_loop-Notes mqes nr_sq alloc rand few none h = h
of_loop-Notes mqes nr_sq alloc rand few (some sqs) h =
    (h, λ sqid. find_iosq_info-Finds mqes nr_sq sqid sqs h)

-- For fewer than 65535 queues, and whatever numbers are drawn, `nvme_alloc_iosq_info` fails only where no
-- memory is given, and else notes each queue of a number from 1 on under its place, bound to the
-- completion queue of its number, with no more entries than there can be and at least 256 or all of
-- them. `nvme_find_iosq_info` then finds exactly the queues of the numbers from 1 to how many there
-- are, and reads in front of the array for number 0.
pub alloc_iosq_info-Notes :
    (alloc : Bool) (rand : ℕ → ℕ) (mqes nr_sq : ℕ)
    → nr_sq < 65535
    → Notes mqes nr_sq alloc (alloc_iosq_info alloc rand mqes nr_sq)
unfolding alloc_iosq_info
alloc_iosq_info-Notes alloc rand mqes nr_sq few =
    if-elim (Notes mqes nr_sq alloc) alloc
      (λ e. of_loop-Notes mqes nr_sq alloc rand few _ (
        alloc_sq_loop-Lists rand mqes nr_sq few (nr_sq + 1) nr_sq 0 1 (omega arith) (omega arith)
          (omega arith)))
      (λ e. e)
