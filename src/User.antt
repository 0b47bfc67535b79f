-- ===== src/User.antt =====
-- lib/nvme/queue.c: what the user library keeps of the I/O queues, and its checks of completion entries.
-- The numbers of `rand` are an argument, a function of how many were drawn before.
pub mod Alloc
pub mod Create
pub mod Shuffle
use dnvme.Base.{
  ℕ, zero, suc, ◌+◌, ◌-◌, ◌*◌, ◌%◌, Bool, true, false, not, Option, none, some, List, [], ◌∷◌, ltb,
  leb, ◌==◌, if◌then◌else◌, get_elem?, get_or, length,
}
use dnvme.Device.{Errno, einval, eperm, enomem, Status, done, fail, Completion}
use dnvme.Phase.{status_to_state}

-- NVME_SQ_PRIO_URGENT and the others.
pub data Prio : Type 0 where
  urgent high medium low : Prio

-- `struct nvme_sq_info`, without the buffer of a queue that is not contiguous.
pub record SqInfo : Type 0 where
  pub sqid : ℕ
  pub cqid : ℕ
  pub nr_entry : ℕ
  pub prio : Prio
  pub contig : Bool

-- `nvme_set_sq_prio_random`
unfoldable pub sq_prio_random : ℕ → Prio
sq_prio_random r =
    if r % 4 == 0 then urgent else if r % 4 == 1 then high else if r % 4 == 2 then medium else low

-- The number of entries; `mqes` is NVME_CAP_MQES and one.
unfoldable pub nr_entry_random : ℕ → ℕ → ℕ
nr_entry_random mqes r = if ltb 256 mqes then r % (mqes - 255) + 256 else mqes

-- Whether that draws a number.
abbrev pub draws : ℕ → ℕ
draws mqes = if ltb 256 mqes then 1 else 0

unfoldable pub new_sq_info : (ℕ → ℕ) → ℕ → ℕ → ℕ → SqInfo
unfolding sq_prio_random nr_entry_random
new_sq_info rand mqes k qid = record {
  sqid = qid;
  cqid = qid;
  nr_entry = nr_entry_random mqes (rand k);
  prio = sq_prio_random (rand (k + draws mqes));
  contig = true;
}

abbrev pub note : SqInfo → Option (List SqInfo) → Option (List SqInfo)
note sq none = none
note sq (some sqs) = some (sq ∷ sqs)

-- The loop of `nvme_alloc_iosq_info` from identifier `qid` on, which is 16-bit: past 65535 it would write in
-- front of the array, which is `none`, as is the end of the fuel.
unfoldable pub alloc_sq_loop : ℕ → (ℕ → ℕ) → ℕ → ℕ → ℕ → ℕ → Option (List SqInfo)
unfolding new_sq_info
alloc_sq_loop zero rand mqes nr_sq k qid = none
alloc_sq_loop (suc fuel) rand mqes nr_sq k qid =
    let later = alloc_sq_loop fuel rand mqes nr_sq (k + draws mqes + 1) ((qid + 1) % 65536) in
    if not (leb qid nr_sq)
    then some []
    else if qid == 0
    then none
    else note (new_sq_info rand mqes k qid) later

-- Fuel one more than the queues; `alloc` is what `calloc` answers.
pub data InfoRun (A : Type 0) : Type 0 where
  overrun : InfoRun A
  no_memory : InfoRun A
  allocated : A → InfoRun A

unfoldable pub of_loop : {A : Type 0} → Option A → InfoRun A
of_loop none = overrun
of_loop (some a) = allocated a

unfoldable pub alloc_iosq_info : Bool → (ℕ → ℕ) → ℕ → ℕ → InfoRun (List SqInfo)
unfolding alloc_sq_loop of_loop
alloc_iosq_info alloc rand mqes nr_sq =
    if alloc then of_loop (alloc_sq_loop (nr_sq + 1) rand mqes nr_sq 0 1) else no_memory

-- How a search ends; `behind_front` is a read in front of the array.
pub data Found (A : Type 0) : Type 0 where
  behind_front : Found A
  null : Found A
  found : A → Found A

-- `nvme_find_iosq_info`; the array has `nr_sq` elements.
unfoldable pub find_iosq_info : List SqInfo → ℕ → ℕ → Found SqInfo
find_iosq_info sqs nr_sq sqid =
    if ltb nr_sq sqid
    then null
    else if sqid == 0
    then behind_front
    else elim (get_elem? sqs (sqid - 1)) [
      | none ↦ null
      | some sq ↦ if sq.sqid == sqid then found sq else null
    ]

-- A change of one element.
abbrev pub modify_at : {A : Type 0} → ℕ → (A → A) → List A → List A
modify_at i f [] = []
modify_at zero f (x ∷ xs) = f x ∷ xs
modify_at (suc i) f (x ∷ xs) = x ∷ modify_at i f xs

-- What is read behind the array.
abbrev pub no_sq : SqInfo
no_sq = record { sqid = 0; cqid = 0; nr_entry = 0; prio = medium; contig = false }

-- The exchange of one field of two elements.
unfoldable pub swap_cqid : ℕ → ℕ → List SqInfo → List SqInfo
swap_cqid i num sqs =
    let a = (get_or sqs i no_sq).cqid in
    let b = (get_or sqs num no_sq).cqid in
    modify_at num (λ s. record s { cqid = a }) (modify_at i (λ s. record s { cqid = b }) sqs)

unfoldable pub swap_nr_entry : ℕ → ℕ → List SqInfo → List SqInfo
swap_nr_entry i num sqs =
    let a = (get_or sqs i no_sq).nr_entry in
    let b = (get_or sqs num no_sq).nr_entry in
    modify_at num (λ s. record s { nr_entry = a })
      (modify_at i (λ s. record s { nr_entry = b }) sqs)

-- The loop of `nvme_swap_iosq_info_random` for `n` elements from number `i` on.
unfoldable pub swap_sq_loop : ℕ → (ℕ → ℕ) → ℕ → ℕ → ℕ → List SqInfo → List SqInfo
unfolding swap_cqid swap_nr_entry
swap_sq_loop zero rand nr_sq k i sqs = sqs
swap_sq_loop (suc n) rand nr_sq k i sqs =
    swap_sq_loop n rand nr_sq (k + 2) (suc i) (
      swap_nr_entry i (i + rand (k + 1) % (nr_sq - i)) (swap_cqid i (i + rand k % (nr_sq - i)) sqs))

unfoldable pub swap_iosq_info_random : (ℕ → ℕ) → ℕ → List SqInfo → List SqInfo
unfolding swap_sq_loop
swap_iosq_info_random rand nr_sq sqs = swap_sq_loop (nr_sq - 1) rand nr_sq 0 0 sqs

-- `nvme_find_cq_entry`
unfoldable pub find_cq_entry : List Completion → ℕ → Option Completion
find_cq_entry [] cid = none
find_cq_entry (e ∷ es) cid =
    let later = find_cq_entry es cid in if e.command_id == cid then some e else later

-- `nvme_valid_cq_entry`
unfoldable pub valid_cq_entry : Completion → ℕ → ℕ → ℕ → Status
unfolding status_to_state
valid_cq_entry e sqid cid status =
    if not (e.sq_id == sqid)
    then fail einval
    else if not (e.command_id == cid)
    then fail einval
    else if not (status_to_state e.status == status)
    then fail einval
    else done

-- `nvme_check_cq_entries`, how far below 0 its answer is.
unfoldable pub check_cq_entries : List Completion → ℕ
unfolding status_to_state
check_cq_entries [] = 0
check_cq_entries (e ∷ es) = (if status_to_state e.status == 0 then 0 else 1) + check_cq_entries es
