-- ===== src/User/Shuffle.antt =====
-- lib/nvme/queue.c: the random exchange of what is noted of the submission queues.
use dnvme.Base.{
  ℕ, zero, suc, ◌+◌, ◌-◌, ◌%◌, ◌≤◌, ◌<◌, ◌≡◌, refl, sym, ap, ap₂, ◌∙◌, List, [], ◌∷◌, map, ◌==◌,
  if◌then◌else◌, get_or, get_or-set_self, get_or-set_ne, set, length, length-set, arith,
}
use native.Mathlib.Nat.{mod-lt}
use native.Mathlib.Decide.{ℕ_discrete}
use dnvme.User.{
  Prio, SqInfo, modify_at, no_sq, swap_cqid, swap_nr_entry, swap_sq_loop, swap_iosq_info_random,
}

-- How often a number stands in a list.
abbrev pub count : ℕ → List ℕ → ℕ
count x [] = 0
count x (y ∷ ys) = (if y == x then 1 else 0) + count x ys

abbrev hit : ℕ → ℕ → ℕ
hit x y = if y == x then 1 else 0

count-set :
    (x v i : ℕ) (l : List ℕ)
    → i < length l
    → count x (set l i v) + hit x (get_or l i 0) ≡ count x l + hit x v
count-set x v i [] lt = absurd (omega arith)
count-set x v zero (y ∷ l) lt = omega arith
count-set x v (suc i) (y ∷ l) lt = omega (arith, count-set x v i l (omega arith))

-- Two elements that change places.
abbrev exchange : ℕ → ℕ → List ℕ → List ℕ
exchange i j l = set (set l i (get_or l j 0)) j (get_or l i 0)

count-exchange :
    (x i j : ℕ) (l : List ℕ) → i < length l → j < length l → count x (exchange i j l) ≡ count x l
count-exchange x i j l lt lu =
    let b = get_or l j 0 in
    let size = length-set l i b in
    let first = count-set x b i l lt in
    let second = count-set x (get_or l i 0) j (set l i b) (omega (arith, size)) in
    elim (ℕ_discrete i j) [
      | yes e ↦
          let here : get_or (set l i b) j 0 ≡ b =
            ap (λ k. get_or (set l i b) k 0) (sym e) ∙ get_or-set_self l i b 0 lt in
          let same : get_or l i 0 ≡ b = ap (λ k. get_or l k 0) e in
          ground (arith, first, second, here, same)
      | no n ↦ omega (arith, first, second, ap (hit x) (get_or-set_ne l i j b 0 n))
    ]

module _ {A : Type 0} (f : SqInfo → A) where
  map-modify_at :
      (g : SqInfo → SqInfo) (v : A) (i : ℕ) (sqs : List SqInfo)
      → ((s : SqInfo) → f (g s) ≡ v)
      → map f (modify_at i g sqs) ≡ set (map f sqs) i v
  map-modify_at g v i [] h = refl
  map-modify_at g v zero (s ∷ sqs) h = ap (λ w. w ∷ map f sqs) (h s)
  map-modify_at g v (suc i) (s ∷ sqs) h = ap (λ l. f s ∷ l) (map-modify_at g v i sqs h)

  map-modify_at_other :
      (g : SqInfo → SqInfo) (i : ℕ) (sqs : List SqInfo)
      → ((s : SqInfo) → f (g s) ≡ f s)
      → map f (modify_at i g sqs) ≡ map f sqs
  map-modify_at_other g i [] h = refl
  map-modify_at_other g zero (s ∷ sqs) h = ap (λ w. w ∷ map f sqs) (h s)
  map-modify_at_other g (suc i) (s ∷ sqs) h = ap (λ l. f s ∷ l) (map-modify_at_other g i sqs h)

  get_or-map :
      (i : ℕ) (d : SqInfo) (sqs : List SqInfo) → get_or (map f sqs) i (f d) ≡ f (get_or sqs i d)
  get_or-map i d [] = refl
  get_or-map zero d (s ∷ sqs) = refl
  get_or-map (suc i) d (s ∷ sqs) = get_or-map i d sqs

  length-map : (sqs : List SqInfo) → length (map f sqs) ≡ length sqs
  length-map [] = refl
  length-map (s ∷ sqs) = ap suc (length-map sqs)

-- The fields of the queues.
abbrev pub sqids : List SqInfo → List ℕ
sqids sqs = map (λ (s : SqInfo). s.sqid) sqs

abbrev pub cqids : List SqInfo → List ℕ
cqids sqs = map (λ (s : SqInfo). s.cqid) sqs

abbrev pub nr_entries : List SqInfo → List ℕ
nr_entries sqs = map (λ (s : SqInfo). s.nr_entry) sqs

abbrev pub prios : List SqInfo → List Prio
prios sqs = map (λ (s : SqInfo). s.prio) sqs

-- An exchange of one field, which is read by `f` and written by `put`.
exchange-field :
    (f : SqInfo → ℕ) (put : ℕ → SqInfo → SqInfo) (i j : ℕ) (sqs : List SqInfo)
    → ((v : ℕ) (s : SqInfo) → f (put v s) ≡ v)
    → f no_sq ≡ 0
    → map f (
        modify_at j (put (f (get_or sqs i no_sq))) (modify_at i (put (f (get_or sqs j no_sq))) sqs))
      ≡ exchange i j (map f sqs)
exchange-field f put i j sqs h z =
    let a = f (get_or sqs i no_sq) in
    let b = f (get_or sqs j no_sq) in
    let at : (k : ℕ) → f (get_or sqs k no_sq) ≡ get_or (map f sqs) k 0 =
      λ k. sym (get_or-map f k no_sq sqs) ∙ ap (get_or (map f sqs) k) z in
    map-modify_at f (put a) a j (modify_at i (put b) sqs) (h a)
    ∙ ap (λ l. set l j a) (map-modify_at f (put b) b i sqs (h b))
    ∙ ap₂ (λ b a. set (set (map f sqs) i b) j a) (at j) (at i)

keep_field :
    {A : Type 0} (f : SqInfo → A) (put : ℕ → SqInfo → SqInfo) (i j a b : ℕ) (sqs : List SqInfo)
    → ((v : ℕ) (s : SqInfo) → f (put v s) ≡ f s)
    → map f (modify_at j (put a) (modify_at i (put b) sqs)) ≡ map f sqs
keep_field f put i j a b sqs h =
    map-modify_at_other f (put a) j (modify_at i (put b) sqs) (h a)
    ∙ map-modify_at_other f (put b) i sqs (h b)

-- What an exchange keeps: the queues, their numbers and priorities in order, and how often each completion
-- queue and each size is there.
pub record IsShuffled (sqs sqs' : List SqInfo) : Type 0 where
  pub ids : sqids sqs' ≡ sqids sqs
  pub priorities : prios sqs' ≡ prios sqs
  pub bound : (c : ℕ) → count c (cqids sqs') ≡ count c (cqids sqs)
  pub sizes : (n : ℕ) → count n (nr_entries sqs') ≡ count n (nr_entries sqs)

IsShuffled-trans : (a b c : List SqInfo) → IsShuffled a b → IsShuffled b c → IsShuffled a c
IsShuffled-trans a b c h k = record {
  ids = k.ids ∙ h.ids;
  priorities = k.priorities ∙ h.priorities;
  bound = λ x. k.bound x ∙ h.bound x;
  sizes = λ x. k.sizes x ∙ h.sizes x;
}

length-sqids : (sqs sqs' : List SqInfo) → sqids sqs' ≡ sqids sqs → length sqs' ≡ length sqs
length-sqids sqs sqs' e =
    sym (length-map (λ (s : SqInfo). s.sqid) sqs')
    ∙ ap length e
    ∙ length-map (λ (s : SqInfo). s.sqid) sqs

module _ (i j : ℕ) (sqs : List SqInfo) (lt : i < length sqs) (lu : j < length sqs) where
  count-field : (f : SqInfo → ℕ) (x : ℕ) → count x (exchange i j (map f sqs)) ≡ count x (map f sqs)
  count-field f x =
      let size = length-map f sqs in
      count-exchange x i j (map f sqs) (omega (arith, size)) (omega (arith, size))

  swap_cqid-IsShuffled : IsShuffled sqs (swap_cqid i j sqs)
  unfolding swap_cqid
  swap_cqid-IsShuffled =
      let put = λ (v : ℕ) (s : SqInfo). record s { cqid = v } in
      let a = (get_or sqs i no_sq).cqid in
      let b = (get_or sqs j no_sq).cqid in
      record {
        ids = keep_field (λ (s : SqInfo). s.sqid) put i j a b sqs (λ v s. refl);
        priorities = keep_field (λ (s : SqInfo). s.prio) put i j a b sqs (λ v s. refl);
        bound = λ x.
            ap (count x) (exchange-field (λ (s : SqInfo). s.cqid) put i j sqs (λ v s. refl) refl)
            ∙ count-field (λ (s : SqInfo). s.cqid) x;
        sizes = λ x.
            ap (count x) (keep_field (λ (s : SqInfo). s.nr_entry) put i j a b sqs (λ v s. refl));
      }

  swap_nr_entry-IsShuffled : IsShuffled sqs (swap_nr_entry i j sqs)
  unfolding swap_nr_entry
  swap_nr_entry-IsShuffled =
      let put = λ (v : ℕ) (s : SqInfo). record s { nr_entry = v } in
      let a = (get_or sqs i no_sq).nr_entry in
      let b = (get_or sqs j no_sq).nr_entry in
      record {
        ids = keep_field (λ (s : SqInfo). s.sqid) put i j a b sqs (λ v s. refl);
        priorities = keep_field (λ (s : SqInfo). s.prio) put i j a b sqs (λ v s. refl);
        bound =
            λ x. ap (count x) (keep_field (λ (s : SqInfo). s.cqid) put i j a b sqs (λ v s. refl));
        sizes = λ x.
            ap (count x)
              (exchange-field (λ (s : SqInfo). s.nr_entry) put i j sqs (λ v s. refl) refl)
            ∙ count-field (λ (s : SqInfo). s.nr_entry) x;
      }

-- An element from number `i` on.
drawn-inside : (r i nr_sq : ℕ) → i < nr_sq → i + r % (nr_sq - i) < nr_sq
drawn-inside r i nr_sq lt = let less = mod-lt r {m = nr_sq - i} (omega arith) in omega (arith, less)

swap_sq_loop-IsShuffled :
    (rand : ℕ → ℕ) (nr_sq n k i : ℕ) (sqs : List SqInfo)
    → length sqs ≡ nr_sq
    → i + n ≤ nr_sq
    → IsShuffled sqs (swap_sq_loop n rand nr_sq k i sqs)
unfolding swap_sq_loop
swap_sq_loop-IsShuffled rand nr_sq zero k i sqs size le = record {
  ids = refl;
  priorities = refl;
  bound = λ x. refl;
  sizes = λ x. refl;
}
swap_sq_loop-IsShuffled rand nr_sq (suc n) k i sqs size le =
    let a = i + rand k % (nr_sq - i) in
    let b = i + rand (k + 1) % (nr_sq - i) in
    let a_in = drawn-inside (rand k) i nr_sq (omega arith) in
    let b_in = drawn-inside (rand (k + 1)) i nr_sq (omega arith) in
    let first = swap_cqid i a sqs in
    let one = swap_cqid-IsShuffled i a sqs (omega (arith, size)) (omega (arith, size, a_in)) in
    let same = length-sqids sqs first one.ids in
    let both = swap_nr_entry i b first in
    let two =
      swap_nr_entry-IsShuffled i b first (omega (arith, size, same))
        (omega (arith, size, same, b_in)) in
    let still = length-sqids first both two.ids in
    let rest =
      swap_sq_loop-IsShuffled rand nr_sq n (k + 2) (suc i) both (still ∙ same ∙ size)
        (omega arith) in
    IsShuffled-trans sqs both _ (IsShuffled-trans sqs first both one two) rest

-- Whatever numbers are drawn, `nvme_swap_iosq_info_random` of the array of all submission queues keeps their
-- numbers and priorities in order, and gives out the same completion queues and the same numbers of
-- entries as before, each as often.
pub swap_iosq_info_random-IsShuffled :
    (rand : ℕ → ℕ) (sqs : List SqInfo)
    → IsShuffled sqs (swap_iosq_info_random rand (length sqs) sqs)
unfolding swap_iosq_info_random
swap_iosq_info_random-IsShuffled rand sqs =
    swap_sq_loop-IsShuffled rand (length sqs) (length sqs - 1) 0 0 sqs refl (omega arith)
