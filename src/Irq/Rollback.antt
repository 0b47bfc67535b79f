-- ===== src/Irq/Rollback.antt =====
-- modules/dnvme/irq.c: the roll-back of `set_int_msix`.
use dnvme.Base.{
  ℕ, zero, suc, ◌+◌, ◌≤◌, ◌<◌, ◌≡◌, refl, sym, ap, ◌∙◌, false, not, none, List, [], ◌∷◌, ◌++◌, ◌==◌,
  ◌&&◌, ◌||◌, Bool-cases, inl, inr, arith, if◌then◌else◌,
}
use mathlib.Core.Path.{subst}
use dnvme.Device.{einval, Errno, Irq, Work, IrqSet, Status, done, fail, enomem, Effect}
use dnvme.Irq.{
  find_irq_node_by_id, find_irq_node_by_vec, find_work_node_by_id, find_work_node_by_vec, PairAlloc,
  create_irq_work_pair, destroy_irq_work_pair, fresh_work, delete_work_node,
}
use dnvme.Irq.Unique.{
  IsFree, registered, create_irq_work_pair-free, delete_irq_node-append_last,
  delete_work_node-append_last,
}
use dnvme.Irq.Check.{MsixPtr}
use dnvme.Irq.Setup.{
  MsixMem, create_pairs, destroy_pairs, finish_msix, pair_msix, undo_msix, set_int_msix,
  request_irqs,
}

irq_by_id-append :
    (ns : List Irq) (n : Irq) (i : ℕ)
    → (i == n.irq_id) ≡ false
    → find_irq_node_by_id ns i ≡ none
    → find_irq_node_by_id (ns ++ n ∷ []) i ≡ none
unfolding find_irq_node_by_id
irq_by_id-append [] n i away e = ground arith
irq_by_id-append (m ∷ ns) n i away e = ground (arith, irq_by_id-append ns n i away)

irq_by_vec-append :
    (ns : List Irq) (n : Irq) (v : ℕ)
    → (v == n.int_vec) ≡ false
    → find_irq_node_by_vec ns v ≡ none
    → find_irq_node_by_vec (ns ++ n ∷ []) v ≡ none
unfolding find_irq_node_by_vec
irq_by_vec-append [] n v away e = ground arith
irq_by_vec-append (m ∷ ns) n v away e = ground (arith, irq_by_vec-append ns n v away)

work_by_id-append :
    (ns : List Work) (n : Work) (i : ℕ)
    → (i == n.irq_id) ≡ false
    → find_work_node_by_id ns i ≡ none
    → find_work_node_by_id (ns ++ n ∷ []) i ≡ none
unfolding find_work_node_by_id
work_by_id-append [] n i away e = ground arith
work_by_id-append (m ∷ ns) n i away e = ground (arith, work_by_id-append ns n i away)

work_by_vec-append :
    (ns : List Work) (n : Work) (v : ℕ)
    → (v == n.int_vec) ≡ false
    → find_work_node_by_vec ns v ≡ none
    → find_work_node_by_vec (ns ++ n ∷ []) v ≡ none
unfolding find_work_node_by_vec
work_by_vec-append [] n v away e = ground arith
work_by_vec-append (m ∷ ns) n v away e = ground (arith, work_by_vec-append ns n v away)

registered-IsFree :
    (set : IrqSet) (w i v k : ℕ)
    → (k == i) ≡ false
    → (v == w) ≡ false
    → IsFree set v k
    → IsFree (registered set w i) v k
registered-IsFree set w i v k other_id other_vec h = record {
  irq_by_id = irq_by_id-append set.irq_list _ k other_id h.irq_by_id;
  irq_by_vec = irq_by_vec-append set.irq_list _ v other_vec h.irq_by_vec;
  work_by_id = work_by_id-append set.work_list _ k other_id h.work_by_id;
  work_by_vec = work_by_vec-append set.work_list _ v other_vec h.work_by_vec;
}

-- A pair that was registered and destroyed again.
destroy-registered :
    (set : IrqSet) (v i : ℕ) → IsFree set v i → destroy_irq_work_pair (registered set v i) i ≡ set
unfolding destroy_irq_work_pair
destroy-registered set v i h =
    let n : Irq = record {
      icq_list = if i == 0 then 0 ∷ [] else [];
      irq_id = i;
      int_vec = v;
      isr_fired = false;
      isr_count = 0;
    } in
    let a = delete_irq_node-append_last n i refl set.irq_list h.irq_by_id in
    let b = delete_work_node-append_last (fresh_work v i) i set.work_list refl h.work_by_id in
    ap
      (λ l. record (registered set v i) {
        irq_list = l;
        work_list = delete_work_node i (registered set v i).work_list;
      })
      a
    ∙ ap (λ l. record set { work_list = l }) b

module _ (pair : ℕ → PairAlloc) (vec : ℕ → ℕ) (n j : ℕ) (set set' : IrqSet) where
  create_pairs_done :
      create_irq_work_pair (pair j) set (vec j) j ≡ (done, set')
      → create_pairs pair vec (suc n) j set ≡ create_pairs pair vec n (suc j) set'
  unfolding create_pairs
  create_pairs_done e = ground (arith, e)

  create_pairs_fail :
      (err : Errno)
      → create_irq_work_pair (pair j) set (vec j) j ≡ (fail err, set')
      → create_pairs pair vec (suc n) j set ≡ (fail err, j, set')
  unfolding create_pairs
  create_pairs_fail err e = ground (arith, e)

module _ (set : IrqSet) (vec : ℕ → ℕ) where
  -- The set with the first `j` pairs registered.
  abbrev pub tower : ℕ → IrqSet
  tower zero = set
  tower (suc j) = registered (tower j) (vec j) j

  -- The loop over the pairs ended with `num` of them, or stopped with fewer.
  abbrev pub Made : ℕ → Status × ℕ × IrqSet → Type 0
  Made num (done, j, set') = (j ≡ num) × (set' ≡ tower j)
  Made num (fail e, j, set') = set' ≡ tower j

  -- A scheme was set up with all of its pairs, or with none.
  abbrev pub EndsWith : ℕ → Status × IrqSet × List Effect → Type 0
  EndsWith num (done, set', io) = set' ≡ tower num
  EndsWith num (fail e, set', io) = set' ≡ set

module _ (set : IrqSet) (vec : ℕ → ℕ) (distinct : (a b : ℕ) → a < b → (vec b == vec a) ≡ false)
    (free : (k : ℕ) → IsFree set (vec k) k) where
  pub tower-IsFree : (j k : ℕ) → j ≤ k → IsFree (tower set vec j) (vec k) k
  tower-IsFree zero k le = free k
  tower-IsFree (suc j) k le =
      registered-IsFree (tower set vec j) (vec j) j (vec k) k (ground arith)
        (distinct j k (omega arith)) (tower-IsFree j k (omega arith))

  pub destroy_pairs-tower : (j : ℕ) → destroy_pairs j (tower set vec j) ≡ set
  unfolding destroy_pairs
  destroy_pairs-tower zero = refl
  destroy_pairs-tower (suc j) =
      ap (destroy_pairs j)
        (destroy-registered (tower set vec j) (vec j) j (tower-IsFree j j (omega arith)))
      ∙ destroy_pairs-tower j

  -- However many pairs the loop creates before it ends, they are the tower of that height.
  pub create_pairs-tower :
      (pair : ℕ → PairAlloc) (num n j : ℕ)
      → num ≡ j + n
      → Made set vec num (create_pairs pair vec n j (tower set vec j))
  unfolding create_pairs
  create_pairs-tower pair num zero j e = (omega arith, refl)
  create_pairs-tower pair num (suc n) j e =
      let ok = (pair j).irq_ok && ((pair j).work_ok && (not (j == 0) || (pair j).icq_ok)) in
      let here = tower set vec j in
      let run =
        create_irq_work_pair-free here (vec j) j (tower-IsFree j j (omega arith)) (pair j) in
      let rest = create_pairs-tower pair num n (suc j) (omega arith) in
      elim (Bool-cases ok) [
        | inl e ↦
            let made : create_irq_work_pair (pair j) here (vec j) j
                ≡ (done, tower set vec (suc j)) =
              run ∙ rw e refl in
            subst (Made set vec num)
              (sym (create_pairs_done pair vec n j here (tower set vec (suc j)) made)) rest
        | inr e ↦
            let stop : create_irq_work_pair (pair j) here (vec j) j ≡ (fail enomem, here) =
              run ∙ rw e refl in
            subst (Made set vec num) (sym (create_pairs_fail pair vec n j here here enomem stop))
              refl
      ]

  undo_msix-EndsWith :
      (num i j : ℕ) (e : Errno) (set' : IrqSet) (io : List Effect)
      → set' ≡ tower set vec j
      → EndsWith set vec num (undo_msix vec i j e set' io)
  unfolding undo_msix
  undo_msix-EndsWith num i j e set' io h = ap (destroy_pairs j) h ∙ destroy_pairs-tower j

  finish_msix-EndsWith :
      (mem : MsixMem) (ptr : MsixPtr) (num i : ℕ) (r : Status × ℕ × IrqSet) (io : List Effect)
      → Made set vec num r
      → EndsWith set vec num (finish_msix mem ptr vec num i r io)
  unfolding finish_msix
  finish_msix-EndsWith mem ptr num i (fail e, j, set') io h = undo_msix-EndsWith num i j e set' io h
  finish_msix-EndsWith mem ptr num i (done, j, set') io (all, h) = elim (Bool-cases mem.pending) [
    | inl p ↦ rw (p, finish_msix) (undo_msix-EndsWith num i j einval set' io h)
    | inr p ↦ rw (p, finish_msix) (h ∙ ap (tower set vec) all)
  ]

  pair_msix-EndsWith :
      (mem : MsixMem) (ptr : MsixPtr) (num : ℕ) (r : Status × ℕ × List Effect)
      → EndsWith set vec num (pair_msix mem ptr vec num set r)
  unfolding pair_msix
  pair_msix-EndsWith mem ptr num (fail e, i, io) = undo_msix-EndsWith num i 0 e set io refl
  pair_msix-EndsWith mem ptr num (done, i, io) =
      finish_msix-EndsWith mem ptr num i (create_pairs mem.pair vec num 0 set) io
        (create_pairs-tower mem.pair num num 0 (omega arith))

  pub set_int_msix-EndsWith :
      (mem : MsixMem) (ptr : MsixPtr) (num : ℕ) (io : List Effect)
      → EndsWith set vec num (set_int_msix mem ptr vec num set io)
  unfolding set_int_msix
  set_int_msix-EndsWith mem ptr num io =
      let paired = pair_msix-EndsWith mem ptr num (request_irqs mem.request vec num 0 io) in
      ground (arith, paired)

-- Where the ids and the vectors asked for are free and the vectors are distinct, a `set_int_msix`
-- that fails, at whatever step and after however many pairs it had created, leaves the interrupt set
-- exactly as it was.
pub set_int_msix-rolls_back :
    (mem : MsixMem) (ptr : MsixPtr) (vec : ℕ → ℕ) (num : ℕ) (set : IrqSet) (io : List Effect)
    (e : Errno) (set' : IrqSet) (io' : List Effect)
    → ((a b : ℕ) → a < b → (vec b == vec a) ≡ false)
    → ((k : ℕ) → IsFree set (vec k) k)
    → set_int_msix mem ptr vec num set io ≡ (fail e, set', io')
    → set' ≡ set
set_int_msix-rolls_back mem ptr vec num set io e set' io' distinct free run =
    subst (EndsWith set vec num) run (set_int_msix-EndsWith set vec distinct free mem ptr num io)
