-- ===== src/Irq/Delivery.antt =====
-- modules/dnvme/irq.c: the way of an interrupt to the node of its vector.
use dnvme.Base.{
  ℕ, ◌+◌, ◌%◌, ◌≡◌, refl, sym, ap, ◌∙◌, true, false, some, List, [], ◌∷◌, ◌++◌, ◌==◌, arith, All,
  ◌≢◌,
}
use mathlib.Core.Option
use dnvme.Device.{Irq, Work, IrqSet, Device}
use dnvme.Irq.{
  find_icq_node, find_irq_node_by_vec, find_work_node_by_vec, update_irq_node, inc_isr_count,
}
use dnvme.Irq.Handler.{interrupt, update_irq_flag, queue_work, mask_interrupt}
use dnvme.Irq.Keys.{
  Key, Differs, irq_keys, Unique, id_of, find_irq_node_by_vec-keys, find_work_node_by_vec-keys,
}
use dnvme.Irq.Paired.{IsPaired, map-eq-some}

-- What the work item does to the node.
abbrev pub fired : Irq → Irq
fired n = record n { isr_fired = true; isr_count = (n.isr_count + 1) % 4294967296 }

find_icq_node-append : (ids : List ℕ) (id : ℕ) → find_icq_node (ids ++ id ∷ []) id ≡ true
unfolding find_icq_node
find_icq_node-append [] id = ground arith
find_icq_node-append (c ∷ cs) id = let rest = find_icq_node-append cs id in ground arith

queue_work-queued : (set : IrqSet) (id : ℕ) → find_icq_node (queue_work set id).queued id ≡ true
unfolding queue_work
queue_work-queued set id = let e = find_icq_node-append set.queued id in ground arith

-- The found node's id differs from that of a node whose key differs from all.
found-Differs :
    (ns : List Irq) (k : Key) (v : ℕ) (n : Irq)
    → All (Differs k) (irq_keys ns)
    → find_irq_node_by_vec ns v ≡ some n
    → (k.0 == n.irq_id) ≡ false
unfolding find_irq_node_by_vec
found-Differs [] k v n h e = cc
found-Differs (m ∷ ns) k v n h e = ground (arith, found-Differs ns k v n h.1)

-- A write through the id of the node that a vector has.
update-found :
    (ns : List Irq) (v : ℕ) (n : Irq)
    → Unique (irq_keys ns)
    → find_irq_node_by_vec ns v ≡ some n
    → find_irq_node_by_vec (update_irq_node n.irq_id fired ns) v ≡ some (fired n)
unfolding find_irq_node_by_vec update_irq_node
update-found [] v n h e = cc
update-found (m ∷ ns) v n h e =
    ground (arith, update-found ns v n h.1, found-Differs ns (m.irq_id, m.int_vec) v n h.0)

update-others :
    (ns : List Irq) (v w : ℕ) (n : Irq)
    → Unique (irq_keys ns)
    → find_irq_node_by_vec ns v ≡ some n
    → w ≢ v
    → find_irq_node_by_vec (update_irq_node n.irq_id fired ns) w ≡ find_irq_node_by_vec ns w
unfolding find_irq_node_by_vec update_irq_node
update-others [] v w n h e d = cc
update-others (m ∷ ns) v w n h e d =
    ground (arith, update-others ns v w n h.1, found-Differs ns (m.irq_id, m.int_vec) v n h.0)

-- The work item of a vector has the id of its node.
work-found :
    {set : IrqSet} (v : ℕ) (n : Irq)
    → IsPaired set
    → find_irq_node_by_vec set.irq_list v ≡ some n
    → (w : Work) × (find_work_node_by_vec set.work_list v ≡ some w) × (w.irq_id ≡ n.irq_id)
work-found {set} v n h e = map-eq-some _ _ (
    find_work_node_by_vec-keys set.work_list v
    ∙ ap (id_of v) (sym h.same)
    ∙ sym (find_irq_node_by_vec-keys set.irq_list v)
    ∙ ap (Option.map (λ m. m.irq_id)) e)

-- What an interrupt of vector `v` and then its work item have done, `n` being the node of `v`.
pub record IsDelivered (dev : Device) (v : ℕ) (n : Irq) : Type 0 where
  pub handled : (interrupt dev v).0 ≡ true
  pub queued : find_icq_node (interrupt dev v).1.irq_set.queued n.irq_id ≡ true
  pub reached :
      find_irq_node_by_vec (update_irq_flag (interrupt dev v).1 n.irq_id).irq_set.irq_list v
      ≡ some (fired n)
  pub others :
      (w : ℕ)
      → w ≢ v
      → find_irq_node_by_vec (update_irq_flag (interrupt dev v).1 n.irq_id).irq_set.irq_list w
        ≡ find_irq_node_by_vec dev.irq_set.irq_list w

queue_work-irq_list : (set : IrqSet) (id : ℕ) → (queue_work set id).irq_list ≡ set.irq_list
unfolding queue_work
queue_work-irq_list set id = ground arith

pub interrupt-found :
    (dev : Device) (v : ℕ) (w : Work)
    → find_work_node_by_vec dev.irq_set.work_list v ≡ some w
    → interrupt dev v
      ≡ (true, record (mask_interrupt dev w.irq_id) { irq_set = queue_work dev.irq_set w.irq_id })
unfolding interrupt mask_interrupt
interrupt-found dev v w e = rw (e, interrupt) refl

-- In a set that keeps its invariant, an interrupt of a vector that has a node is handled and the work
-- item with the id of the node is on the queue; the work item sets the flag of the node, counts one
-- more modulo 2^32, and leaves the nodes of all other vectors as they were.
pub interrupt-IsDelivered :
    (dev : Device) (v : ℕ) (n : Irq)
    → IsPaired dev.irq_set
    → find_irq_node_by_vec dev.irq_set.irq_list v ≡ some n
    → IsDelivered dev v n
unfolding update_irq_flag inc_isr_count
interrupt-IsDelivered dev v n h e =
    let (w, f, same) = work-found v n h e in
    let run = interrupt-found dev v w f in
    let q = queue_work-irq_list dev.irq_set w.irq_id in
    record {
      handled = ap (λ r. r.0) run;
      queued =
          ap (λ r. find_icq_node r.1.irq_set.queued n.irq_id) run
          ∙ ap (λ i. find_icq_node (queue_work dev.irq_set w.irq_id).queued i) (sym same)
          ∙ queue_work-queued dev.irq_set w.irq_id;
      reached = rw (run, q) (update-found dev.irq_set.irq_list v n h.unique e);
      others = λ x d. rw (run, q) (update-others dev.irq_set.irq_list v x n h.unique e d);
    }
