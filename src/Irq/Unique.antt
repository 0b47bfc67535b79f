-- ===== src/Irq/Unique.antt =====
-- modules/dnvme/irq.c: `create_irq_work_pair` for an id and a vector that are not in use.
use dnvme.Base.{
  ℕ, ◌≡◌, refl, Bool, not, ◌&&◌, ◌||◌, none, some, List, [], ◌∷◌, ◌++◌, ◌==◌, if◌then◌else◌, arith,
}
use dnvme.Device.{Irq, Work, IrqSet, done, fail, enomem}
use dnvme.Irq.{
  find_irq_node_by_id, find_irq_node_by_vec, find_work_node_by_id, find_work_node_by_vec,
  update_irq_node, fresh_irq, fresh_work, create_irq_node, create_work_node, delete_irq_node,
  delete_work_node, find_icq_node, create_icq_node, dnvme_create_icq_node, create_admin_icq,
  destroy_irq_work_pair, PairAlloc, create_irq_work_pair,
}

-- What is done to a node that stands behind nodes of other ids.
module _ (n : Irq) (irq_id : ℕ) (same : irq_id ≡ n.irq_id) where
  pub find-append_last :
      (ns : List Irq)
      → find_irq_node_by_id ns irq_id ≡ none
      → find_irq_node_by_id (ns ++ n ∷ []) irq_id ≡ some n
  unfolding find_irq_node_by_id
  find-append_last [] e = ground arith
  find-append_last (m ∷ ns) e = ground (arith, find-append_last ns)

  pub delete_irq_node-append_last :
      (ns : List Irq)
      → find_irq_node_by_id ns irq_id ≡ none
      → delete_irq_node irq_id (ns ++ n ∷ []) ≡ ns
  unfolding find_irq_node_by_id delete_irq_node
  delete_irq_node-append_last [] e = ground arith
  delete_irq_node-append_last (m ∷ ns) e = ground (arith, delete_irq_node-append_last ns)

  update_irq_node-append_last :
      (f : Irq → Irq) (ns : List Irq)
      → find_irq_node_by_id ns irq_id ≡ none
      → update_irq_node irq_id f (ns ++ n ∷ []) ≡ ns ++ f n ∷ []
  unfolding find_irq_node_by_id update_irq_node
  update_irq_node-append_last f [] e = ground arith
  update_irq_node-append_last f (m ∷ ns) e = ground (arith, update_irq_node-append_last f ns)

pub delete_work_node-append_last :
    (w : Work) (irq_id : ℕ) (ws : List Work)
    → irq_id ≡ w.irq_id
    → find_work_node_by_id ws irq_id ≡ none
    → delete_work_node irq_id (ws ++ w ∷ []) ≡ ws
unfolding find_work_node_by_id delete_work_node
delete_work_node-append_last w irq_id [] same e = ground arith
delete_work_node-append_last w irq_id (v ∷ ws) same e =
    ground (arith, delete_work_node-append_last w irq_id ws same)

-- No node of either list has the id or the vector.
pub record IsFree (set : IrqSet) (int_vec irq_id : ℕ) : Type 0 where
  pub irq_by_id : find_irq_node_by_id set.irq_list irq_id ≡ none
  pub irq_by_vec : find_irq_node_by_vec set.irq_list int_vec ≡ none
  pub work_by_id : find_work_node_by_id set.work_list irq_id ≡ none
  pub work_by_vec : find_work_node_by_vec set.work_list int_vec ≡ none

-- The set with one node more in each list; interrupt 0 tracks the admin completion queue.
abbrev pub registered : IrqSet → ℕ → ℕ → IrqSet
registered set int_vec irq_id = record set {
  irq_list =
      set.irq_list
      ++ (record (fresh_irq int_vec irq_id) { icq_list = if irq_id == 0 then 0 ∷ [] else [] } ∷ []);
  work_list = set.work_list ++ (fresh_work int_vec irq_id ∷ []);
}

create_icq_node-fresh :
    (alloc : Bool) (int_vec irq_id : ℕ)
    → create_icq_node alloc (fresh_irq int_vec irq_id) 0 ≡ (
        if alloc
        then (done, record (fresh_irq int_vec irq_id) { icq_list = 0 ∷ [] })
        else (fail enomem, fresh_irq int_vec irq_id))
unfolding create_icq_node find_icq_node
create_icq_node-fresh alloc int_vec irq_id = refl

module _ (set : IrqSet) (int_vec irq_id : ℕ) (free : IsFree set int_vec irq_id) where
  with_irq : List Irq
  with_irq = set.irq_list ++ (fresh_irq int_vec irq_id ∷ [])

  create_irq_node-free :
      (alloc : Bool)
      → create_irq_node alloc set int_vec irq_id
        ≡ (if alloc then (done, record set { irq_list = with_irq }) else (fail enomem, set))
  unfolding create_irq_node with_irq
  create_irq_node-free alloc = ground (arith, free.irq_by_id, free.irq_by_vec)

  create_work_node-free :
      (alloc : Bool) (irqs : List Irq)
      → create_work_node alloc (record set { irq_list = irqs }) int_vec irq_id ≡ (
          if alloc
          then (
            done,
            record set {
              irq_list = irqs;
              work_list = set.work_list ++ (fresh_work int_vec irq_id ∷ []);
            },
          )
          else (fail enomem, record set { irq_list = irqs }))
  unfolding create_work_node
  create_work_node-free alloc irqs = ground (arith, free.work_by_id, free.work_by_vec)

  -- The admin entry, made or not, for the node that has just been appended.
  create_admin_icq-free :
      (alloc : Bool) (works : List Work)
      → create_admin_icq alloc (record set { irq_list = with_irq; work_list = works }) irq_id ≡ (
          if irq_id == 0
          then if alloc
            then (done, record (registered set int_vec irq_id) { work_list = works })
            else (fail enomem, record set { irq_list = with_irq; work_list = works })
          else (done, record set { irq_list = with_irq; work_list = works }))
  unfolding create_admin_icq dnvme_create_icq_node with_irq create_icq_node find_icq_node
  create_admin_icq-free alloc works = ground (
    arith,
    find-append_last (fresh_irq int_vec irq_id) irq_id refl set.irq_list free.irq_by_id,
    update_irq_node-append_last (fresh_irq int_vec irq_id) irq_id refl
        (λ _. fresh_irq int_vec irq_id) set.irq_list free.irq_by_id,
    update_irq_node-append_last (fresh_irq int_vec irq_id) irq_id refl
        (λ _. record (fresh_irq int_vec irq_id) { icq_list = 0 ∷ [] }) set.irq_list free.irq_by_id,
  )

  -- `create_irq_work_pair` for an id and a vector that are not in use: it appends exactly one irq
  -- node and one work node, with the admin queue tracked on interrupt 0; where one of its three
  -- allocations fails it returns ENOMEM and leaves both lists as they were.
  pub create_irq_work_pair-free :
      (alloc : PairAlloc)
      → create_irq_work_pair alloc set int_vec irq_id ≡ (
          if alloc.irq_ok && (alloc.work_ok && (not (irq_id == 0) || alloc.icq_ok))
          then (done, registered set int_vec irq_id)
          else (fail enomem, set))
  unfolding create_irq_work_pair destroy_irq_work_pair with_irq
  create_irq_work_pair-free alloc = ground (
    arith,
    create_irq_node-free alloc.irq_ok,
    create_work_node-free alloc.work_ok with_irq,
    create_admin_icq-free alloc.icq_ok (set.work_list ++ (fresh_work int_vec irq_id ∷ [])),
    delete_irq_node-append_last (fresh_irq int_vec irq_id) irq_id refl set.irq_list free.irq_by_id,
    delete_work_node-append_last (fresh_work int_vec irq_id) irq_id set.work_list refl
        free.work_by_id,
  )
