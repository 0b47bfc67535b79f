-- ===== src/Irq.antt =====
-- modules/dnvme/irq.c: the nodes of `struct nvme_irq_set`. The set is passed and returned; whether
-- an allocation succeeds is an argument. A pointer that a find function returned is the first node
-- with that key, so a write or a delete through it goes to that node.
pub mod Handler
pub mod Unique
pub mod Keys
pub mod Paired
pub mod Delivery
pub mod Setup
pub mod Rollback
pub mod Check
pub mod Scheme
pub mod Change
pub mod Reach
pub mod Limits
use dnvme.Base.{
  ℕ, ◌+◌, ◌%◌, Bool, true, false, Option, none, some, List, [], ◌∷◌, ◌++◌, ◌==◌, if◌then◌else◌,
}
use dnvme.Device.{Irq, Work, IrqSet, Status, done, fail, einval, enomem}

-- Whether `cq_id` is tracked by the node.
unfoldable pub find_icq_node : List ℕ → ℕ → Bool
find_icq_node [] cq_id = false
find_icq_node (c ∷ cs) cq_id =
    let rest = find_icq_node cs cq_id in if cq_id == c then true else rest

unfoldable pub find_irq_node_by_vec : List Irq → ℕ → Option Irq
find_irq_node_by_vec [] int_vec = none
find_irq_node_by_vec (n ∷ ns) int_vec =
    if int_vec == n.int_vec then some n else find_irq_node_by_vec ns int_vec

unfoldable pub find_irq_node_by_id : List Irq → ℕ → Option Irq
find_irq_node_by_id [] irq_id = none
find_irq_node_by_id (n ∷ ns) irq_id =
    if irq_id == n.irq_id then some n else find_irq_node_by_id ns irq_id

unfoldable pub find_work_node_by_vec : List Work → ℕ → Option Work
find_work_node_by_vec [] int_vec = none
find_work_node_by_vec (n ∷ ns) int_vec =
    if int_vec == n.int_vec then some n else find_work_node_by_vec ns int_vec

unfoldable pub find_work_node_by_id : List Work → ℕ → Option Work
find_work_node_by_id [] irq_id = none
find_work_node_by_id (n ∷ ns) irq_id =
    if irq_id == n.irq_id then some n else find_work_node_by_id ns irq_id

-- A write through the pointer that `find_irq_node_by_id` returns.
unfoldable pub update_irq_node : ℕ → (Irq → Irq) → List Irq → List Irq
update_irq_node irq_id f [] = []
update_irq_node irq_id f (n ∷ ns) =
    let rest = update_irq_node irq_id f ns in if irq_id == n.irq_id then f n ∷ ns else n ∷ rest

unfoldable pub create_icq_node : Bool → Irq → ℕ → Status × Irq
create_icq_node alloc irq cq_id =
    if find_icq_node irq.icq_list cq_id
    then (done, irq)
    else if alloc
    then (done, record irq { icq_list = irq.icq_list ++ (cq_id ∷ []) })
    else (fail enomem, irq)

unfoldable pub dnvme_create_icq_node : Bool → IrqSet → ℕ → ℕ → Status × IrqSet
dnvme_create_icq_node alloc set cq_id irq_no = elim (find_irq_node_by_id set.irq_list irq_no) [
  | none ↦ (fail einval, set)
  | some irq ↦
      let (ret, irq') = create_icq_node alloc irq cq_id in
      (ret, record set { irq_list = update_irq_node irq_no (λ _. irq') set.irq_list })
]

-- `delete_icq_node` of the node that `find_icq_node` returns.
unfoldable pub delete_icq_node : ℕ → List ℕ → List ℕ
delete_icq_node cq_id [] = []
delete_icq_node cq_id (c ∷ cs) =
    let rest = delete_icq_node cq_id cs in if cq_id == c then cs else c ∷ rest

unfoldable pub dnvme_delete_icq_node : IrqSet → ℕ → ℕ → IrqSet
dnvme_delete_icq_node set cq_id irq_no = record set {
  irq_list =
      update_irq_node irq_no (λ irq. record irq { icq_list = delete_icq_node cq_id irq.icq_list })
        set.irq_list;
}

-- The node that `create_irq_node` fills in.
abbrev pub fresh_irq : ℕ → ℕ → Irq
fresh_irq int_vec irq_id = record {
  icq_list = [];
  irq_id = irq_id;
  int_vec = int_vec;
  isr_fired = false;
  isr_count = 0;
}

unfoldable pub create_irq_node : Bool → IrqSet → ℕ → ℕ → Status × IrqSet
create_irq_node alloc set int_vec irq_id = elim (find_irq_node_by_id set.irq_list irq_id) [
  | some irq ↦ if irq.int_vec == int_vec then (done, set) else (fail einval, set)
  | none ↦ elim (find_irq_node_by_vec set.irq_list int_vec) [
    | some irq ↦ (fail einval, set)
    | none ↦
        if alloc
        then (done, record set { irq_list = set.irq_list ++ (fresh_irq int_vec irq_id ∷ []) })
        else (fail enomem, set)
  ]
]

-- `delete_irq_node` of the node that `find_irq_node_by_id` returns, with its `icq` list.
unfoldable pub delete_irq_node : ℕ → List Irq → List Irq
delete_irq_node irq_id [] = []
delete_irq_node irq_id (n ∷ ns) =
    let rest = delete_irq_node irq_id ns in if irq_id == n.irq_id then ns else n ∷ rest

-- `atomic_set` of the flag and `atomic_add` of the 32-bit counter.
unfoldable pub inc_isr_count : IrqSet → ℕ → IrqSet
inc_isr_count set irq_id = record set {
  irq_list =
      update_irq_node irq_id
        (λ n. record n { isr_fired = true; isr_count = (n.isr_count + 1) % 4294967296 })
        set.irq_list;
}

abbrev pub fresh_work : ℕ → ℕ → Work
fresh_work int_vec irq_id = record { irq_id = irq_id; int_vec = int_vec }

unfoldable pub create_work_node : Bool → IrqSet → ℕ → ℕ → Status × IrqSet
create_work_node alloc set int_vec irq_id = elim (find_work_node_by_id set.work_list irq_id) [
  | some node ↦ if node.int_vec == int_vec then (done, set) else (fail einval, set)
  | none ↦ elim (find_work_node_by_vec set.work_list int_vec) [
    | some node ↦ (fail einval, set)
    | none ↦
        if alloc
        then (done, record set { work_list = set.work_list ++ (fresh_work int_vec irq_id ∷ []) })
        else (fail enomem, set)
  ]
]

unfoldable pub delete_work_node : ℕ → List Work → List Work
delete_work_node irq_id [] = []
delete_work_node irq_id (n ∷ ns) =
    let rest = delete_work_node irq_id ns in if irq_id == n.irq_id then ns else n ∷ rest

-- Which of the three allocations of `create_irq_work_pair` succeed.
pub record PairAlloc : Type 0 where
  pub irq_ok : Bool
  pub work_ok : Bool
  pub icq_ok : Bool

unfoldable pub destroy_irq_work_pair : IrqSet → ℕ → IrqSet
destroy_irq_work_pair set irq_id = record set {
  work_list = delete_work_node irq_id set.work_list;
  irq_list = delete_irq_node irq_id set.irq_list;
}

-- `create_icq_node(find_irq_node_by_id(irq_set, irq_id), 0)` of `create_irq_work_pair`.
unfoldable pub create_admin_icq : Bool → IrqSet → ℕ → Status × IrqSet
create_admin_icq alloc set irq_id =
    if irq_id == 0 then dnvme_create_icq_node alloc set 0 irq_id else (done, set)

unfoldable pub create_irq_work_pair : PairAlloc → IrqSet → ℕ → ℕ → Status × IrqSet
create_irq_work_pair alloc set int_vec irq_id =
    let (ret₁, set₁) = create_irq_node alloc.irq_ok set int_vec irq_id in
    elim ret₁ [
      | fail e ↦ (fail e, set₁)
      | done ↦
          let (ret₂, set₂) = create_work_node alloc.work_ok set₁ int_vec irq_id in
          elim ret₂ [
            | fail e ↦ (fail e, record set₂ { irq_list = delete_irq_node irq_id set₂.irq_list })
            | done ↦
                let (ret₃, set₃) = create_admin_icq alloc.icq_ok set₂ irq_id in
                elim ret₃ [
                  | fail e ↦ (fail e, destroy_irq_work_pair set₃ irq_id)
                  | done ↦ (done, set₃)
                ]
          ]
    ]
