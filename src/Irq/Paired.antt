-- ===== src/Irq/Paired.antt =====
-- The invariant of `struct nvme_irq_set`: the irq list and the work list register the same ids with
-- the same vectors, and none of either twice; modules/dnvme/irq.c, the operations on the set.
use dnvme.Base.{
  ℕ, ◌≡◌, refl, sym, ap, ◌∙◌, Bool, true, Option, none, some, List, [], ◌∷◌, ◌++◌, ◌==◌, ◌&&◌, ◌||◌,
  ◌⊎◌, not, false, arith, Option-cases, Bool-cases, inl, inr,
}
use mathlib.Core.Path.{subst}
use mathlib.Core.Option
use dnvme.Device.{Irq, Work, IrqSet, fail, einval}
use dnvme.Irq.{
  find_irq_node_by_id, find_irq_node_by_vec, find_work_node_by_id, create_irq_node,
  create_work_node, create_icq_node, dnvme_create_icq_node, dnvme_delete_icq_node, create_admin_icq,
  destroy_irq_work_pair, inc_isr_count, PairAlloc, create_irq_work_pair,
}
use dnvme.Irq.Keys.{
  irq_keys, work_keys, Unique, vec_of, id_of, delete_key, find_irq_node_by_id-keys,
  find_irq_node_by_vec-keys, find_work_node_by_id-keys, find_work_node_by_vec-keys, irq_keys-delete,
  work_keys-delete, irq_keys-append, work_keys-append, irq_keys-update, irq_keys-update_found,
  Unique-delete_key, Unique-append,
}
use dnvme.Irq.Unique.{IsFree, registered, create_irq_work_pair-free}

pub record IsPaired (set : IrqSet) : Type 0 where
  pub same : irq_keys set.irq_list ≡ work_keys set.work_list
  pub unique : Unique (irq_keys set.irq_list)

-- A new irq list with the same keys.
IsPaired-same_keys :
    {set : IrqSet} (irqs : List Irq)
    → irq_keys irqs ≡ irq_keys set.irq_list
    → IsPaired set
    → IsPaired (record set { irq_list = irqs })
IsPaired-same_keys irqs e h = record { same = e ∙ h.same; unique = subst Unique (sym e) h.unique }

pub create_icq_node-key :
    (alloc : Bool) (irq : Irq) (cq_id : ℕ)
    → let m = (create_icq_node alloc irq cq_id).1 in
      (m.irq_id ≡ irq.irq_id) × (m.int_vec ≡ irq.int_vec)
unfolding create_icq_node
create_icq_node-key alloc irq cq_id = ground arith

-- `dnvme_create_icq_node` keeps the invariant of the interrupt set, on its error paths too.
pub dnvme_create_icq_node-IsPaired :
    (alloc : Bool) {set : IrqSet} (cq_id irq_no : ℕ)
    → IsPaired set
    → IsPaired (dnvme_create_icq_node alloc set cq_id irq_no).1
unfolding dnvme_create_icq_node
dnvme_create_icq_node-IsPaired alloc {set} cq_id irq_no h =
    elim (Option-cases (find_irq_node_by_id set.irq_list irq_no)) [
      | inl e ↦ rw (e, dnvme_create_icq_node) h
      | inr (n, e) ↦
          let (p, q) = create_icq_node-key alloc n cq_id in
          let kept =
            irq_keys-update_found irq_no n (create_icq_node alloc n cq_id).1 set.irq_list e p q in
          rw (e, dnvme_create_icq_node) (IsPaired-same_keys _ kept h)
    ]

pub dnvme_delete_icq_node-IsPaired :
    {set : IrqSet} (cq_id irq_no : ℕ)
    → IsPaired set
    → IsPaired (dnvme_delete_icq_node set cq_id irq_no)
unfolding dnvme_delete_icq_node
dnvme_delete_icq_node-IsPaired {set} cq_id irq_no h =
    IsPaired-same_keys _ (irq_keys-update irq_no _ set.irq_list (λ n. (refl, refl))) h

pub inc_isr_count-IsPaired :
    {set : IrqSet} (irq_id : ℕ) → IsPaired set → IsPaired (inc_isr_count set irq_id)
unfolding inc_isr_count
inc_isr_count-IsPaired {set} irq_id h =
    IsPaired-same_keys _ (irq_keys-update irq_id _ set.irq_list (λ n. (refl, refl))) h

-- `destroy_irq_work_pair` keeps the invariant of the interrupt set.
pub destroy_irq_work_pair-IsPaired :
    {set : IrqSet} (irq_id : ℕ) → IsPaired set → IsPaired (destroy_irq_work_pair set irq_id)
unfolding destroy_irq_work_pair
destroy_irq_work_pair-IsPaired {set} i h = record {
  same =
      irq_keys-delete i set.irq_list
      ∙ ap (delete_key i) h.same
      ∙ sym (work_keys-delete i set.work_list);
  unique = subst Unique (sym (irq_keys-delete i set.irq_list)) (Unique-delete_key i _ h.unique);
}

create_admin_icq-IsPaired :
    (alloc : Bool) {set : IrqSet} (irq_id : ℕ)
    → IsPaired set
    → IsPaired (create_admin_icq alloc set irq_id).1
unfolding create_admin_icq
create_admin_icq-IsPaired alloc {set} irq_id h = elim (Bool-cases (irq_id == 0)) [
  | inl e ↦ rw e (dnvme_create_icq_node-IsPaired alloc 0 irq_id h)
  | inr e ↦ rw e h
]

map-eq-none {ℓ κ} :
    {A : Type ℓ} {B : Type κ} (f : A → B) (o : Option A) → Option.map f o ≡ none → o ≡ none
map-eq-none f none e = refl
map-eq-none f (some a) e = cc

-- In a paired set an id and a vector that the keys do not show are free in both lists.
keys-IsFree :
    {set : IrqSet} (v i : ℕ)
    → IsPaired set
    → vec_of i (irq_keys set.irq_list) ≡ none
    → id_of v (irq_keys set.irq_list) ≡ none
    → IsFree set v i
keys-IsFree {set} v i h p q = record {
  irq_by_id = map-eq-none _ _ (find_irq_node_by_id-keys set.irq_list i ∙ p);
  irq_by_vec = map-eq-none _ _ (find_irq_node_by_vec-keys set.irq_list v ∙ q);
  work_by_id =
      map-eq-none _ _ (find_work_node_by_id-keys set.work_list i ∙ ap (vec_of i) (sym h.same) ∙ p);
  work_by_vec =
      map-eq-none _ _ (find_work_node_by_vec-keys set.work_list v ∙ ap (id_of v) (sym h.same) ∙ q);
}

registered-IsPaired :
    {set : IrqSet} (v i : ℕ)
    → IsPaired set
    → vec_of i (irq_keys set.irq_list) ≡ none
    → id_of v (irq_keys set.irq_list) ≡ none
    → IsPaired (registered set v i)
registered-IsPaired {set} v i h p q =
    let e = irq_keys-append set.irq_list _ in
    record {
      same = e ∙ ap (λ ks. ks ++ (i, v) ∷ []) h.same ∙ sym (work_keys-append set.work_list _);
      unique = subst Unique (sym e) (Unique-append i v _ h.unique p q);
    }

pub map-eq-some {ℓ κ} :
    {A : Type ℓ} {B : Type κ} (f : A → B) (o : Option A) {b : B}
    → Option.map f o ≡ some b
    → (a : A) × (o ≡ some a) × (f a ≡ b)
map-eq-some f none e = cc
map-eq-some f (some a) e = (a, refl, cc)

module _ (set : IrqSet) (v i : ℕ) (alloc : PairAlloc) where
  pair_vec_taken :
      {m : Irq}
      → find_irq_node_by_id set.irq_list i ≡ none
      → find_irq_node_by_vec set.irq_list v ≡ some m
      → create_irq_work_pair alloc set v i ≡ (fail einval, set)
  unfolding create_irq_work_pair create_irq_node
  pair_vec_taken p q = ground arith

  pair_id_taken :
      {n : Irq}
      → find_irq_node_by_id set.irq_list i ≡ some n
      → (n.int_vec == v) ≡ false
      → create_irq_work_pair alloc set v i ≡ (fail einval, set)
  unfolding create_irq_work_pair create_irq_node
  pair_id_taken p q = ground arith

  -- Both nodes are there already: only the admin entry may be added, and if that fails the pair
  -- that was there is destroyed.
  pair_again :
      {n : Irq} {m : Work}
      → find_irq_node_by_id set.irq_list i ≡ some n
      → (n.int_vec == v) ≡ true
      → find_work_node_by_id set.work_list i ≡ some m
      → (m.int_vec == v) ≡ true
      → let set' = (create_admin_icq alloc.icq_ok set i).1 in
        ((create_irq_work_pair alloc set v i).1 ≡ set')
        ⊎ ((create_irq_work_pair alloc set v i).1 ≡ destroy_irq_work_pair set' i)
  unfolding create_irq_work_pair create_irq_node create_work_node
  pair_again p q r s = ground arith

  pair_new-IsPaired :
      IsPaired set
      → vec_of i (irq_keys set.irq_list) ≡ none
      → id_of v (irq_keys set.irq_list) ≡ none
      → IsPaired (create_irq_work_pair alloc set v i).1
  pair_new-IsPaired h p q =
      let all_ok = alloc.irq_ok && (alloc.work_ok && (not (i == 0) || alloc.icq_ok)) in
      rw (create_irq_work_pair-free set v i (keys-IsFree v i h p q) alloc)
        (elim (Bool-cases all_ok) [ inl e ↦ rw e (registered-IsPaired v i h p q) | inr e ↦ rw e h ])

  pair_old-IsPaired :
      (w : ℕ)
      → IsPaired set
      → vec_of i (irq_keys set.irq_list) ≡ some w
      → IsPaired (create_irq_work_pair alloc set v i).1
  pair_old-IsPaired w h p =
      let (n, e, en) = map-eq-some _ _ (find_irq_node_by_id-keys set.irq_list i ∙ p) in
      let (m, f, fm) =
        map-eq-some _ _
          (find_work_node_by_id-keys set.work_list i ∙ ap (vec_of i) (sym h.same) ∙ p) in
      let admin = create_admin_icq-IsPaired alloc.icq_ok i h in
      elim (Bool-cases (w == v)) [
        | inr differs ↦ rw (pair_id_taken e (ap (λ x. x == v) en ∙ differs)) h
        | inl same ↦
            elim (pair_again e (ap (λ x. x == v) en ∙ same) f (ap (λ x. x == v) fm ∙ same)) [
              | inl kept ↦ rw kept admin
              | inr destroyed ↦ rw destroyed (destroy_irq_work_pair-IsPaired i admin)
            ]
      ]

-- `create_irq_work_pair` keeps the invariant of the interrupt set, that both lists register the
-- same ids with the same vectors and none twice, on every path: a new pair, a pair that is there
-- already, an id or a vector in use, and each allocation failure with its clean-up.
pub create_irq_work_pair-IsPaired :
    (alloc : PairAlloc) {set : IrqSet} (v i : ℕ)
    → IsPaired set
    → IsPaired (create_irq_work_pair alloc set v i).1
create_irq_work_pair-IsPaired alloc {set} v i h =
    elim (Option-cases (vec_of i (irq_keys set.irq_list))) [
      | inr (w, p) ↦ pair_old-IsPaired set v i alloc w h p
      | inl p ↦ elim (Option-cases (id_of v (irq_keys set.irq_list))) [
        | inl q ↦ pair_new-IsPaired set v i alloc h p q
        | inr (j, q) ↦
            let (m, e, _) = map-eq-some _ _ (find_irq_node_by_vec-keys set.irq_list v ∙ q) in
            let free_id = map-eq-none _ _ (find_irq_node_by_id-keys set.irq_list i ∙ p) in
            rw (pair_vec_taken set v i alloc free_id e) h
      ]
    ]
