-- ===== src/Tests/Interrupt.antt =====
-- The theorems on interrupts at a set of two.
use dnvme.Base.{◌≡◌, refl, true, false, arith}
use dnvme.Device.{enomem}
use dnvme.Irq.{
  PairAlloc, create_irq_work_pair, dnvme_create_icq_node, find_irq_node_by_id, find_irq_node_by_vec,
  find_work_node_by_id, find_work_node_by_vec,
}
use dnvme.Irq.Unique.{IsFree}
use dnvme.Irq.Paired.{IsPaired, create_irq_work_pair-IsPaired}
use dnvme.Irq.Delivery.{IsDelivered, interrupt-IsDelivered}
use dnvme.Base.{ℕ, ◌+◌, ◌==◌, if◌then◌else◌, []}
use dnvme.Device.{IrqSet, done}
use dnvme.Irq.{
  update_irq_node, create_irq_node, create_work_node, create_admin_icq, create_icq_node,
  find_icq_node,
}
use dnvme.Irq.Setup.{
  MsixMem, set_int_msix, pair_msix, finish_msix, undo_msix, request_irqs, create_pairs,
}
use dnvme.Irq.Check.{MsixPtr}
use dnvme.Irq.Rollback.{set_int_msix-rolls_back}
use dnvme.Tests.Data.{irq_one, two_irqs, device}

two_irqs-IsPaired : IsPaired two_irqs
two_irqs-IsPaired = record { same = refl; unique = ground arith }

-- The work node cannot be allocated.
abbrev no_work : PairAlloc
no_work = record { irq_ok = true; work_ok = false; icq_ok = true }

create_irq_work_pair-IsPaired_example : IsPaired (create_irq_work_pair no_work two_irqs 42 2).1
create_irq_work_pair-IsPaired_example = create_irq_work_pair-IsPaired no_work 42 2 two_irqs-IsPaired

interrupt-IsDelivered_example : IsDelivered device 41 irq_one
unfolding find_irq_node_by_vec
interrupt-IsDelivered_example = interrupt-IsDelivered device 41 irq_one two_irqs-IsPaired refl

abbrev no_table : MsixPtr
no_table = record { irqs = 0; tb = 0; pba = 0 }

abbrev no_irqs : IrqSet
no_irqs = record two_irqs { irq_list = []; work_list = [] }

no_irqs-IsFree : (k : ℕ) → IsFree no_irqs (41 + k) k
unfolding find_irq_node_by_id find_irq_node_by_vec find_work_node_by_id find_work_node_by_vec
no_irqs-IsFree k = record {
  irq_by_id = refl;
  irq_by_vec = refl;
  work_by_id = refl;
  work_by_vec = refl;
}

-- The second pair cannot be created.
abbrev second_fails : MsixMem
second_fails = record {
  entries = true;
  enable = true;
  request = λ i. done;
  pair = λ i. if i == 1 then no_work else record no_work { work_ok = true };
  pending = false;
}

set_int_msix-rolls_back_example :
    (set_int_msix second_fails no_table (λ k. 41 + k) 3 no_irqs []).1 ≡ no_irqs
unfolding set_int_msix pair_msix finish_msix undo_msix request_irqs create_pairs
    create_irq_work_pair create_irq_node create_work_node create_admin_icq find_irq_node_by_id
    find_irq_node_by_vec find_work_node_by_id find_work_node_by_vec dnvme_create_icq_node
    create_icq_node find_icq_node update_irq_node
set_int_msix-rolls_back_example =
    set_int_msix-rolls_back second_fails no_table (λ k. 41 + k) 3 no_irqs [] enomem
      (set_int_msix second_fails no_table (λ k. 41 + k) 3 no_irqs []).1
      (set_int_msix second_fails no_table (λ k. 41 + k) 3 no_irqs []).2 (λ a b lt. ground arith)
      no_irqs-IsFree refl
