-- ===== src/Irq/Setup.antt =====
-- modules/dnvme/irq.c: `set_int_msix`, from the vectors that the kernel has enabled to the masks.
-- `vec` is the vector of each entry; what `request_irq` and the allocators answer is an argument.
use dnvme.Base.{ℕ, zero, suc, Bool, List, ◌∷◌, ◌==◌, if◌then◌else◌}
use dnvme.Device.{
  Errno, einval, eperm, enomem, Status, done, fail, IrqSet, Effect, request_irq, free_irq,
  disable_msix, mask_vector, null_access,
}
use dnvme.Irq.Check.{MsixPtr}
use dnvme.Irq.{PairAlloc, create_irq_work_pair, destroy_irq_work_pair}

-- What the kernel answers: the array of entries, `pci_enable_msix_range`, `request_irq` by entry, the
-- allocations of each pair, and whether a pending bit is set.
pub record MsixMem : Type 0 where
  pub entries : Bool
  pub enable : Bool
  pub request : ℕ → Status
  pub pair : ℕ → PairAlloc
  pub pending : Bool

-- The loop over `request_irq`: `n` entries to go from entry `i` on; how it ended, and how many stand.
unfoldable pub request_irqs :
    (ℕ → Status) → (ℕ → ℕ) → ℕ → ℕ → List Effect → Status × ℕ × List Effect
request_irqs request vec zero i io = (done, i, io)
request_irqs request vec (suc n) i io =
    let further = request_irqs request vec n (suc i) (request_irq (vec i) ∷ io) in
    elim (request i) [ done ↦ further | fail e ↦ (fail e, i, io) ]

-- `for (i--; i >= 0; i--)` over `free_irq`.
unfoldable pub free_irqs : (ℕ → ℕ) → ℕ → List Effect → List Effect
free_irqs vec zero io = io
free_irqs vec (suc i) io = free_irqs vec i (free_irq (vec i) ∷ io)

-- The loop over `create_irq_work_pair`, counted like the one above.
unfoldable pub create_pairs : (ℕ → PairAlloc) → (ℕ → ℕ) → ℕ → ℕ → IrqSet → Status × ℕ × IrqSet
create_pairs pair vec zero j set = (done, j, set)
create_pairs pair vec (suc n) j set =
    let (ret, set') = create_irq_work_pair (pair j) set (vec j) j in
    let further = create_pairs pair vec n (suc j) set' in
    elim ret [ done ↦ further | fail e ↦ (fail e, j, set') ]

unfoldable pub destroy_pairs : ℕ → IrqSet → IrqSet
destroy_pairs zero set = set
destroy_pairs (suc j) set = destroy_pairs j (destroy_irq_work_pair set j)

-- `set_msix_mask` over the entries.
unfoldable pub mask_all : ℕ → List Effect → List Effect
mask_all zero io = io
mask_all (suc n) io = mask_vector n ∷ mask_all n io

-- The labels `out3` and `out2`.
unfoldable pub undo_msix :
    (ℕ → ℕ) → ℕ → ℕ → Errno → IrqSet → List Effect → Status × IrqSet × List Effect
undo_msix vec i j e set io = (fail e, destroy_pairs j set, disable_msix ∷ free_irqs vec i io)

-- `pba_bits_is_set` and `set_msix_mask` go through the pointers that `init_msix_ptr` has set, or not.
unfoldable pub read_pending : MsixPtr → List Effect → List Effect
read_pending ptr io = if ptr.pba == 0 then null_access ∷ io else io

unfoldable pub mask_table : MsixPtr → ℕ → List Effect → List Effect
unfolding mask_all
mask_table ptr num io = if ptr.tb == 0 then null_access ∷ io else mask_all num io

unfoldable pub finish_msix :
    MsixMem
    → MsixPtr
    → (ℕ → ℕ)
    → ℕ
    → ℕ
    → Status × ℕ × IrqSet
    → List Effect
    → Status × IrqSet × List Effect
unfolding undo_msix read_pending mask_table
finish_msix mem ptr vec num i (fail e, j, set) io = undo_msix vec i j e set io
finish_msix mem ptr vec num i (done, j, set) io =
    let io' = read_pending ptr io in
    if mem.pending then undo_msix vec i j einval set io' else (done, set, mask_table ptr num io')

unfoldable pub pair_msix :
    MsixMem
    → MsixPtr
    → (ℕ → ℕ)
    → ℕ
    → IrqSet
    → Status × ℕ × List Effect
    → Status × IrqSet × List Effect
unfolding finish_msix undo_msix
pair_msix mem ptr vec num set (fail e, i, io) = undo_msix vec i 0 e set io
pair_msix mem ptr vec num set (done, i, io) =
    finish_msix mem ptr vec num i (create_pairs mem.pair vec num 0 set) io

unfoldable pub set_int_msix :
    MsixMem → MsixPtr → (ℕ → ℕ) → ℕ → IrqSet → List Effect → Status × IrqSet × List Effect
unfolding pair_msix
set_int_msix mem ptr vec num set io =
    if mem.entries
    then if mem.enable
      then pair_msix mem ptr vec num set (request_irqs mem.request vec num 0 io)
      else (fail eperm, set, io)
    else (fail enomem, set, io)
