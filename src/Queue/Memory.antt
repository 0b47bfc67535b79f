-- ===== src/Queue/Memory.antt =====
-- modules/dnvme/queue.c: the memory of a queue, from its allocation to its failure or release.
use dnvme.Base.{
  ℕ, ◌≡◌, ◌≢◌, ap, Bool, true, false, not, ◌&&◌, none, some, List, [], ◌∷◌, ◌++◌, ◌==◌,
  if◌then◌else◌, arith,
}
use dnvme.Base.Dict.{lookup, insert, erase-insert}
use dnvme.Device.{Cq, Sq, Device, Effect, free_p2pmem, free_coherent}
use dnvme.Queue.{
  PrepSq, PrepCq, QueueMem, alloc_buffer, cmb_support_sq, cmb_support_cq, queue_size, new_sq,
  free_sq_buffer, undo_sq_buffer, alloc_sq, release_cmds, release_sq, new_cq, free_cq_buffer,
  undo_cq_buffer, alloc_cq, release_cq, release_ptr,
}

-- The calls that give back what the allocators handed out, with the very address and size.
pub acquired : QueueMem → Bool → Bool → Bool → ℕ → List Effect
acquired mem supported contig use_cmb size =
    if contig
    then if use_cmb
      then if supported && not (mem.p2pmem == 0) then free_p2pmem mem.p2pmem size ∷ [] else []
      else if mem.coherent == 0
      then []
      else free_coherent size mem.coherent mem.coherent_dma ∷ []
    else []

abbrev pub sq_memory : QueueMem → Device → PrepSq → ℕ → List Effect
sq_memory mem dev prep sqes =
    acquired mem (cmb_support_sq dev.cmb) prep.contig prep.use_cmb (queue_size prep.elements sqes)

abbrev pub cq_memory : QueueMem → Device → PrepCq → ℕ → List Effect
cq_memory mem dev prep cqes =
    acquired mem (cmb_support_cq dev.cmb) prep.contig prep.use_cmb (queue_size prep.elements cqes)

module _ (mem : QueueMem) (dev : Device) where
  -- A `dnvme_alloc_sq` that fails after its node was allocated has given back all the queue memory
  -- it acquired, with the size it asked for, and has changed nothing else.
  pub alloc_sq-gives_back :
      (prep : PrepSq) (sqes : ℕ)
      → mem.node ≡ true
      → (alloc_sq mem dev prep sqes).0 ≡ none
      → (alloc_sq mem dev prep sqes).1 ≡ record dev { io = sq_memory mem dev prep sqes ++ dev.io }
  unfolding alloc_sq alloc_buffer undo_sq_buffer free_sq_buffer new_sq acquired
  alloc_sq-gives_back prep sqes node failed = ground arith

  pub alloc_sq-inserts :
      (prep : PrepSq) (sqes : ℕ) {sq : Sq} {dev' : Device}
      → alloc_sq mem dev prep sqes ≡ (some sq, dev')
      → (lookup sq.sq_id dev.sqs ≡ none) × (dev' ≡ record dev { sqs = insert sq.sq_id sq dev.sqs })
  unfolding alloc_sq alloc_buffer
  alloc_sq-inserts prep sqes e = ground arith

  alloc_sq-memory :
      (prep : PrepSq) (sqes : ℕ) {sq : Sq} {dev' : Device}
      → prep.contig ≡ true
      → alloc_sq mem dev prep sqes ≡ (some sq, dev')
      → (sq.cmd_list ≡ []) × (sq.contig ≡ true) × (undo_sq_buffer sq ≡ sq_memory mem dev prep sqes)
  unfolding alloc_sq alloc_buffer new_sq undo_sq_buffer free_sq_buffer acquired
  alloc_sq-memory prep sqes contig e = ground arith

  alloc_cq-inserts :
      (prep : PrepCq) (cqes : ℕ) {cq : Cq} {dev' : Device}
      → alloc_cq mem dev prep cqes ≡ (some cq, dev')
      → (lookup cq.q_id dev.cqs ≡ none) × (dev' ≡ record dev { cqs = insert cq.q_id cq dev.cqs })
  unfolding alloc_cq alloc_buffer
  alloc_cq-inserts prep cqes e = ground arith

module _ (mem : QueueMem) (dev : Device) where
  -- A contiguous submission queue that was allocated and then released leaves the table of queues as it was
  -- at every id, and gives back all its memory with the size it asked for.
  pub alloc_sq-release_sq :
      (prep : PrepSq) (sqes : ℕ) {sq : Sq} {dev' : Device}
      → prep.contig ≡ true
      → alloc_sq mem dev prep sqes ≡ (some sq, dev')
      → ((j : ℕ) → lookup j (release_sq dev' sq).sqs ≡ lookup j dev.sqs)
        × ((release_sq dev' sq).io ≡ sq_memory mem dev prep sqes ++ dev.io)
  unfolding release_sq undo_sq_buffer release_cmds release_ptr
  alloc_sq-release_sq prep sqes {sq} contig e =
      let (free, e') = alloc_sq-inserts mem dev prep sqes e in
      (
        λ j. rw e' (erase-insert sq.sq_id j sq dev.sqs free),
        ground (arith, alloc_sq-memory mem dev prep sqes contig e, ap (λ d. d.io) e'),
      )

  alloc_cq-memory :
      (prep : PrepCq) (cqes : ℕ) {cq : Cq} {dev' : Device}
      → prep.contig ≡ true
      → prep.use_cmb ≡ false
      → alloc_cq mem dev prep cqes ≡ (some cq, dev')
      → (cq.contig ≡ true) × (undo_cq_buffer cq ≡ cq_memory mem dev prep cqes)
  unfolding alloc_cq alloc_buffer new_cq undo_cq_buffer free_cq_buffer acquired
  alloc_cq-memory prep cqes contig host e = ground arith

  -- A contiguous completion queue that was allocated outside the controller's memory buffer and then released
  -- leaves the table of queues as it was at every id, and gives back all its memory with the size
  -- it asked for.
  pub alloc_cq-release_cq :
      (prep : PrepCq) (cqes : ℕ) {cq : Cq} {dev' : Device}
      → prep.contig ≡ true
      → prep.use_cmb ≡ false
      → alloc_cq mem dev prep cqes ≡ (some cq, dev')
      → ((j : ℕ) → lookup j (release_cq dev' cq).cqs ≡ lookup j dev.cqs)
        × ((release_cq dev' cq).io ≡ cq_memory mem dev prep cqes ++ dev.io)
  unfolding release_cq undo_cq_buffer release_ptr
  alloc_cq-release_cq prep cqes {cq} contig host e =
      let (free, e') = alloc_cq-inserts mem dev prep cqes e in
      (
        λ j. rw e' (erase-insert cq.q_id j cq dev.cqs free),
        ground (arith, alloc_cq-memory prep cqes contig host e, ap (λ d. d.io) e'),
      )

  -- A completion queue in the memory buffer of the controller, when its bus address differs from
  -- its size, is released with the bus address in the place of the size, and so what is given
  -- back is not what was acquired.
  pub alloc_cq-release_cq_in_cmb :
      (prep : PrepCq) (cqes : ℕ) {cq : Cq} {dev' : Device}
      → (prep.contig && prep.use_cmb) ≡ true
      → mem.p2p_bus ≢ queue_size prep.elements cqes
      → alloc_cq mem dev prep cqes ≡ (some cq, dev')
      → ((release_cq dev' cq).io ≡ free_p2pmem mem.p2pmem mem.p2p_bus ∷ dev.io)
        × ((release_cq dev' cq).io ≢ cq_memory mem dev prep cqes ++ dev.io)
  unfolding release_cq alloc_cq alloc_buffer new_cq free_cq_buffer acquired release_ptr
  alloc_cq-release_cq_in_cmb prep cqes cmb differ e = ground arith
