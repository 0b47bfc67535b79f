-- ===== src/User/Create/Accepted.antt =====
-- lib/nvme and modules/dnvme: a create command of the user library and the queue that the driver has prepared.
use dnvme.Base.{ℕ, ◌≡◌, ◌≢◌, ◌<◌, refl, ap, ◌∙◌, true, some, ◌∷◌, ◌==◌, if◌then◌else◌, arith}
use dnvme.Base.Dict.{lookup, insert, lookup-insert}
use dnvme.Device.{done, Sq, Device, write_db}
use dnvme.Queue.{PrepSq, alloc_sq}
use dnvme.Queue.Memory.{alloc_sq-inserts}
use dnvme.Queue.Prepare.{prepare_sq}
use dnvme.User.Create.{
  CsqWrapper, fill_prep_sq, fill_create_sq, CreateMem, Sent, sent, send_after, send_create_sq,
}
use dnvme.User.Create.Memory.{IsPrepared, prepare_sq-IsPrepared, alloc_sq-fields}
use dnvme.User.Create.Handler.{
  Tells, IsSendable, told_place, admin_after, prio_flags-bound, belled, sends, new-belled,
  admin-belled, others-belled, log-belled,
}

-- How the calls end, and what they leave: the queue, marked as created, and the admin queue with the command
-- in the slot at the old tail.
pub record IsSent (w : CsqWrapper) (dev : Device) (asq : Sq) (run : Sent) : Type 0 where
  pub after : Device
  pub queue : Sq
  pub returns : run ≡ sent done after
  pub kept : lookup w.sqid after.sqs ≡ some (record queue { created = true })
  pub tells : Tells (told_place w asq queue) queue
  pub size : queue.elements ≡ w.elements
  pub admin : lookup 0 after.sqs ≡ some (admin_after w asq queue)
  pub others : (id : ℕ) → id ≢ 0 → id ≢ w.sqid → lookup id after.sqs ≡ lookup id dev.sqs
  pub log : after.io ≡ write_db asq.db (admin_after w asq queue).tail_ptr ∷ dev.io

module _ (mem : CreateMem) (dev : Device) (w : CsqWrapper) (asq : Sq)
    (h : IsSendable mem dev w asq) where
  prep : PrepSq
  prep = fill_prep_sq w

  prep-fields :
      (prep.sq_id ≡ w.sqid)
      × (prep.cq_id ≡ w.cqid)
      × (prep.elements ≡ w.elements)
      × (prep.contig ≡ true)
  unfolding prep fill_prep_sq
  prep-fields = (refl, refl, refl, h.contig)

  told-Tells :
      (q : Sq)
      → 0 < w.elements
      → q.sq_id ≡ w.sqid
      → q.elements ≡ w.elements
      → q.cq_id ≡ w.cqid
      → Tells (told_place w asq q) q
  unfolding fill_create_sq
  told-Tells q entries id size cq =
      let i = h.id in
      let f = h.fits in
      let c = h.contig in
      let b = prio_flags-bound w.prio in
      record {
        id = omega (arith, i, id);
        size = omega (arith, i, f, size, entries);
        cq = ground (arith, b, c, cq);
        contig = ground (arith, b, c);
        place = refl;
      }

  IsPrepared-IsSent :
      (p : IsPrepared mem.queue dev prep)
      → (prepare_sq mem.queue dev prep ≡ (done, p.after))
      → IsSent w dev asq (send_create_sq mem dev w)
  unfolding prep send_create_sq
  IsPrepared-IsSent p prepares =
      let (sq_id, cq_id, elements, contig) = prep-fields in
      let (free, stored) = alloc_sq-inserts mem.queue dev prep 6 p.allocated in
      let (q_id, size, cq, q_contig, created, buf) =
        alloc_sq-fields mem.queue dev prep contig p.allocated in
      let q = p.queue in
      let tables : p.after.sqs ≡ insert w.sqid q dev.sqs =
        ap (λ d. d.sqs) stored ∙ ap (λ k. insert k q dev.sqs) (q_id ∙ sq_id) in
      let found : (id : ℕ)
          → lookup id p.after.sqs ≡ (if w.sqid == id then some q else lookup id dev.sqs) =
        λ id. ap (lookup id) tables ∙ lookup-insert w.sqid id q dev.sqs in
      let some_id = h.some_id in
      let admin : lookup 0 p.after.sqs ≡ some asq =
        let f = found 0 in let a = h.admin in ground (arith, f, a, some_id) in
      let new : lookup w.sqid p.after.sqs ≡ some q = let f = found w.sqid in ground (arith, f) in
      record {
        after = belled mem dev w asq q p.after h admin new q_contig created buf;
        queue = q;
        returns =
            ap (send_after mem w) prepares
            ∙ sends mem dev w asq q p.after h admin new q_contig created buf;
        kept = new-belled mem dev w asq q p.after h admin new q_contig created buf;
        tells = told-Tells q p.some_entry (q_id ∙ sq_id) (size ∙ elements) (cq ∙ cq_id);
        size = size ∙ elements;
        admin = admin-belled mem dev w asq q p.after h admin new q_contig created buf;
        others = λ id a b.
            let f = found id in
            others-belled mem dev w asq q p.after h admin new q_contig created buf id a b
            ∙ ground (arith, f, b);
        log =
            log-belled mem dev w asq q p.after h admin new q_contig created buf
            ∙ ap (λ d. write_db asq.db (admin_after w asq q).tail_ptr ∷ d.io) stored;
      }

  -- Let the kernel serve the calls, the driver be able to prepare the queue, which is contiguous, of a
  -- number from 1 to 65535, with at most 65536 entries and no buffer passed, and the contiguous admin
  -- queue have room. The calls by which the user library has a submission queue created then end well.
  -- The queue stands in the driver's table, marked as created; the admin queue holds, in the slot at
  -- the old tail, a create command that gives the controller the identifier, the number of entries,
  -- the completion queue and the address that the driver has noted for the queue; the doorbell is rung
  -- with the new tail, and no other queue is changed.
  pub send_create_sq-IsSent : IsSent w dev asq (send_create_sq mem dev w)
  unfolding prep
  send_create_sq-IsSent =
      let p =
        prepare_sq-IsPrepared mem.queue dev prep (alloc_sq mem.queue dev prep 6) refl h.prepared in
      IsPrepared-IsSent p p.prepares
