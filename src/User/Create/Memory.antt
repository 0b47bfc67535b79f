-- ===== src/User/Create/Memory.antt =====
-- modules/dnvme/ioctl.c: the node of a submission queue that was prepared.
use dnvme.Base.{◌≡◌, ◌≢◌, ◌<◌, true, false, Option, none, some, arith}
use dnvme.Device.{done, Sq, Device}
use dnvme.Queue.{PrepSq, QueueMem, alloc_sq, alloc_buffer, new_sq}
use dnvme.Queue.Admin.{check_qid_unique}
use dnvme.Queue.Prepare.{prepared_sq, prepare_sq}

-- What `dnvme_prepare_sq` has done where it succeeds.
module _ (mem : QueueMem) (dev : Device) (prep : PrepSq) where
  pub record IsPrepared : Type 0 where
    pub some_entry : 0 < prep.elements
    pub queue : Sq
    pub after : Device
    pub prepares : prepare_sq mem dev prep ≡ (done, after)
    pub allocated : alloc_sq mem dev prep 6 ≡ (some queue, after)

  pub prepare_sq-IsPrepared :
      (r : Option Sq × Device)
      → alloc_sq mem dev prep 6 ≡ r
      → (prepare_sq mem dev prep).0 ≡ done
      → IsPrepared
  unfolding prepare_sq check_qid_unique prepared_sq
  prepare_sq-IsPrepared (none, dev') e ok = absurd (ground arith)
  prepare_sq-IsPrepared (some sq, dev') e ok = record {
    some_entry = ground arith;
    queue = sq;
    after = dev';
    prepares = ground arith;
    allocated = e;
  }

  pub alloc_sq-fields :
      {sq : Sq} {dev' : Device}
      → prep.contig ≡ true
      → alloc_sq mem dev prep 6 ≡ (some sq, dev')
      → (sq.sq_id ≡ prep.sq_id)
        × (sq.elements ≡ prep.elements)
        × (sq.cq_id ≡ prep.cq_id)
        × (sq.contig ≡ true)
        × (sq.created ≡ false)
        × (sq.buf ≢ 0)
  unfolding alloc_sq alloc_buffer new_sq
  alloc_sq-fields contig e = ground arith
