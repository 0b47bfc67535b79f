-- ===== src/Tamper/Show.antt =====
-- What a fetch of the PRP list of a command in flight shows, and what it shows behind a change.
use dnvme.Base.{
  ℕ, ◌-◌, ◌*◌, ◌/◌, ◌<◌, ◌≡◌, ◌≢◌, refl, ap, ap₂, ◌∙◌, true, false, some, [], get_or,
  get_or-set_self, set, take, length, arith,
}
use dnvme.Base.Dict.{lookup, lookup-update_here, lookup-update_there}
use dnvme.Device.{done, Prps, Cmd, Sq, Device, no_command}
use dnvme.Cmd.{find_cmd}
use dnvme.Tamper.{Tamper, fetch_prp_list, modify_prp_list, fetch}
use dnvme.Tamper.Pages.{slots_from}
use dnvme.Tamper.Change.{
  IsHeld, IsChange, changed, tamper_modify-changed, fetch_prp_list-modified, modify_prp_list-IsHeld,
  get_prp_list_size-held, modify_prp_list-keeps, find_cmd-set_prps,
}
use dnvme.Tamper.Handler.{
  TamperMem, View, ended, told, with_cmd, fetch_cmd, set_prps, modify_cmd, tamper_fetch, tamper_cmd,
  check_fetch, fetched_list, fetched_seg, written_past,
}

-- A request to show the PRP list of a command in flight that the kernel can serve.
pub record IsFetch (mem : TamperMem) (t : Tamper) : Type 0 where
  pub copied : mem.copy_in ≡ true
  pub allocated : mem.alloc ≡ true
  pub copied_out : mem.copy_out ≡ true
  pub fetches : t.option ≡ some fetch
  pub asked : t.fet_prp_list ≡ true
  pub no_seg : t.fet_sgl_seg ≡ false

-- What the user finds.
abbrev pub shown : Tamper → Sq → Cmd → Prps → View
shown t sq c p = record {
  tamper = record t { cmd = get_or sq.slots c.idx no_command };
  prp_list = take (p.nr_entry - 1) (fetch_prp_list p);
  sgl_seg = [];
  past = 8;
}

module _ (mem : TamperMem) (dev : Device) (t : Tamper) (sq : Sq) (c : Cmd) (p : Prps)
    (r : IsFetch mem t) (list : c.prps ≡ some p) (held : IsHeld p)
    (fits : 8 * p.nr_entry < 4294967296) (size : t.prp_list_size ≡ 8 * p.nr_entry) where
  check_fetch-passes : check_fetch t c ≡ done
  unfolding check_fetch
  check_fetch-passes =
      let a = r.asked in
      let n = r.no_seg in
      let same = get_prp_list_size-held c p list held.is_prp in ground (arith, a, n, same)

  fetched_list-shown : fetched_list t c ≡ take (p.nr_entry - 1) (fetch_prp_list p)
  unfolding fetched_list
  fetched_list-shown =
      let a = r.asked in
      let o = held.some_entry in
      let entries : t.prp_list_size / 8 - 1 ≡ p.nr_entry - 1 = omega arith in
      let cut = ap (λ n. take n (fetch_prp_list p)) entries in ground (arith, a, o, cut)

  written_past-shown : written_past t ≡ 8
  unfolding written_past
  written_past-shown = let a = r.asked in let o = held.some_entry in ground (arith, a, o)

  fetched_seg-shown : fetched_seg t c ≡ []
  unfolding fetched_seg
  fetched_seg-shown = let n = r.no_seg in ground (arith, n)

  tamper_fetch-shows :
      lookup t.sqid dev.sqs ≡ some sq
      → find_cmd sq.cmd_list t.cid ≡ some c
      → tamper_fetch mem dev t ≡ told (shown t sq c p) dev
  unfolding tamper_fetch with_cmd fetch_cmd
  tamper_fetch-shows q n =
      let a = r.allocated in
      let o = r.copied_out in
      ground
        (arith, a, o, check_fetch-passes, fetched_list-shown, written_past-shown, fetched_seg-shown)

  tamper_cmd-shows :
      lookup t.sqid dev.sqs ≡ some sq
      → find_cmd sq.cmd_list t.cid ≡ some c
      → tamper_cmd mem dev t ≡ told (shown t sq c p) dev
  unfolding tamper_cmd
  tamper_cmd-shows q n =
      let a = r.copied in let f = r.fetches in ground (arith, a, f, tamper_fetch-shows q n)

-- What a change leaves.
pub record IsTampered (mem mem' : TamperMem) (dev : Device) (t t' : Tamper) (p : Prps)
    (dev' : Device) : Type 0 where
  pub modified : tamper_cmd mem dev t ≡ ended done dev'
  pub fetched :
      tamper_cmd mem' dev' t'
      ≡ told
          (record {
            tamper = record t' { cmd = t.cmd };
            prp_list = take (p.nr_entry - 1) (slots_from mem.entry 0 p.nr_entry);
            sgl_seg = [];
            past = 8;
          })
          dev'
  pub queues : (at : ℕ) → at ≢ t.sqid → lookup at dev'.sqs ≡ lookup at dev.sqs

module _ (mem mem' : TamperMem) (dev : Device) (t t' : Tamper) (sq : Sq) (c : Cmd) (p : Prps)
    (r : IsChange mem dev t sq c p) (f : IsFetch mem' t') (same_sq : t'.sqid ≡ t.sqid)
    (same_cid : t'.cid ≡ t.cid) (same_size : t'.prp_list_size ≡ t.prp_list_size)
    (slot : c.idx < length sq.slots) where
  sq' : Sq
  sq' = record sq {
    slots = set sq.slots c.idx t.cmd;
    cmd_list = set_prps t.cid (modify_prp_list mem.entry p) sq.cmd_list;
  }

  changed-queue : lookup t'.sqid (changed mem dev t sq c p r).sqs ≡ some sq'
  unfolding changed modify_cmd sq'
  changed-queue =
      ap (λ at. lookup at (changed mem dev t sq c p r).sqs) same_sq
      ∙ lookup-update_here t.sqid
          (λ q. record q {
            slots = set q.slots c.idx t.cmd;
            cmd_list = set_prps t.cid (modify_prp_list mem.entry p) q.cmd_list;
          })
          sq dev.sqs r.queue

  changed-node :
      find_cmd sq'.cmd_list t'.cid ≡ some (record c { prps = some (modify_prp_list mem.entry p) })
  unfolding sq'
  changed-node =
      ap (find_cmd (set_prps t.cid (modify_prp_list mem.entry p) sq.cmd_list)) same_cid
      ∙ find_cmd-set_prps t.cid (modify_prp_list mem.entry p) c sq.cmd_list r.node

  -- What a user shows who has changed.
  shown-changed :
      shown t' sq'
        (record c { prps = some (modify_prp_list mem.entry p) })
        (modify_prp_list mem.entry p)
      ≡ record {
        tamper = record t' { cmd = t.cmd };
        prp_list = take (p.nr_entry - 1) (slots_from mem.entry 0 p.nr_entry);
        sgl_seg = [];
        past = 8;
      }
  unfolding sq'
  shown-changed =
      let (same, _, _) = modify_prp_list-keeps mem.entry p in
      let cut = ap₂ (λ n l. take (n - 1) l) same (fetch_prp_list-modified mem.entry p r.held) in
      let stored = get_or-set_self sq.slots c.idx t.cmd no_command slot in
      λ i. record {
        tamper = record t' { cmd = stored i };
        prp_list = cut i;
        sgl_seg = [];
        past = 8;
      }

  changed-shows :
      tamper_cmd mem' (changed mem dev t sq c p r) t'
      ≡ told
          (record {
            tamper = record t' { cmd = t.cmd };
            prp_list = take (p.nr_entry - 1) (slots_from mem.entry 0 p.nr_entry);
            sgl_seg = [];
            past = 8;
          })
          (changed mem dev t sq c p r)
  changed-shows =
      let p' = modify_prp_list mem.entry p in
      let (same, _, _) = modify_prp_list-keeps mem.entry p in
      let fits : 8 * p'.nr_entry < 4294967296 = omega (arith, same, r.fits) in
      let size : t'.prp_list_size ≡ 8 * p'.nr_entry = omega (arith, same, same_size, r.size) in
      tamper_cmd-shows mem' (changed mem dev t sq c p r) t' sq' (record c { prps = some p' }) p' f
        refl (modify_prp_list-IsHeld mem.entry p r.held) fits size changed-queue changed-node
      ∙ ap (λ v. told v (changed mem dev t sq c p r)) shown-changed

  tamper_cmd-changed : tamper_cmd mem dev t ≡ ended done (changed mem dev t sq c p r)
  unfolding tamper_cmd
  tamper_cmd-changed =
      let a = r.copied in
      let m = r.modifies in ground (arith, a, m, tamper_modify-changed mem dev t sq c p r)

  changed-queues :
      (at : ℕ) → at ≢ t.sqid → lookup at (changed mem dev t sq c p r).sqs ≡ lookup at dev.sqs
  unfolding changed modify_cmd
  changed-queues at n = lookup-update_there t.sqid at _ dev.sqs n

  -- Let a change of the PRP list of a command in flight be one that the kernel can serve: the queue and
  -- the node are there, the list has entries and pages that hold them, its size in bytes fits 32 bits
  -- and is the one passed, and no change of segments is asked for. Let a fetch of the list of the same
  -- command with the same size be served behind it, and the slot of the command lie in the queue. Then
  -- the change succeeds, the fetch shows the command that was written and the entries that were
  -- written, in order, all but the last, and writes 8 bytes behind its buffer; the other queues are
  -- as before.
  pub tamper_cmd-IsTampered : IsTampered mem mem' dev t t' p (changed mem dev t sq c p r)
  tamper_cmd-IsTampered = record {
    modified = tamper_cmd-changed;
    fetched = changed-shows;
    queues = changed-queues;
  }
