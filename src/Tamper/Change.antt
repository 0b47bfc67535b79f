-- ===== src/Tamper/Change.antt =====
-- What a change of the PRP list of a command in flight does, and what a fetch shows behind it.
use dnvme.Base.{
  ℕ, zero, suc, ◌+◌, ◌-◌, ◌*◌, ◌/◌, ◌%◌, ◌≤◌, ◌<◌, ◌≡◌, ◌≢◌, refl, ap, ap₂, ◌∙◌, true, false, some,
  List, [], ◌∷◌, arith,
}
use dnvme.Base.Dict.{lookup}
use dnvme.Device.{done, Prps, Cmd, Sq, Device}
use dnvme.Cmd.{find_cmd}
use dnvme.Tamper.{Tamper, get_prp_list_size, fetch_prp_list, modify_prp_list, modify}
use dnvme.Tamper.Pages.{slots_from, flat_from, fetch_pages-IsFlat}
use dnvme.Tamper.Stamp.{stamp, modify_pages-IsStamp}
use dnvme.Tamper.Handler.{
  TamperMem, ended, with_cmd, set_prps, modify_list, modify_segs, modify_cmd, write_back,
  tamper_modify,
}

-- A PRP list with entries in pages that have room for it.
pub record IsHeld (p : Prps) : Type 0 where
  pub some_entry : 0 < p.nr_entry
  pub room : p.nr_entry ≤ p.nr_pages * 512
  pub is_prp : p.is_sgl ≡ false

fetch_prp_list-IsFlat :
    (p : Prps) → IsHeld p → fetch_prp_list p ≡ flat_from 512 p.prp_list 0 p.nr_entry
unfolding fetch_prp_list
fetch_prp_list-IsFlat p h =
    let a = h.some_entry in
    let b = h.room in
    let all : p.nr_entry - 0 ≡ p.nr_entry = omega arith in
    fetch_pages-IsFlat 512 p.prp_list p.nr_pages 0 0 p.nr_entry a (omega arith)
    ∙ ap (flat_from 512 p.prp_list 0) all

modify_prp_list-IsStamp :
    (entry : ℕ → ℕ) (p : Prps) (i j : ℕ)
    → IsHeld p
    → (modify_prp_list entry p).prp_list i j ≡ stamp entry p.prp_list 0 p.nr_entry i j
unfolding modify_prp_list
modify_prp_list-IsStamp entry p i j h =
    let a = h.some_entry in
    let b = h.room in
    modify_pages-IsStamp entry p.nr_entry p.nr_pages 0 0 p.prp_list i j refl a (omega arith)

-- What is read in order is what was stamped.
flat_from-stamped :
    (mem old : ℕ → ℕ → ℕ) (entry : ℕ → ℕ) (n k nr : ℕ)
    → ((i j : ℕ) → mem i j ≡ stamp entry old 0 nr i j)
    → k + n ≤ nr
    → flat_from 512 mem k n ≡ slots_from entry k n
flat_from-stamped mem old entry zero k nr h le = refl
flat_from-stamped mem old entry (suc n) k nr h le =
    let at : k / 512 * 512 + k % 512 ≡ k = omega arith in
    let here : mem (k / 512) (k % 512) ≡ entry k =
      ground (arith, h (k / 512) (k % 512), ap entry at) in
    ap₂ ◌∷◌ here (flat_from-stamped mem old entry n (suc k) nr h (omega arith))

pub modify_prp_list-keeps :
    (entry : ℕ → ℕ) (p : Prps)
    → ((modify_prp_list entry p).nr_entry ≡ p.nr_entry)
      × ((modify_prp_list entry p).nr_pages ≡ p.nr_pages)
      × ((modify_prp_list entry p).is_sgl ≡ p.is_sgl)
unfolding modify_prp_list
modify_prp_list-keeps entry p = (refl, refl, refl)

pub modify_prp_list-IsHeld :
    (entry : ℕ → ℕ) (p : Prps) → IsHeld p → IsHeld (modify_prp_list entry p)
unfolding modify_prp_list
modify_prp_list-IsHeld entry p h = record {
  some_entry = h.some_entry;
  room = h.room;
  is_prp = h.is_prp;
}

-- The list that a fetch reads behind a change is the new one.
pub fetch_prp_list-modified :
    (entry : ℕ → ℕ) (p : Prps)
    → IsHeld p
    → fetch_prp_list (modify_prp_list entry p) ≡ slots_from entry 0 p.nr_entry
fetch_prp_list-modified entry p h =
    let q = modify_prp_list entry p in
    let (same, _, _) = modify_prp_list-keeps entry p in
    fetch_prp_list-IsFlat q (modify_prp_list-IsHeld entry p h)
    ∙ ap (flat_from 512 q.prp_list 0) same
    ∙ flat_from-stamped q.prp_list p.prp_list entry p.nr_entry 0 p.nr_entry
        (λ i j. modify_prp_list-IsStamp entry p i j h) (omega arith)

pub find_cmd-set_prps :
    (cid : ℕ) (p : Prps) (c : Cmd) (cs : List Cmd)
    → find_cmd cs cid ≡ some c
    → find_cmd (set_prps cid p cs) cid ≡ some (record c { prps = some p })
unfolding find_cmd set_prps
find_cmd-set_prps cid p c [] e = absurd (cc)
find_cmd-set_prps cid p c (k ∷ ks) e = ground (arith, find_cmd-set_prps cid p c ks)

pub find_cmd-set_prps_ne :
    (cid at : ℕ) (p : Prps) (cs : List Cmd)
    → at ≢ cid
    → find_cmd (set_prps cid p cs) at ≡ find_cmd cs at
unfolding find_cmd set_prps
find_cmd-set_prps_ne cid at p [] n = refl
find_cmd-set_prps_ne cid at p (k ∷ ks) n = ground (arith, find_cmd-set_prps_ne cid at p ks n)

pub get_prp_list_size-held :
    (c : Cmd) (p : Prps)
    → c.prps ≡ some p
    → p.is_sgl ≡ false
    → get_prp_list_size c ≡ 8 * p.nr_entry % 4294967296
unfolding get_prp_list_size
get_prp_list_size-held c p e s = ground (arith, e, s)

-- A request to change the PRP list of a command in flight that the kernel can serve.
pub record IsChange (mem : TamperMem) (dev : Device) (t : Tamper) (sq : Sq) (c : Cmd) (p : Prps)
    : Type 0 where
  pub copied : mem.copy_in ≡ true
  pub allocated : mem.alloc ≡ true
  pub copied_all : mem.copy_all ≡ true
  pub modifies : t.option ≡ some modify
  pub queue : lookup t.sqid dev.sqs ≡ some sq
  pub node : find_cmd sq.cmd_list t.cid ≡ some c
  pub list : c.prps ≡ some p
  pub held : IsHeld p
  pub fits : 8 * p.nr_entry < 4294967296
  pub asked : t.mdf_prp_list ≡ true
  pub size : t.prp_list_size ≡ 8 * p.nr_entry
  pub no_seg : t.mdf_sgl_seg ≡ false

module _ (mem : TamperMem) (dev : Device) (t : Tamper) (sq : Sq) (c : Cmd) (p : Prps)
    (r : IsChange mem dev t sq c p) where
  unfoldable pub changed : Device
  changed = modify_cmd dev t c (some (modify_prp_list mem.entry p))

  write_back-changed : write_back mem dev t c ≡ ended done changed
  unfolding write_back modify_list modify_segs changed
  write_back-changed =
      let e = r.list in
      let s = r.size in
      let a = r.asked in
      let n = r.no_seg in
      let o = r.held.some_entry in let b = r.held.is_prp in ground (arith, e, s, a, n, o, b)

  pub tamper_modify-changed : tamper_modify mem dev t ≡ ended done changed
  unfolding tamper_modify with_cmd
  tamper_modify-changed =
      let q = r.queue in
      let n = r.node in
      let a = r.allocated in
      let b = r.copied_all in
      let s = r.size in
      let f = r.fits in
      let same = get_prp_list_size-held c p r.list r.held.is_prp in
      ground (arith, q, n, a, b, s, f, same, write_back-changed)
