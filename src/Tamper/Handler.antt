-- ===== src/Tamper/Handler.antt =====
-- modules/dnvme/cmd.c: the three options of `dnvme_tamper_cmd`.
use dnvme.Base.{
  ℕ, ◌-◌, ◌/◌, Bool, not, ◌&&◌, Option, none, some, List, [], ◌∷◌, ◌==◌, if◌then◌else◌, get_or, set,
  take,
}
use dnvme.Base.Dict.{lookup, update}
use dnvme.Device.{
  einval, efault, enomem, enoent, Status, done, fail, SglDesc, Prps, Cmd, Sq, Device, no_command,
}
use dnvme.Cmd.{find_cmd}
use dnvme.Tamper.{
  inquiry, fetch, modify, Tamper, get_prp_list_size, get_sgl_seg_size, fetch_prp_list,
  fetch_sgl_seg, modify_prp_list, modify_sgl_seg,
}

-- What the kernel answers, and what stands in its copy of the whole request behind the header of the
-- list; only what the copied size covers there is the user's.
pub record TamperMem : Type 0 where
  pub copy_in : Bool
  pub alloc : Bool
  pub copy_all : Bool
  pub copy_out : Bool
  pub entry : ℕ → ℕ
  pub desc : ℕ → SglDesc

-- What the user finds in the request: the whole entries and descriptors; `past` are the bytes that
-- were written behind the kernel's copy.
pub record View : Type 0 where
  pub tamper : Tamper
  pub prp_list : List ℕ
  pub sgl_seg : List SglDesc
  pub past : ℕ

-- `crash` is a read through a null pointer, `overrun` a write behind a page of segments,
-- and `mixed_pages` a write of entries to pages of descriptors or the other way round, which is not
-- followed further.
pub data TamperRun : Type 0 where
  crash : TamperRun
  overrun : TamperRun
  mixed_pages : TamperRun
  ended : Status → Device → TamperRun
  told : View → Device → TamperRun

unfoldable pub fetch_cmd : Sq → Cmd → Tamper → Tamper
fetch_cmd sq c t = record t { cmd = get_or sq.slots c.idx no_command }

-- The queue and the node; a queue that is not there is reported through the null `cmd`.
unfoldable pub with_cmd : Device → Tamper → (Sq → Cmd → TamperRun) → TamperRun
with_cmd dev t act = elim (lookup t.sqid dev.sqs) [
  | none ↦ crash
  | some sq ↦ elim (find_cmd sq.cmd_list t.cid) [
    | none ↦ ended (fail enoent) dev
    | some c ↦ act sq c
  ]
]

unfoldable pub inquired : Sq → Cmd → Tamper → Tamper
unfolding fetch_cmd get_prp_list_size get_sgl_seg_size
inquired sq c t = record (fetch_cmd sq c t) {
  prp_list_size = if t.inq_prp_list then get_prp_list_size c else t.prp_list_size;
  prp_page_size = if t.inq_prp_page then 0 else t.prp_page_size;
  sgl_seg_size = if t.inq_sgl_seg then get_sgl_seg_size c else t.sgl_seg_size;
}

-- `sizeof(tamper)` is the size of a pointer: the 8 bytes in front are the two identifiers, the option and
-- the flags.
unfoldable pub copy_front : Tamper → Tamper → Tamper
copy_front user kernel = record user {
  sqid = kernel.sqid;
  cid = kernel.cid;
  option = kernel.option;
  inq_prp_list = kernel.inq_prp_list;
  inq_prp_page = kernel.inq_prp_page;
  inq_sgl_seg = kernel.inq_sgl_seg;
  fet_prp_list = kernel.fet_prp_list;
  fet_sgl_seg = kernel.fet_sgl_seg;
  mdf_prp_list = kernel.mdf_prp_list;
  mdf_sgl_seg = kernel.mdf_sgl_seg;
}

unfoldable pub tamper_inquiry : TamperMem → Device → Tamper → TamperRun
unfolding with_cmd inquired copy_front
tamper_inquiry mem dev t = with_cmd dev t λ sq c.
    if mem.copy_out
    then told
        (record { tamper = copy_front t (inquired sq c t); prp_list = []; sgl_seg = []; past = 0 })
        dev
    else ended (fail efault) dev

-- The lists that are fetched. The buffer has no room for the 8 bytes of their header, so that the last
-- entry, or the end of the last descriptor, is written behind it and not copied.
unfoldable pub fetched_list : Tamper → Cmd → List ℕ
unfolding fetch_prp_list
fetched_list t c =
    if t.fet_prp_list && not (t.prp_list_size == 0)
    then elim c.prps [ none ↦ [] | some p ↦ take (t.prp_list_size / 8 - 1) (fetch_prp_list p) ]
    else []

unfoldable pub fetched_seg : Tamper → Cmd → List SglDesc
unfolding fetch_sgl_seg
fetched_seg t c =
    if t.fet_sgl_seg && not (t.sgl_seg_size == 0)
    then elim c.prps [ none ↦ [] | some p ↦ take (t.sgl_seg_size / 16 - 1) (fetch_sgl_seg p) ]
    else []

unfoldable pub written_past : Tamper → ℕ
written_past t =
    if t.fet_prp_list && not (t.prp_list_size == 0)
    then 8
    else if t.fet_sgl_seg && not (t.sgl_seg_size == 0)
    then 8
    else 0

-- The checks of the sizes that the user passes.
unfoldable pub check_fetch : Tamper → Cmd → Status
unfolding get_prp_list_size get_sgl_seg_size
check_fetch t c =
    if t.fet_prp_list && t.fet_sgl_seg
    then fail einval
    else if t.fet_prp_list && not (t.prp_list_size == get_prp_list_size c)
    then fail einval
    else if t.fet_sgl_seg && not (t.sgl_seg_size == get_sgl_seg_size c)
    then fail einval
    else done

unfoldable pub tamper_fetch : TamperMem → Device → Tamper → TamperRun
unfolding with_cmd check_fetch fetch_cmd fetched_list fetched_seg written_past
tamper_fetch mem dev t = with_cmd dev t λ sq c. elim (check_fetch t c) [
  | fail e ↦ ended (fail e) dev
  | done ↦
      if not mem.alloc
      then ended (fail enomem) dev
      else if mem.copy_out
      then told
          (record {
            tamper = fetch_cmd sq c t;
            prp_list = fetched_list t c;
            sgl_seg = fetched_seg t c;
            past = written_past t;
          })
          dev
      else ended (fail efault) dev
]

-- A change of the node that a command has, in the list of its queue.
unfoldable pub set_prps : ℕ → Prps → List Cmd → List Cmd
set_prps cid p [] = []
set_prps cid p (c ∷ cs) =
    let later = set_prps cid p cs in
    if cid == c.cid then record c { prps = some p } ∷ cs else c ∷ later

-- How a step that writes to the lists ends.
pub data Wrote : Type 0 where
  wrote : Option Prps → Wrote
  null_prps : Wrote
  behind : Wrote
  mixed : Wrote

unfoldable pub modify_list : (ℕ → ℕ) → Tamper → Option Prps → Wrote
unfolding modify_prp_list
modify_list entry t prps =
    if t.mdf_prp_list && not (t.prp_list_size == 0)
    then elim prps [
      | none ↦ null_prps
      | some p ↦ if p.is_sgl then mixed else wrote (some (modify_prp_list entry p))
    ]
    else wrote prps

unfoldable pub modify_segs : (ℕ → SglDesc) → Tamper → Option Prps → Wrote
unfolding modify_sgl_seg
modify_segs desc t prps =
    if t.mdf_sgl_seg && not (t.sgl_seg_size == 0)
    then elim prps [
      | none ↦ null_prps
      | some p ↦
          if not p.is_sgl
          then mixed
          else elim (modify_sgl_seg desc p) [ none ↦ behind | some q ↦ wrote (some q) ]
    ]
    else wrote prps

abbrev pub put_prps : ℕ → Option Prps → List Cmd → List Cmd
put_prps cid none cs = cs
put_prps cid (some p) cs = set_prps cid p cs

-- The command goes back to its slot.
unfoldable pub modify_cmd : Device → Tamper → Cmd → Option Prps → Device
unfolding set_prps
modify_cmd dev t c prps = record dev {
  sqs =
      update t.sqid
        (λ q. record q {
          slots = set q.slots c.idx t.cmd;
          cmd_list = put_prps t.cid prps q.cmd_list;
        })
        dev.sqs;
}

unfoldable pub write_back : TamperMem → Device → Tamper → Cmd → TamperRun
unfolding modify_list modify_segs modify_cmd
write_back mem dev t c = elim (modify_list mem.entry t c.prps) [
  | null_prps ↦ crash
  | behind ↦ overrun
  | mixed ↦ mixed_pages
  | wrote prps ↦ elim (modify_segs mem.desc t prps) [
    | null_prps ↦ crash
    | behind ↦ overrun
    | mixed ↦ mixed_pages
    | wrote prps' ↦ ended done (modify_cmd dev t c prps')
  ]
]

-- The size is checked where `fet_prp_list` is set, and only there.
unfoldable pub tamper_modify : TamperMem → Device → Tamper → TamperRun
unfolding with_cmd get_prp_list_size write_back
tamper_modify mem dev t = with_cmd dev t λ sq c.
    if t.fet_prp_list && not (t.prp_list_size == get_prp_list_size c)
    then ended (fail einval) dev
    else if not mem.alloc
    then ended (fail enomem) dev
    else if not mem.copy_all
    then ended (fail efault) dev
    else write_back mem dev t c

unfoldable pub tamper_cmd : TamperMem → Device → Tamper → TamperRun
unfolding tamper_inquiry tamper_fetch tamper_modify
tamper_cmd mem dev t = if not mem.copy_in then ended (fail efault) dev else elim t.option [
  | none ↦ ended (fail einval) dev
  | some inquiry ↦ tamper_inquiry mem dev t
  | some fetch ↦ tamper_fetch mem dev t
  | some modify ↦ tamper_modify mem dev t
]
