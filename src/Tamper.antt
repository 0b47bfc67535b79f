-- ===== src/Tamper.antt =====
-- modules/dnvme/cmd.c: `dnvme_tamper_cmd`, which shows a command in flight to the user and lets the user
-- change it, with the loops over the pages of its PRP list or SGL segments.
pub mod Pages
pub mod Change
pub mod Handler
pub mod Segments
pub mod Stamp
pub mod Show
use dnvme.Base.{
  ℕ, zero, suc, ◌+◌, ◌-◌, ◌*◌, ◌%◌, Bool, true, false, not, ◌&&◌, Option, none, some, List, [], ◌∷◌,
  ◌++◌, leb, ◌==◌, if◌then◌else◌, get_or, set, take,
}
use dnvme.Base.Dict.{lookup, update}
use dnvme.Device.{
  einval, efault, enomem, ebadslt, enoent, Status, done, fail, SglDesc, Prps, Command, Cmd, Sq,
  Device,
}
use dnvme.Prp.{PrpMem, write_prp}
use dnvme.Cmd.{find_cmd}

-- `option` of `struct nvme_cmd_tamper`.
pub data TamperOpt : Type 0 where
  inquiry fetch modify : TamperOpt

-- `struct nvme_cmd_tamper`; `none` is a number that no option has.
pub record Tamper : Type 0 where
  pub sqid : ℕ
  pub cid : ℕ
  pub option : Option TamperOpt
  pub inq_prp_list : Bool
  pub inq_prp_page : Bool
  pub inq_sgl_seg : Bool
  pub fet_prp_list : Bool
  pub fet_sgl_seg : Bool
  pub mdf_prp_list : Bool
  pub mdf_sgl_seg : Bool
  pub prp_list_size : ℕ
  pub prp_page_size : ℕ
  pub sgl_seg_size : ℕ
  pub cmd : Command

-- The sizes of a list in bytes, in 32 bits; 8 and 16 are the sizes of an entry and of a descriptor.
unfoldable pub get_prp_list_size : Cmd → ℕ
get_prp_list_size c = elim c.prps [
  | none ↦ 0
  | some p ↦ if p.is_sgl then 0 else 8 * p.nr_entry % 4294967296
]

unfoldable pub get_sgl_seg_size : Cmd → ℕ
get_sgl_seg_size c = elim c.prps [
  | none ↦ 0
  | some p ↦ if p.is_sgl then 16 * p.nr_entry % 4294967296 else 0
]

-- The inner loop over the `n` slots of a page that are left from slot `j` on: what it has read, the
-- count behind it, and whether the count has reached `nr_entry`.
unfoldable pub fetch_row {ℓ} : {A : Type ℓ} → ℕ → (ℕ → A) → ℕ → ℕ → ℕ → List A × ℕ × Bool
fetch_row zero ptr j cnt nr_entry = ([], cnt, false)
fetch_row (suc n) ptr j cnt nr_entry =
    let later = fetch_row n ptr (suc j) (suc cnt) nr_entry in
    if leb nr_entry (suc cnt)
    then (ptr j ∷ [], suc cnt, true)
    else (ptr j ∷ later.0, later.1, later.2)

-- The loop over `pages` pages of `width` slots from page `i` on.
unfoldable pub fetch_pages {ℓ} : {A : Type ℓ} → ℕ → ℕ → (ℕ → ℕ → A) → ℕ → ℕ → ℕ → List A
unfolding fetch_row
fetch_pages width zero mem i cnt nr_entry = []
fetch_pages width (suc pages) mem i cnt nr_entry =
    let row = fetch_row width (mem i) 0 cnt nr_entry in
    let later = fetch_pages width pages mem (suc i) row.1 nr_entry in
    if row.2 then row.0 else row.0 ++ later

unfoldable pub fetch_prp_list : Prps → List ℕ
unfolding fetch_pages
fetch_prp_list p = fetch_pages 512 p.nr_pages p.prp_list 0 0 p.nr_entry

unfoldable pub fetch_sgl_seg : Prps → List SglDesc
unfolding fetch_pages
fetch_sgl_seg p = fetch_pages 256 p.nr_pages p.sgl_list 0 0 p.nr_entry

-- The loops that write; `entry` is the list in the kernel's copy of the request.
unfoldable pub modify_row : ℕ → (ℕ → ℕ) → PrpMem → ℕ → ℕ → ℕ → ℕ → PrpMem × ℕ × Bool
unfolding write_prp
modify_row zero entry mem i j cnt nr_entry = (mem, cnt, false)
modify_row (suc n) entry mem i j cnt nr_entry =
    let mem' = write_prp mem i j (entry cnt) in
    let later = modify_row n entry mem' i (suc j) (suc cnt) nr_entry in
    if leb nr_entry (suc cnt) then (mem', suc cnt, true) else later

unfoldable pub modify_pages : ℕ → ℕ → (ℕ → ℕ) → PrpMem → ℕ → ℕ → ℕ → PrpMem
unfolding modify_row
modify_pages width zero entry mem i cnt nr_entry = mem
modify_pages width (suc pages) entry mem i cnt nr_entry =
    let row = modify_row width entry mem i 0 cnt nr_entry in
    let later = modify_pages width pages entry row.0 (suc i) row.1 nr_entry in
    if row.2 then row.0 else later

unfoldable pub modify_prp_list : (ℕ → ℕ) → Prps → Prps
unfolding modify_pages
modify_prp_list entry p = record p {
  prp_list = modify_pages 512 p.nr_pages entry p.prp_list 0 0 p.nr_entry;
}

unfoldable pub write_desc : (ℕ → ℕ → SglDesc) → ℕ → ℕ → SglDesc → ℕ → ℕ → SglDesc
write_desc mem j k v j' k' = if (j == j') && (k == k') then v else mem j' k'

-- The inner loop of `dnvme_tamper_cmd_modify_sgl_seg`, whose test is of `i`, the page, and so never fails
-- on the first page: `j` counts on until `nr_entry` is reached. `none` is a write behind the page.
unfoldable pub modify_seg : ℕ → (ℕ → SglDesc) → (ℕ → ℕ → SglDesc) → ℕ → ℕ → Option (ℕ → ℕ → SglDesc)
unfolding write_desc
modify_seg zero desc mem j nr_entry = some mem
modify_seg (suc fuel) desc mem j nr_entry =
    let mem' = write_desc mem 0 j (desc j) in
    let later = modify_seg fuel desc mem' (suc j) nr_entry in
    if leb 256 j then none else if leb nr_entry (suc j) then some mem' else later

unfoldable pub modify_sgl_seg : (ℕ → SglDesc) → Prps → Option Prps
unfolding modify_seg
modify_sgl_seg desc p =
    if p.nr_pages == 0
    then some p
    else elim (modify_seg (suc p.nr_entry) desc p.sgl_list 0 p.nr_entry) [
      | none ↦ none
      | some mem ↦ some (record p { sgl_list = mem })
    ]
