-- ===== src/Tests/Requests.antt =====
-- The theorems on rings, changed commands, waits, memory buffers and queue infos at concrete inputs.
use dnvme.Base.{
  ℕ, ◌+◌, refl, Bool, true, false, none, some, List, [], ◌∷◌, ◌==◌, leb, if◌then◌else◌, length,
  arith,
}
use dnvme.Base.Dict.{lookup}
use dnvme.Device.{done, SglDesc, Prps, Completion, Cmd, Sq, Device}
use dnvme.Cmd.{find_cmd}
use dnvme.Cmd.Submit.{put_command, sq_is_full}
use dnvme.Cmd.Fifo.{pending, IsQueue, SqReach, submit}
use dnvme.Cmd.Refine.{Refines, SqReach-Refines}
use dnvme.Tamper.{Tamper, TamperOpt, fetch, modify, modify_sgl_seg}
use dnvme.Tamper.Handler.{TamperMem}
use dnvme.Tamper.Change.{IsChange, changed}
use dnvme.Tamper.Show.{IsFetch, IsTampered, tamper_cmd-IsTampered}
use dnvme.Tamper.Segments.{Changes, modify_sgl_seg-Changes}
use dnvme.Netlink.{GnlReq, given}
use dnvme.Cmb.{CmbHw, map_cmb}
use dnvme.Cmb.Map.{Maps, map_cmb-Maps}
use dnvme.Pmr.{PmrHw, map_pmr}
use dnvme.Pmr.Map
use dnvme.Pmr.Map.{map_pmr-Maps}
use dnvme.User.{SqInfo, urgent, low, alloc_iosq_info, swap_iosq_info_random}
use dnvme.User.Alloc.{Notes, alloc_iosq_info-Notes}
use dnvme.User.Shuffle.{IsShuffled, swap_iosq_info_random-IsShuffled}
use dnvme.Tests.Data.{entry, in_flight, two_commands, device, flush}

-- The flush is put behind the two commands.
two_commands-IsQueue : IsQueue two_commands
two_commands-IsQueue = record {
  ring = record { head = omega arith; tail = omega arith; fits = omega arith };
  whole = refl;
}

flush-SqReach : SqReach two_commands (put_command flush two_commands)
unfolding sq_is_full
flush-SqReach = SqReach.more SqReach.at_start (submit flush refl refl)

SqReach-Refines_example : Refines 3 (pending two_commands) (put_command flush two_commands)
SqReach-Refines_example =
    SqReach-Refines two_commands (put_command flush two_commands) two_commands-IsQueue flush-SqReach

-- A command with a PRP list of three entries, and a request that doubles the numbers of its slots.
abbrev no_desc : ℕ → SglDesc
no_desc n = record { addr = n; length = 0; type = 0 }

abbrev three_prps : Prps
three_prps = record {
  prp_list = λ i j. 4096 + j;
  sgl_list = λ i j. no_desc 0;
  pg_addr = 65536 ∷ [];
  nr_pages = 1;
  nr_entry = 3;
  is_sgl = false;
  buf = 1;
  sg = [];
  num_map_pgs = 0;
  data_buf_size = 0;
  data_buf_addr = 0;
}

abbrev listed : Cmd
listed = record (in_flight 6) { prps = some three_prps }

abbrev listed_sq : Sq
listed_sq = record two_commands { cmd_list = listed ∷ in_flight 7 ∷ [] }

abbrev listed_device : Device
listed_device = record device { sqs = (1, listed_sq) ∷ [] }

abbrev tampering : TamperOpt → Bool → Bool → Tamper
tampering opt fetches modifies = record {
  sqid = 1;
  cid = 6;
  option = some opt;
  inq_prp_list = false;
  inq_prp_page = false;
  inq_sgl_seg = false;
  fet_prp_list = fetches;
  fet_sgl_seg = false;
  mdf_prp_list = modifies;
  mdf_sgl_seg = false;
  prp_list_size = 24;
  prp_page_size = 0;
  sgl_seg_size = 0;
  cmd = flush;
}

abbrev kernel_tamper : TamperMem
kernel_tamper = record {
  copy_in = true;
  alloc = true;
  copy_all = true;
  copy_out = true;
  entry = λ n. n + n;
  desc = no_desc;
}

abbrev change_list : Tamper
change_list = tampering modify true true

abbrev show_list : Tamper
show_list = tampering fetch true false

change_list-IsChange : IsChange kernel_tamper listed_device change_list listed_sq listed three_prps
unfolding lookup find_cmd
change_list-IsChange = record {
  copied = refl;
  allocated = refl;
  copied_all = refl;
  modifies = refl;
  queue = refl;
  node = refl;
  list = refl;
  held = record { some_entry = omega arith; room = omega arith; is_prp = refl };
  fits = omega arith;
  asked = refl;
  size = refl;
  no_seg = refl;
}

show_list-IsFetch : IsFetch kernel_tamper show_list
show_list-IsFetch = record {
  copied = refl;
  allocated = refl;
  copied_out = refl;
  fetches = refl;
  asked = refl;
  no_seg = refl;
}

tamper_cmd-IsTampered_example :
    IsTampered kernel_tamper kernel_tamper listed_device change_list show_list three_prps (
      changed kernel_tamper listed_device change_list listed_sq listed three_prps
        change_list-IsChange)
tamper_cmd-IsTampered_example =
    tamper_cmd-IsTampered kernel_tamper kernel_tamper listed_device change_list show_list listed_sq
      listed three_prps change_list-IsChange show_list-IsFetch refl refl refl (omega arith)

-- More descriptors than a page holds.
abbrev many_descs : Prps
many_descs = record three_prps { is_sgl = true; nr_pages = 2; nr_entry = 300 }

modify_sgl_seg-Changes_example : Changes no_desc many_descs (modify_sgl_seg no_desc many_descs)
modify_sgl_seg-Changes_example =
    modify_sgl_seg-Changes no_desc many_descs (omega arith) (omega arith)

-- Two entries are asked for; the second stands in the ring from the third round on.
abbrev memory_in : ℕ → List Completion
memory_in i =
    if leb 2 i
    then entry 8 0 ∷ entry 4 1 ∷ entry 5 1 ∷ entry 6 1 ∷ []
    else entry 8 1 ∷ entry 4 1 ∷ entry 5 1 ∷ entry 6 1 ∷ []

abbrev wait_for_two : GnlReq
wait_for_two = record {
  has_attrs = true;
  cqid = 1;
  expect = 2;
  buf = 4096;
  size = 32;
  timeout = given 5;
  lock = none;
  memory = memory_in;
  copies = λ n. true;
  msg = true;
  hdr = true;
}

-- A buffer of 16 units of 4 KiB at the fourth of them, in a BAR of 8.
abbrev small_bar : CmbHw
small_bar = record {
  cmbsz = 65563;
  cmbloc = 16386;
  res_start = λ b. 4026531840;
  bus_address = λ b. 4026531840;
  bar_len = λ b. 32768;
  add_resource = done;
  alloc = true;
}

abbrev no_cmb : Device
no_cmb = record device { cmb = none; reg_cap = 144115188075855872 }

map_cmb-Maps_example : Maps small_bar no_cmb (map_cmb small_bar no_cmb)
map_cmb-Maps_example = map_cmb-Maps small_bar no_cmb refl

-- A region in BAR 4 that is ready at the third read.
abbrev slow_region : PmrHw
slow_region = record {
  pmrcap = 16843136;
  pmrctl = 0;
  pmrmscl = 2;
  base_sts = 0;
  pmrsts = λ n. if leb 2 n then 0 else 256;
  late = λ n. leb 9 n;
  bar_mapped = λ b. b == 4;
  res_start = λ b. 68719476736;
  bus_address = λ b. 68719476736;
  bar_len = λ b. 1048576;
  alloc = true;
}

abbrev no_pmr : Device
no_pmr = record device { reg_cap = 72057594037927936 }

map_pmr-Maps_example : Map.Maps slow_region 9 no_pmr (map_pmr (9 + 1) slow_region no_pmr)
map_pmr-Maps_example = map_pmr-Maps slow_region no_pmr 9 refl refl

alloc_iosq_info-Notes_example : Notes 1024 8 true (alloc_iosq_info true (λ n. n + 1000) 1024 8)
alloc_iosq_info-Notes_example = alloc_iosq_info-Notes true (λ n. n + 1000) 1024 8 (omega arith)

abbrev three_infos : List SqInfo
three_infos =
    record { sqid = 1; cqid = 1; nr_entry = 256; prio = urgent; contig = true }
    ∷ record { sqid = 2; cqid = 2; nr_entry = 300; prio = low; contig = true }
    ∷ record { sqid = 3; cqid = 3; nr_entry = 1024; prio = low; contig = true }
    ∷ []

swap_iosq_info_random-IsShuffled_example :
    IsShuffled three_infos (swap_iosq_info_random (λ n. n + 5) (length three_infos) three_infos)
swap_iosq_info_random-IsShuffled_example = swap_iosq_info_random-IsShuffled (λ n. n + 5) three_infos
