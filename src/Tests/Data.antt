-- ===== src/Tests/Data.antt =====
-- A device with one pair of I/O queues and one interrupt, and a command for it.
use dnvme.Base.{ℕ, Bool, true, false, none, some, [], ◌∷◌, inl, replicate}
use dnvme.Device.{enomem, Completion, Command, Prps, Cmd, Cq, Sq, Irq, IrqSet, msix, Device}
use dnvme.Queue.{PrepSq, PrepCq, QueueMem, blank_command}
use dnvme.Cmd.{UserCmd}
use dnvme.Cmd.Prepare.{PrepareMem}
use dnvme.Cmd.Submit.{SubmitMem}

-- The entry of the command with identifier `cid`, whose status field is `status`.
abbrev pub entry : ℕ → ℕ → Completion
entry cid status = record { result = 0; sq_head = 2; sq_id = 1; command_id = cid; status = status }

-- Four slots, the head at the last: new entries stand there and, a lap further, in slot 0.
abbrev pub four_entries : Cq
four_entries = record {
  q_id = 1;
  tail_ptr = 3;
  head_ptr = 3;
  elements = 4;
  irq_enabled = false;
  irq_no = 0;
  pbit_new_entry = true;
  cqes = 4;
  slots = entry 7 0 ∷ entry 4 1 ∷ entry 5 1 ∷ entry 6 1 ∷ [];
  buf = 4096;
  dma = 8192;
  size = 64;
  prps = none;
  db = 3;
  contig = true;
  created = true;
  use_cmb = false;
}

-- The data of a command that is in flight, one page.
abbrev pub one_mapped : Prps
one_mapped = record {
  prp_list = λ i j. 0;
  sgl_list = λ i j. record { addr = 0; length = 0; type = 0 };
  pg_addr = [];
  nr_pages = 0;
  nr_entry = 0;
  is_sgl = false;
  buf = 1;
  sg = [];
  num_map_pgs = 1;
  data_buf_size = 4096;
  data_buf_addr = 0;
}

abbrev pub in_flight : ℕ → Cmd
in_flight cid = record {
  cid = cid;
  sqid = 1;
  target_qid = 0;
  idx = 0;
  opcode = 2;
  prps = some one_mapped;
}

-- Four slots, two commands in flight.
abbrev pub two_commands : Sq
two_commands = record {
  sq_id = 1;
  cq_id = 1;
  tail_ptr = 0;
  tail_ptr_virt = 2;
  head_ptr = 0;
  elements = 4;
  sqes = 6;
  cmd_list = in_flight 6 ∷ in_flight 7 ∷ [];
  slots = replicate 4 blank_command;
  buf = 12288;
  dma = 16384;
  size = 256;
  prps = none;
  db = 2;
  next_cid = 8;
  contig = true;
  created = true;
  use_cmb = false;
}

abbrev pub irq_one : Irq
irq_one = record {
  icq_list = 1 ∷ [];
  irq_id = 1;
  int_vec = 41;
  isr_fired = false;
  isr_count = 4294967295;
}

abbrev pub irq_zero : Irq
irq_zero = record { icq_list = 0 ∷ []; irq_id = 0; int_vec = 40; isr_fired = false; isr_count = 0 }

abbrev pub two_irqs : IrqSet
two_irqs = record {
  irq_list = irq_zero ∷ irq_one ∷ [];
  work_list = record { irq_id = 0; int_vec = 40 } ∷ record { irq_id = 1; int_vec = 41 } ∷ [];
  irq_type = msix;
  nr_irq = 2;
  wq = true;
  queued = [];
}

abbrev pub device : Device
device = record {
  sqs = (1, two_commands) ∷ [];
  cqs = (1, four_entries) ∷ [];
  metas = [];
  irq_set = two_irqs;
  hmb = none;
  cmb = some (record {
    bar = 2;
    res_addr = 0;
    bus_addr = 0;
    size = 1048576;
    offset = 0;
    sqs = true;
    cqs = true;
    lists = true;
    rds = true;
    wds = true;
    cqmms = false;
    cqpds = false;
    cdpmls = false;
    cdpcils = false;
    cdmmms = false;
    cqda = false;
  });
  pmr = none;
  reg_cap = 1023;
  q_depth = 1024;
  db_stride = 1;
  io = [];
}

-- A flush of a namespace, which has no data.
abbrev pub flush : Command
flush = record {
  opcode = 0;
  flags = 0;
  command_id = 99;
  nsid = 1;
  metadata = 0;
  prp1 = 0;
  prp2 = 0;
  cdw10 = 0;
  cdw11 = 0;
  others = [];
}

abbrev pub flush_call : UserCmd
flush_call = record {
  sqid = 1;
  cmd_buf_ptr = 64;
  prp_mask = record { prp1_page = true; prp1_list = false; prp2_page = true; prp2_list = true };
  mptr = false;
  data_buf_ptr = 0;
  data_buf_size = 0;
  meta_id = 0;
  bit_bucket = [];
}

abbrev pub kernel_submit : SubmitMem
kernel_submit = record { copy_in = true; cmd_buf = true; copy_cmd = true; copy_out = true }

abbrev pub kernel_prepare : PrepareMem
kernel_prepare = record {
  node = true;
  prps = true;
  mapped = inl enomem;
  prp = record { arrays = true; pool = [] };
  sgl = record { bucket_mem = true; bucket_copy = true; list_mem = true; arrays = true; pool = [] };
  sort = λ bs. bs;
}

-- Allocators that have host memory and controller memory to give.
abbrev pub kernel_memory : QueueMem
kernel_memory = record {
  node = true;
  p2pmem = 20480;
  p2p_bus = 24576;
  coherent = 28672;
  coherent_dma = 32768;
  xa_ok = true;
  user_commands = [];
  user_entries = [];
}

abbrev pub second_sq : PrepSq
second_sq = record { elements = 16; sq_id = 2; cq_id = 1; contig = true; use_cmb = true }

abbrev pub second_cq : Bool → PrepCq
second_cq in_cmb = record {
  elements = 16;
  cq_id = 2;
  cq_irq_en = true;
  cq_irq_no = 9;
  contig = true;
  use_cmb = in_cmb;
}
