-- ===== src/Lib.antt =====
-- The dnvme kernel driver (modules/dnvme) drives an NVMe controller for a test program: the program
-- prepares queues, submits commands, and reaps completion entries by ioctl.
--
-- How the parts interact. `dnvme_prepare_sq` and `dnvme_prepare_cq` (ioctl.c) allocate the memory of
-- a queue and store its node in the table of the device; `dnvme_submit_64b_cmd` (cmd.c) gives a
-- command its identifier, makes its data pointer (PRP list or SGL segments), links a node to the list
-- of its queue, and copies the command to the slot at the tail; the doorbell tells the controller. An
-- interrupt (irq.c) masks its vector and queues a work item, which counts it at the node. Reaping
-- (queue.c) walks the completion queue from its head by the phase bit, settles the command that each
-- entry names, copies the entries to the user, and advances the head; a create or delete queue
-- command that is settled keeps or deletes its queue.
--
-- Which file models what:
--   Device: the structures of modules/dnvme/core.h and include/uapi. The device is a record that is
--     passed and returned; `io` logs register and doorbell writes and the release of memory.
--   Base: lists, tests and the `struct xarray` of the device as a finite map (Base/Dict).
--   Phase: `dnvme_get_cqe_remain` of modules/dnvme/queue.c.
--   Queue: allocation and release of queues; Queue/Admin: admin queues, doorbell and teardown, all of
--     modules/dnvme/queue.c; Queue/Prepare: the two prepare ioctls of modules/dnvme/ioctl.c.
--   Prp, Sgl: `dnvme_setup_prps` and `dnvme_cmd_setup_sgl` of modules/dnvme/cmd.c.
--   Cmd: the nodes of commands in flight; Cmd/Prepare: `dnvme_prepare_64b_cmd`; Cmd/Submit:
--     `dnvme_submit_64b_cmd`; Cmd/Complete: `handle_cmd_completion`, `copy_cq_data`,
--     `update_cq_head`; Cmd/Reap: `dnvme_reap_cqe_legacy`, `dnvme_inquiry_cqe` and
--     `dnvme_reset_isr_flag`; Cmd/Direct: `dnvme_reap_cqe`.
--   Irq: the lists of `struct nvme_irq_set`; Irq/Handler: masks, `dnvme_interrupt` and its work item;
--     Irq/Setup: `set_int_msix`; Irq/Check: `check_interrupt`; Irq/Scheme: the other schemes,
--     `dnvme_clean_interrupt` and `dnvme_set_interrupt`; Irq/Reach: the calls that write the set, as
--     a step relation.
--   Meta: modules/dnvme/meta.c. Hmb: the host memory buffer of modules/dnvme/ioctl.c.
--   Ctrl: `dnvme_set_device_state` of modules/dnvme/ioctl.c with the wait for CSTS.RDY, and
--     `dnvme_cleanup_device` of modules/dnvme/core.c, which calls into Irq, Queue, Meta and Hmb.
--   Mmap: `mmap_parse_vmpgoff` and `dnvme_mmap` of modules/dnvme/core.c.
--   Access: `dnvme_generic_read` of modules/dnvme/ioctl.c with the loops of modules/dnvme/io.c;
--     Access/Write: `dnvme_generic_write` likewise.
--   Cmd/Fifo, Cmd/Refine: a submission queue against a first-in first-out queue of commands.
--   Tamper: `dnvme_tamper_cmd` of modules/dnvme/cmd.c; its options are in Tamper/Handler.
--   Netlink: the reaping request of modules/dnvme/netlink.c, which calls into Phase and Cmd/Direct.
--   Cmb, Pmr: modules/dnvme/cmb.c and modules/dnvme/pmr.c.
--   User: the infos of I/O queues and the checks of completion entries of lib/nvme/queue.c;
--     User/Create: the creation of a submission queue by lib/nvme, with the driver's part of it.
--   Crc: the table-driven checks of lib/crc/crc.c, and the bit reversals of lib/base and
--     lib/include/libbase.h; Crc/Serial: the division bit for bit that they are compared with.
--   The other modules below these hold theorems, named for what they show; Tests holds the concrete
--   inputs.
--
-- Operations of the model have the source's names without the prefix `dnvme_`. What the kernel
-- answers (allocators, copies from and to the user, the mapping of user pages, `sort`) is an
-- argument, a number 0 being the null pointer. A call that would dereference a null pointer or hit a
-- BUG_ON ends in a constructor of its own (`bug`, `crash`, `null_prps`); where it happens inside calls
-- that return nothing, it is an entry of the log: `null_access` for dnvme_free_prp_list of a command
-- or queue without PRPs and for the tables of MSI-X that init_msix_ptr has not set, `wild_free` for
-- the kfree of a local that dnvme_release_hmb has not set. Behind such an entry the model goes on with
-- the lines that follow, which the code may not reach: a theorem about a call that may log one has
-- `is_sound` of the log among its hypotheses or its cases, or asks that the pointer is there. Of the
-- theorems on tables and lists that are used by others, some hold whatever the log says. Shared memory
-- is the list of a queue's slots as it stands when the call runs.
--
-- Fuel. The walk over a completion queue runs on fuel `elements + 1`, which is enough below 65536
-- elements; the loop of a PRP list on twice its pages and one more, since each page of data takes
-- one round and at most one link; the loops of SGL descriptors likewise. The wait for CSTS.RDY runs
-- on one more than the number of the read by which the time is up, and that for PMRSTS likewise; the
-- wait of a netlink request on one more than its milliseconds; a read or write of a region on the
-- number of its bytes. Widths that matter are written out: 16-bit tails, heads and identifiers, 32-bit
-- sizes, sums of lengths and counters.
--
-- Not modelled: the queries of queues and capabilities, probe and remove, the walks of PCI
-- capabilities, the registration of the netlink family, text output and tracing, locks, the contents
-- of meta buffers, and the pinning of user pages, which is the kernel's. Of the user library the
-- creation of a submission queue is modelled up to the doorbell, and the other wrappers that fill a
-- command and call ioctl are left; lib/json is another project's. The tests,
-- samples and scripts are outside of the driver.
pub mod Base
pub mod Device
pub mod Phase
pub mod Irq
pub mod Queue
pub mod Prp
pub mod Sgl
pub mod Cmd
pub mod Meta
pub mod Hmb
pub mod Ctrl
pub mod Mmap
pub mod Access
pub mod Crc
pub mod Tamper
pub mod Cmb
pub mod User
pub mod Pmr
pub mod Netlink
pub mod Tests
