-- ===== src/Mmap.antt =====
-- modules/dnvme/core.c: `mmap_parse_vmpgoff` and `dnvme_mmap`, which map a contiguous queue or meta
-- buffer for the user. The physical address of a buffer and `remap_pfn_range` are arguments.
use dnvme.Base.{
  ℕ, ◌*◌, ◌/◌, ◌%◌, ◌<◌, ◌≡◌, refl, ◌⊎◌, inl, inr, true, Option, none, some, ◌==◌, ltb,
  if◌then◌else◌, if-elim, arith,
}
use mathlib.Core.Path.{subst}
use dnvme.Base.Dict.{lookup}
use dnvme.Device.{
  Errno, einval, efault, ebadslt, eopnotsupp, Status, done, fail, Sq, Cq, Meta, Device,
}
use dnvme.Prp.{page_size, div_round_up}

-- NVME_VMPGOFF_TO_TYPE and NVME_VMPGOFF_ID
unfoldable pub vmpgoff_to_type : ℕ → ℕ
vmpgoff_to_type pgoff = pgoff / 65536 % 4294967296

unfoldable pub vmpgoff_id : ℕ → ℕ
vmpgoff_id pgoff = pgoff % 65536

-- The address and the size of a buffer that may be mapped.
abbrev pub Area : Type 0
Area = ℕ × ℕ

unfoldable pub cq_area : Option Cq → Errno ⊎ Area
cq_area none = inl ebadslt
cq_area (some cq) = if cq.contig then inr (cq.buf, cq.size) else inl eopnotsupp

unfoldable pub sq_area : Option Sq → Errno ⊎ Area
sq_area none = inl ebadslt
sq_area (some sq) = if sq.contig then inr (sq.buf, sq.size) else inl eopnotsupp

unfoldable pub meta_area : Option Meta → Errno ⊎ Area
meta_area none = inl ebadslt
meta_area (some m) = if m.contig then inr (m.buf, m.size) else inl eopnotsupp

unfoldable pub mmap_parse_vmpgoff : Device → ℕ → Errno ⊎ Area
unfolding vmpgoff_to_type vmpgoff_id cq_area sq_area meta_area
mmap_parse_vmpgoff dev pgoff =
    let type = vmpgoff_to_type pgoff in
    let id = vmpgoff_id pgoff in
    if type == 0
    then cq_area (lookup id dev.cqs)
    else if type == 1
    then sq_area (lookup id dev.sqs)
    else if type == 2
    then meta_area (lookup id dev.metas)
    else inl einval

-- What the kernel answers: `virt_to_phys`, and `remap_pfn_range`.
pub record MmapMem : Type 0 where
  pub virt_to_phys : ℕ → ℕ
  pub remap : Status

-- The first page frame and the length that were mapped.
pub data Mapping : Type 0 where
  mapped : ℕ → ℕ → Mapping
  unmapped : Errno → Mapping

unfoldable pub remapped : Status → ℕ → ℕ → Mapping
remapped done pfn len = mapped pfn len
remapped (fail e) pfn len = unmapped e

-- `len` is `vma->vm_end - vma->vm_start`.
unfoldable pub map_area : MmapMem → ℕ → Errno ⊎ Area → Mapping
unfolding remapped
map_area mem len (inl e) = unmapped e
map_area mem len (inr (kva, size)) =
    let pfn = mem.virt_to_phys kva / page_size in
    if ltb (div_round_up size page_size * page_size) len
    then unmapped einval
    else if pfn == 0
    then unmapped efault
    else remapped mem.remap pfn len

unfoldable pub mmap : MmapMem → Device → ℕ → ℕ → Mapping
unfolding mmap_parse_vmpgoff map_area
mmap mem dev pgoff len = map_area mem len (mmap_parse_vmpgoff dev pgoff)

-- The offset names a contiguous queue or meta buffer at that address, of that size.
abbrev pub Names : Device → ℕ → Area → Type 0
Names dev pgoff (kva, size) =
    ((cq : Cq) × (pgoff / 65536 % 4294967296 ≡ 0)
      × (lookup (pgoff % 65536) dev.cqs ≡ some cq)
      × (cq.contig ≡ true)
      × (cq.buf ≡ kva)
      × (cq.size ≡ size))
    ⊎ ((sq : Sq) × (pgoff / 65536 % 4294967296 ≡ 1)
        × (lookup (pgoff % 65536) dev.sqs ≡ some sq)
        × (sq.contig ≡ true)
        × (sq.buf ≡ kva)
        × (sq.size ≡ size))
    ⊎ ((m : Meta) × (pgoff / 65536 % 4294967296 ≡ 2)
        × (lookup (pgoff % 65536) dev.metas ≡ some m)
        × (m.contig ≡ true)
        × (m.buf ≡ kva)
        × (m.size ≡ size))

abbrev NamesIt : Device → ℕ → Errno ⊎ Area → Type 0
NamesIt dev pgoff (inl e) = Unit
NamesIt dev pgoff (inr area) = Names dev pgoff area

module _ (dev : Device) (pgoff : ℕ) where
  cq_area-NamesIt :
      (o : Option Cq)
      → pgoff / 65536 % 4294967296 ≡ 0
      → lookup (pgoff % 65536) dev.cqs ≡ o
      → NamesIt dev pgoff (cq_area o)
  unfolding cq_area
  cq_area-NamesIt none t e = tt
  cq_area-NamesIt (some cq) t e =
      if-elim (NamesIt dev pgoff) cq.contig (λ c. inl (cq, t, e, c, refl, refl)) (λ _. tt)

  sq_area-NamesIt :
      (o : Option Sq)
      → pgoff / 65536 % 4294967296 ≡ 1
      → lookup (pgoff % 65536) dev.sqs ≡ o
      → NamesIt dev pgoff (sq_area o)
  unfolding sq_area
  sq_area-NamesIt none t e = tt
  sq_area-NamesIt (some sq) t e =
      if-elim (NamesIt dev pgoff) sq.contig (λ c. inr (inl (sq, t, e, c, refl, refl))) (λ _. tt)

  meta_area-NamesIt :
      (o : Option Meta)
      → pgoff / 65536 % 4294967296 ≡ 2
      → lookup (pgoff % 65536) dev.metas ≡ o
      → NamesIt dev pgoff (meta_area o)
  unfolding meta_area
  meta_area-NamesIt none t e = tt
  meta_area-NamesIt (some m) t e =
      if-elim (NamesIt dev pgoff) m.contig (λ c. inr (inr (m, t, e, c, refl, refl))) (λ _. tt)

  mmap_parse_vmpgoff-NamesIt : NamesIt dev pgoff (mmap_parse_vmpgoff dev pgoff)
  unfolding mmap_parse_vmpgoff
  mmap_parse_vmpgoff-NamesIt =
      if-elim (NamesIt dev pgoff) (vmpgoff_to_type pgoff == 0)
        (λ t. cq_area-NamesIt _ (ground arith) refl)
        (λ _.
          if-elim (NamesIt dev pgoff) (vmpgoff_to_type pgoff == 1)
            (λ t. sq_area-NamesIt _ (ground arith) refl)
            (λ _.
              if-elim (NamesIt dev pgoff) (vmpgoff_to_type pgoff == 2)
                (λ t. meta_area-NamesIt _ (ground arith) refl) (λ _. tt)))

-- A mapping of the pages of a buffer that the offset names, and of no page behind them.
pub record IsWithin (mem : MmapMem) (dev : Device) (pgoff pfn len : ℕ) : Type 0 where
  pub kva : ℕ
  pub size : ℕ
  pub names : Names dev pgoff (kva, size)
  pub first : pfn ≡ mem.virt_to_phys kva / 4096
  pub valid : 0 < pfn
  pub inside : (page : ℕ) → page * 4096 < len → page * 4096 < size

abbrev Maps : MmapMem → Device → ℕ → Mapping → Type 0
Maps mem dev pgoff (mapped pfn len) = IsWithin mem dev pgoff pfn len
Maps mem dev pgoff (unmapped e) = Unit

remapped-Maps :
    (mem : MmapMem) (dev : Device) (pgoff pfn len : ℕ) (s : Status)
    → IsWithin mem dev pgoff pfn len
    → Maps mem dev pgoff (remapped s pfn len)
unfolding remapped
remapped-Maps mem dev pgoff pfn len done h = h
remapped-Maps mem dev pgoff pfn len (fail e) h = tt

map_area-Maps :
    (mem : MmapMem) (dev : Device) (pgoff len : ℕ) (r : Errno ⊎ Area)
    → NamesIt dev pgoff r
    → Maps mem dev pgoff (map_area mem len r)
unfolding map_area
map_area-Maps mem dev pgoff len (inl e) h = tt
map_area-Maps mem dev pgoff len (inr (kva, size)) h =
    if-elim (Maps mem dev pgoff) (ltb (div_round_up size page_size * page_size) len) (λ _. tt)
      (λ fits.
        if-elim (Maps mem dev pgoff) (mem.virt_to_phys kva / page_size == 0) (λ _. tt)
          (λ nonnull. remapped-Maps mem dev pgoff _ len mem.remap (record {
            kva = kva;
            size = size;
            names = h;
            first = refl;
            valid = ground arith;
            inside = λ page lt. ground arith;
          })))

-- Whatever `dnvme_mmap` maps is a contiguous completion queue, submission queue or meta buffer of the
-- device, the one that the offset names, by the macros of include/uapi/dnvme.h, in its bits 16 and up
-- and its lower 16 bits (a comment on `dnvme_mmap` has other bits); the mapping starts at the page of
-- its memory, and every page of it holds a part of the buffer.
pub mmap-IsWithin :
    (mem : MmapMem) (dev : Device) (pgoff len pfn len' : ℕ)
    → mmap mem dev pgoff len ≡ mapped pfn len'
    → IsWithin mem dev pgoff pfn len'
unfolding mmap
mmap-IsWithin mem dev pgoff len pfn len' run =
    subst (Maps mem dev pgoff) run
      (map_area-Maps mem dev pgoff len _ (mmap_parse_vmpgoff-NamesIt dev pgoff))
