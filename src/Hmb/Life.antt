-- ===== src/Hmb/Life.antt =====
-- modules/dnvme/ioctl.c: what `dnvme_alloc_hmb` leaves behind, and what `dnvme_release_hmb` undoes.
use dnvme.Base.{
  ℕ, zero, suc, ◌+◌, ◌%◌, ◌<◌, ◌≡◌, refl, sym, ap, ◌∙◌, true, false, not, none, some, List, [], ◌∷◌,
  ◌==◌, if-elim, Option-cases, inl, inr, get_elem?, get_elem?-none, length, arith,
}
use dnvme.Device.{enomem, Device, Hmb, HmbBuffer, HmbDesc, Effect, free_coherent, wild_free}
use dnvme.Hmb.{
  HmbAlloc, HmbMem, Buffers, got, no_memory, overrun, buffer_size, with_buffer, new_buffer,
  alloc_hmb_buffer, free_buffer, release_hmb_buffer, fill_hmb_descriptor, HmbRun, allocated,
  refused, overread, described_hmb, finish_hmb, check_hmb, alloc_hmb, release_hmb,
}

-- The release of every buffer, and the descriptor of every buffer.
abbrev pub free_all : List HmbBuffer → List Effect → List Effect
free_all [] io = io
free_all (b ∷ bs) io = free_all bs (free_buffer b ∷ io)

abbrev pub descs_of : List HmbBuffer → List HmbDesc
descs_of [] = []
descs_of (b ∷ bs) = record { addr = b.phy_addr; size = b.size % 4294967296 } ∷ descs_of bs

release_hmb_buffer-all :
    (bs : List HmbBuffer) (io : List Effect) → release_hmb_buffer (length bs) bs io ≡ free_all bs io
unfolding release_hmb_buffer
release_hmb_buffer-all [] io = refl
release_hmb_buffer-all (b ∷ bs) io = release_hmb_buffer-all bs (free_buffer b ∷ io)

fill_hmb_descriptor-all : (bs : List HmbBuffer) → fill_hmb_descriptor (length bs) bs ≡ descs_of bs
unfolding fill_hmb_descriptor
fill_hmb_descriptor-all [] = refl
fill_hmb_descriptor-all (b ∷ bs) =
    ap (λ ds. record { addr = b.phy_addr; size = b.size % 4294967296 } ∷ ds)
      (fill_hmb_descriptor-all bs)

-- The buffers are those that the kernel handed out, with the sizes asked for; none is null.
abbrev pub IsBuffers : (ℕ → ℕ × ℕ) → ℕ → List ℕ → ℕ → List HmbBuffer → Type 0
IsBuffers memory page bsize i [] = Unit
IsBuffers memory page bsize i (b ∷ bs) =
    (b.virt_addr ≡ (memory i).0)
    × (0 < b.virt_addr)
    × (b.phy_addr ≡ (memory i).1)
    × ((pages : ℕ) × (get_elem? bsize i ≡ some pages) × (b.size ≡ buffer_size page pages))
    × IsBuffers memory page bsize (suc i) bs

-- What the loop over the buffers has got.
abbrev Got : (ℕ → ℕ × ℕ) → ℕ → List ℕ → ℕ → ℕ → Buffers → Type 0
Got memory page bsize n i (got bs) = (length bs ≡ n) × IsBuffers memory page bsize i bs
Got memory page bsize n i (no_memory bs) = (length bs < n) × IsBuffers memory page bsize i bs
Got memory page bsize n i overrun = length bsize < i + n

module _ (memory : ℕ → ℕ × ℕ) (page : ℕ) (bsize : List ℕ) where
  with_buffer-Got :
      (n i pages : ℕ) (r : Buffers)
      → get_elem? bsize i ≡ some pages
      → ((memory i).0 == 0) ≡ false
      → Got memory page bsize n (suc i) r
      → Got memory page bsize (suc n) i (with_buffer (new_buffer (memory i) page pages) r)
  unfolding with_buffer
  with_buffer-Got n i pages (got bs) e nonnull h =
      (ap suc h.0, (refl, ground arith, refl, (pages, e, refl), h.1))
  with_buffer-Got n i pages (no_memory bs) e nonnull h =
      (omega (arith, h.0), (refl, ground arith, refl, (pages, e, refl), h.1))
  with_buffer-Got n i pages overrun e nonnull h = omega (arith, h)

  alloc_hmb_buffer-Got :
      (n i : ℕ) → Got memory page bsize n i (alloc_hmb_buffer memory page bsize n i)
  unfolding alloc_hmb_buffer
  alloc_hmb_buffer-Got zero i = (refl, tt)
  alloc_hmb_buffer-Got (suc n) i =
      let rest = alloc_hmb_buffer-Got n (suc i) in
      elim (Option-cases (get_elem? bsize i)) [
        | inl e ↦ rw (e, alloc_hmb_buffer) (omega (arith, get_elem?-none bsize i e))
        | inr (pages, e) ↦
            rw (e, alloc_hmb_buffer)
              (if-elim (Got memory page bsize (suc n) i) ((memory i).0 == 0)
                (λ _. (omega arith, tt)) (λ nonnull. with_buffer-Got n i pages _ e nonnull rest))
      ]

-- The buffers of a request and their descriptors, and what the release of them gives back.
pub record IsAllocated (mem : HmbMem) (dev : Device) (need : HmbAlloc) (dev' : Device) (h : Hmb)
    : Type 0 where
  pub state : dev' ≡ record dev { hmb = some h }
  pub count : h.desc_num ≡ need.nr_desc
  pub all : length h.buf ≡ need.nr_desc
  pub buffers : IsBuffers mem.buffer need.page_size need.bsize 0 h.buf
  pub described : h.descs ≡ descs_of h.buf
  pub released : release_hmb dev' ≡ record dev {
    hmb = none;
    io = wild_free ∷ free_all h.buf (free_coherent 4096 mem.desc mem.desc_dma ∷ dev.io);
  }

abbrev pub Allocates : HmbMem → Device → HmbAlloc → HmbRun → Type 0
Allocates mem dev need (allocated dev') = (h : Hmb) × IsAllocated mem dev need dev' h
Allocates mem dev need (refused e dev') = record dev' { io = dev.io } ≡ dev
Allocates mem dev need overread = length need.bsize < need.nr_desc

module _ (mem : HmbMem) (dev : Device) (need : HmbAlloc) where
  described-IsAllocated :
      (bs : List HmbBuffer)
      → length bs ≡ need.nr_desc
      → IsBuffers mem.buffer need.page_size need.bsize 0 bs
      → let h = described_hmb mem need.nr_desc bs in
        IsAllocated mem dev need (record dev { hmb = some h }) h
  unfolding release_hmb
  described-IsAllocated bs n buffers =
      let io' = free_coherent 4096 mem.desc mem.desc_dma ∷ dev.io in
      record {
        state = refl;
        count = refl;
        all = n;
        buffers = buffers;
        described = ap (λ k. fill_hmb_descriptor k bs) (sym n) ∙ fill_hmb_descriptor-all bs;
        released =
            ap (λ l. record dev { hmb = none; io = wild_free ∷ l })
              (ap (λ k. release_hmb_buffer k bs io') (sym n) ∙ release_hmb_buffer-all bs io');
      }

  finish_hmb-Allocates :
      (r : Buffers)
      → Got mem.buffer need.page_size need.bsize need.nr_desc 0 r
      → Allocates mem dev need (finish_hmb mem dev need r)
  unfolding finish_hmb
  finish_hmb-Allocates overrun h = omega arith
  finish_hmb-Allocates (no_memory bs) h = refl
  finish_hmb-Allocates (got bs) (n, buffers) =
      if-elim (Allocates mem dev need) (mem.desc == 0) (λ _. refl)
        (λ _.
          if-elim (Allocates mem dev need) mem.copy_out
            (λ _. (described_hmb mem need.nr_desc bs, described-IsAllocated bs n buffers))
            (λ _. refl))

-- `dnvme_alloc_hmb`, whatever the two copies of the request hold: where it succeeds the device has a
-- host memory buffer of as many buffers as the second copy asks for, in order, none null and each of
-- the size asked for modulo 2^32, with a descriptor for each; `dnvme_release_hmb` then gives back
-- the descriptors and every buffer, and behind these frees through a pointer that is not set, which
-- leaves the node allocated and what follows undefined. Where it fails the device is
-- the same but for what was given back. It reads behind the copied request only if the second copy
-- names more buffers than were copied.
pub alloc_hmb-Allocates :
    (mem : HmbMem) (dev : Device) (head need : HmbAlloc)
    → Allocates mem dev need (alloc_hmb mem dev head need)
unfolding alloc_hmb
alloc_hmb-Allocates mem dev head need = elim (Option-cases (check_hmb mem dev head)) [
  | inr (e, c) ↦ rw (c, alloc_hmb) refl
  | inl c ↦
      rw (c, alloc_hmb)
        (if-elim (Allocates mem dev need) (not mem.copy) (λ _. refl)
          (λ _.
            if-elim (Allocates mem dev need) (not mem.copy_all) (λ _. refl)
              (λ _.
                if-elim (Allocates mem dev need) (not mem.node) (λ _. refl)
                  (λ _.
                    finish_hmb-Allocates mem dev need _
                      (alloc_hmb_buffer-Got mem.buffer need.page_size need.bsize need.nr_desc 0)))))
]

-- Where the buffers have been allocated and the descriptors cannot be, `dnvme_alloc_hmb` fails and
-- gives back none of the buffers.
pub alloc_hmb-leaks :
    (mem : HmbMem) (dev : Device) (head need : HmbAlloc) (bs : List HmbBuffer)
    → check_hmb mem dev head ≡ none
    → mem.copy ≡ true
    → mem.copy_all ≡ true
    → mem.node ≡ true
    → alloc_hmb_buffer mem.buffer need.page_size need.bsize need.nr_desc 0 ≡ got bs
    → mem.desc ≡ 0
    → alloc_hmb mem dev head need ≡ refused enomem dev
unfolding alloc_hmb finish_hmb release_hmb_buffer
alloc_hmb-leaks mem dev head need bs c m a n b d =
    let none_left : (mem.desc == 0) ≡ true = ground arith in
    rw (c, m, a, n, b, none_left, alloc_hmb, finish_hmb) refl
