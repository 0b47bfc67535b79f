-- ===== src/Access/Range.antt =====
-- modules/dnvme/ioctl.c and io.c: which bytes `dnvme_generic_read` hands out.
use dnvme.Base.{
  ℕ, zero, suc, ◌+◌, ◌-◌, ◌*◌, ◌/◌, ◌%◌, ◌≤◌, ◌<◌, ◌≡◌, refl, sym, ap, ap₂, ◌∙◌, ◌⊎◌, inl, inr,
  Bool, not, Option, none, some, List, ◌∷◌, ◌++◌, ◌==◌, ltb, if-elim, arith,
}
use mathlib.Core.Path.{subst}
use dnvme.Device.{Errno, Status, done, fail}
use dnvme.Access.{
  Region, pci_config, bar0_bar1, AccessType, access_qword, access_dword, access_word, access_byte,
  Access, check_access_align, read_at, Space, put_in_front, read_loop, config_width, bar_width,
  loop_of, read_from_config, read_from_bar, read_region, to_user, generic_read,
}

read_at-append :
    (mem : ℕ → ℕ) (at m n : ℕ) → read_at mem at (m + n) ≡ read_at mem at m ++ read_at mem (at + m) n
read_at-append mem at zero n =
    let same : at + 0 ≡ at = omega arith in
    let none_first : 0 + n ≡ n = omega arith in
    ap (read_at mem at) none_first ∙ ap (λ a. read_at mem a n) (sym same)
read_at-append mem at (suc m) n =
    let same : at + 1 + m ≡ at + suc m = omega arith in
    let one_first : suc m + n ≡ suc (m + n) = omega arith in
    ap (read_at mem at) one_first
    ∙ ap (λ bs. mem at ∷ bs)
        (read_at-append mem (at + 1) m n ∙ ap (λ a. read_at mem (at + 1) m ++ read_at mem a n) same)

-- `k` chunks.
abbrev chunks : ℕ → ℕ → ℕ
chunks width zero = 0
chunks width (suc k) = width + chunks width k

chunks-mul : (width k : ℕ) → chunks width k ≡ k * width
chunks-mul width zero = grind arith
chunks-mul width (suc k) = let e = chunks-mul width k in grind (arith, e)

-- An answer without error has the bytes.
abbrev Reads : List ℕ → Errno ⊎ List ℕ → Type 0
Reads bs (inl e) = Unit
Reads bs (inr out) = out ≡ bs

put_in_front-Reads :
    (front bs : List ℕ) (r : Errno ⊎ List ℕ)
    → Reads bs r
    → Reads (front ++ bs) (put_in_front front r)
unfolding put_in_front
put_in_front-Reads front bs (inl e) h = tt
put_in_front-Reads front bs (inr out) h = ap (λ l. front ++ l) h

Status-cases : (s : Status) → (s ≡ done) ⊎ ((e : Errno) × (s ≡ fail e))
Status-cases done = inl refl
Status-cases (fail e) = inr (e, refl)

module _ (mem : ℕ → ℕ) (ret : ℕ → Status) (width offset bytes : ℕ) (some_width : 0 < width)
    (small : bytes < 4294967296) (room : offset + bytes ≤ 4294967296) where
  module _ (fuel idx : ℕ) (inside : idx + width ≤ bytes)
      (ok : ret ((offset + idx) % 4294967296) ≡ done) where
    at_idx : (offset + idx) % 4294967296 ≡ offset + idx
    at_idx = omega arith

    read_loop_last :
        bytes ≤ idx + width
        → read_loop (suc fuel) mem ret width offset bytes idx
          ≡ inr (read_at mem (offset + idx) width)
    unfolding read_loop
    read_loop_last end = ground (arith, ok, at_idx)

    read_loop_more :
        idx + width < bytes
        → read_loop (suc fuel) mem ret width offset bytes idx
          ≡ put_in_front
              (read_at mem (offset + idx) width)
              (read_loop fuel mem ret width offset bytes (idx + width))
    unfolding read_loop
    read_loop_more more =
        let next : (idx + width) % 4294967296 ≡ idx + width = omega arith in
        ground (arith, ok, at_idx, next)

    last_chunk-Reads :
        bytes ≡ idx + chunks width 1
        → Reads
            (read_at mem (offset + idx) (chunks width 1))
            (read_loop (suc fuel) mem ret width offset bytes idx)
    last_chunk-Reads e =
        subst (Reads (read_at mem (offset + idx) (width + 0))) (sym (read_loop_last (omega arith)))
          (ap (read_at mem (offset + idx)) (omega arith))

    more_chunks-Reads :
        (k : ℕ)
        → bytes ≡ idx + chunks width (suc (suc k))
        → Reads
            (read_at mem (offset + (idx + width)) (chunks width (suc k)))
            (read_loop fuel mem ret width offset bytes (idx + width))
        → Reads
            (read_at mem (offset + idx) (chunks width (suc (suc k))))
            (read_loop (suc fuel) mem ret width offset bytes idx)
    more_chunks-Reads k e rest =
        let front = read_at mem (offset + idx) width in
        let at : offset + (idx + width) ≡ offset + idx + width = omega arith in
        let split =
          read_at-append mem (offset + idx) width (chunks width (suc k))
          ∙ ap (λ a. front ++ read_at mem a (chunks width (suc k))) (sym at) in
        subst (λ bs. Reads bs (read_loop (suc fuel) mem ret width offset bytes idx)) (sym split)
          (subst (Reads (front ++ read_at mem (offset + (idx + width)) (chunks width (suc k))))
            (sym (read_loop_more (omega arith))) (put_in_front-Reads front _ _ rest))

  failed_chunk-Reads :
      (fuel idx : ℕ) (bs : List ℕ) (e : Errno)
      → ret ((offset + idx) % 4294967296) ≡ fail e
      → Reads bs (read_loop (suc fuel) mem ret width offset bytes idx)
  unfolding read_loop
  failed_chunk-Reads fuel idx bs e failed = rw (failed, read_loop) tt

  -- The chunks from `idx` on are all read, or one of them cannot be.
  read_loop-Reads :
      (fuel k idx : ℕ)
      → k < fuel
      → bytes ≡ idx + chunks width (suc k)
      → Reads
          (read_at mem (offset + idx) (chunks width (suc k)))
          (read_loop fuel mem ret width offset bytes idx)
  read_loop-Reads zero k idx enough e = absurd (omega arith)
  read_loop-Reads (suc fuel) zero idx enough e =
      elim (Status-cases (ret ((offset + idx) % 4294967296))) [
        | inr (err, failed) ↦ failed_chunk-Reads fuel idx _ err failed
        | inl ok ↦ last_chunk-Reads fuel idx (omega arith) ok e
      ]
  read_loop-Reads (suc fuel) (suc k) idx enough e =
      let rest = read_loop-Reads fuel k (idx + width) (omega arith) (omega arith) in
      elim (Status-cases (ret ((offset + idx) % 4294967296))) [
        | inr (err, failed) ↦ failed_chunk-Reads fuel idx _ err failed
        | inl ok ↦ more_chunks-Reads fuel idx (omega arith) ok k e rest
      ]

-- A whole request in chunks of a width.
module _ (mem : ℕ → ℕ) (ret : ℕ → Status) (offset bytes : ℕ) (small : bytes < 4294967296)
    (room : offset + bytes ≤ 4294967296) where
  chunked-Reads :
      (width k : ℕ)
      → 0 < width
      → k < bytes
      → bytes ≡ suc k * width
      → Reads (read_at mem offset bytes) (loop_of (some width) mem ret offset bytes)
  unfolding loop_of
  chunked-Reads width k some_width enough whole =
      let all : bytes ≡ chunks width (suc k) = whole ∙ sym (chunks-mul width (suc k)) in
      let start : offset + 0 ≡ offset = omega arith in
      let loop =
        read_loop-Reads mem ret width offset bytes some_width small room bytes k 0 enough
          (omega (arith, all)) in
      subst (λ bs. Reads bs (read_loop bytes mem ret width offset bytes 0))
        (ap₂ (read_at mem) start (sym all)) loop

  aligned-Reads :
      (type : AccessType)
      → 0 < bytes
      → check_access_align (some type) bytes offset ≡ done
      → Reads (read_at mem offset bytes) (loop_of (bar_width (some type)) mem ret offset bytes)
  unfolding check_access_align bar_width
  aligned-Reads access_qword some_bytes ok =
      let whole : bytes % 8 ≡ 0 = ground arith in
      chunked-Reads 8 (bytes / 8 - 1) (omega arith) (omega arith) (omega arith)
  aligned-Reads access_dword some_bytes ok =
      let whole : bytes % 4 ≡ 0 = ground arith in
      chunked-Reads 4 (bytes / 4 - 1) (omega arith) (omega arith) (omega arith)
  aligned-Reads access_word some_bytes ok =
      let whole : bytes % 2 ≡ 0 = ground arith in
      chunked-Reads 2 (bytes / 2 - 1) (omega arith) (omega arith) (omega arith)
  aligned-Reads access_byte some_bytes ok =
      chunked-Reads 1 (bytes - 1) (omega arith) (omega arith) (omega arith)

  aligned_config-Reads :
      (type : AccessType)
      → 0 < bytes
      → check_access_align (some type) bytes offset ≡ done
      → Reads (read_at mem offset bytes) (loop_of (config_width (some type)) mem ret offset bytes)
  unfolding config_width bar_width loop_of
  aligned_config-Reads access_qword some_bytes ok = tt
  aligned_config-Reads access_dword some_bytes ok = aligned-Reads access_dword some_bytes ok
  aligned_config-Reads access_word some_bytes ok = aligned-Reads access_word some_bytes ok
  aligned_config-Reads access_byte some_bytes ok = aligned-Reads access_byte some_bytes ok

-- The bytes of a region.
abbrev pub bytes_of : Space → Option Region → ℕ → ℕ
bytes_of space (some pci_config) = space.config
bytes_of space (some bar0_bar1) = space.bar
bytes_of space none = space.bar

module _ (space : Space) (a : Access) (small : a.bytes < 4294967296)
    (room : a.offset + a.bytes ≤ 4294967296) (some_bytes : 0 < a.bytes)
    (ok : check_access_align a.type a.bytes a.offset ≡ done) where
  config_loop-Reads :
      (type : Option AccessType)
      → check_access_align type a.bytes a.offset ≡ done
      → Reads
          (read_at space.config a.offset a.bytes)
          (loop_of (config_width type) space.config space.config_ret a.offset a.bytes)
  unfolding config_width loop_of
  config_loop-Reads none e = tt
  config_loop-Reads (some type) e =
      aligned_config-Reads space.config space.config_ret a.offset a.bytes small room type some_bytes
        e

  bar_loop-Reads :
      (type : Option AccessType)
      → check_access_align type a.bytes a.offset ≡ done
      → Reads
          (read_at space.bar a.offset a.bytes)
          (loop_of (bar_width type) space.bar (λ _. done) a.offset a.bytes)
  unfolding bar_width loop_of
  bar_loop-Reads none e = tt
  bar_loop-Reads (some type) e =
      aligned-Reads space.bar (λ _. done) a.offset a.bytes small room type some_bytes e

  read_region-Reads :
      (region : Option Region)
      → Reads (read_at (bytes_of space region) a.offset a.bytes) (read_region space a region)
  unfolding read_region read_from_config read_from_bar
  read_region-Reads none = tt
  read_region-Reads (some pci_config) =
      if-elim (Reads (read_at space.config a.offset a.bytes))
        (ltb 4096 ((a.offset + a.bytes) % 4294967296)) (λ _. tt) (λ _. config_loop-Reads a.type ok)
  read_region-Reads (some bar0_bar1) = bar_loop-Reads a.type ok

to_user-Reads :
    (copy_out : Bool) (bs : List ℕ) (r : Errno ⊎ List ℕ)
    → Reads bs r
    → Reads bs (to_user copy_out r)
unfolding to_user
to_user-Reads copy_out bs (inl e) h = tt
to_user-Reads copy_out bs (inr out) h = if-elim (Reads bs) copy_out (λ _. h) (λ _. tt)

generic_read-Reads :
    (copy_in alloc copy_out : Bool) (space : Space) (a : Access)
    → a.bytes < 4294967296
    → a.offset + a.bytes ≤ 4294967296
    → Reads
        (read_at (bytes_of space a.region) a.offset a.bytes)
        (generic_read copy_in alloc copy_out space a)
unfolding generic_read
generic_read-Reads copy_in alloc copy_out space a small room =
    let P = Reads (read_at (bytes_of space a.region) a.offset a.bytes) in
    if-elim P (not copy_in) (λ _. tt)
      (λ _.
        if-elim P (a.bytes == 0)
          (λ empty.
            let zero_bytes : 0 ≡ a.bytes = ground arith in
            ap (read_at (bytes_of space a.region) a.offset) zero_bytes)
          (λ nonempty. elim (Status-cases (check_access_align a.type a.bytes a.offset)) [
            | inr (e, failed) ↦ rw (failed, generic_read) tt
            | inl ok ↦
                rw (ok, generic_read)
                  (if-elim P alloc
                    (λ _.
                      to_user-Reads copy_out _ _
                        (read_region-Reads space a small room (ground arith) ok a.region))
                    (λ _. tt))
          ]))

-- Whatever `dnvme_generic_read` hands to the user without an error, for a request that does not run over
-- 32 bits: it is exactly the bytes of the region from the offset on, as many as asked for, in order,
-- whatever the width of the access.
pub generic_read-IsRange :
    (copy_in alloc copy_out : Bool) (space : Space) (a : Access) (out : List ℕ)
    → a.bytes < 4294967296
    → a.offset + a.bytes ≤ 4294967296
    → generic_read copy_in alloc copy_out space a ≡ inr out
    → out ≡ read_at (bytes_of space a.region) a.offset a.bytes
generic_read-IsRange copy_in alloc copy_out space a out small room run =
    subst (Reads (read_at (bytes_of space a.region) a.offset a.bytes)) run
      (generic_read-Reads copy_in alloc copy_out space a small room)
