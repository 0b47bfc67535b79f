-- ===== src/Access/Write.antt =====
-- modules/dnvme/ioctl.c and io.c: `dnvme_generic_write` and its loops. Writes are handed out as a log
-- of the address and the bytes of each.
use dnvme.Base.{
  ℕ, zero, suc, ◌+◌, ◌%◌, Bool, not, Option, none, some, List, [], ◌∷◌, ◌==◌, ltb, if◌then◌else◌,
  take,
}
use dnvme.Device.{einval, efault, enomem, Status, done, fail}
use dnvme.Access.{
  Region, pci_config, bar0_bar1, Access, check_access_align, config_width, bar_width,
}

-- The rest of a buffer from an index on.
abbrev drop : ℕ → List ℕ → List ℕ
drop zero bs = bs
drop (suc n) [] = []
drop (suc n) (b ∷ bs) = drop n bs

-- A write of `bytes` to `at`.
pub record Store : Type 0 where
  pub at : ℕ
  pub bytes : List ℕ

abbrev log_store : Store → Status × List Store → Status × List Store
log_store s (st, log) = (st, s ∷ log)

-- The `do` loop over chunks of `width` bytes of `buf`, from index `idx` on; the sums are 32-bit. The
-- answer to a write of configuration space is `ret` at its address. It is run on fuel.
unfoldable write_loop : ℕ → (ℕ → Status) → ℕ → ℕ → ℕ → ℕ → List ℕ → Status × List Store
write_loop zero ret width offset bytes idx buf = (done, [])
write_loop (suc fuel) ret width offset bytes idx buf =
    let at = (offset + idx) % 4294967296 in
    let next = (idx + width) % 4294967296 in
    let store : Store = record { at = at; bytes = take width (drop idx buf) } in
    let further = write_loop fuel ret width offset bytes next buf in
    elim (ret at) [
      | fail e ↦ (fail e, [])
      | done ↦ if ltb next bytes then log_store store further else (done, store ∷ [])
    ]

unfoldable write_chunks : Option ℕ → (ℕ → Status) → Access → List ℕ → Status × List Store
unfolding write_loop
write_chunks none ret a buf = (fail einval, [])
write_chunks (some width) ret a buf = write_loop a.bytes ret width a.offset a.bytes 0 buf

unfoldable write_to_config : (ℕ → Status) → Access → List ℕ → Status × List Store
unfolding config_width write_chunks
write_to_config ret a buf =
    if ltb 4096 ((a.offset + a.bytes) % 4294967296)
    then (fail einval, [])
    else write_chunks (config_width a.type) ret a buf

unfoldable write_to_bar : Access → List ℕ → Status × List Store
unfolding bar_width write_chunks
write_to_bar a buf = write_chunks (bar_width a.type) (λ _. done) a buf

unfoldable write_region : (ℕ → Status) → Access → List ℕ → Option Region → Status × List Store
unfolding write_to_config write_to_bar
write_region ret a buf none = (fail einval, [])
write_region ret a buf (some pci_config) = write_to_config ret a buf
write_region ret a buf (some bar0_bar1) = write_to_bar a buf

-- `copy_in`, `alloc` and `copy_buf` are the kernel's answers.
unfoldable pub generic_write :
    Bool → Bool → Bool → (ℕ → Status) → Access → List ℕ → Status × List Store
unfolding check_access_align write_region
generic_write copy_in alloc copy_buf ret a buf =
    if not copy_in
    then (fail efault, [])
    else if a.bytes == 0
    then (done, [])
    else elim (check_access_align a.type a.bytes a.offset) [
      | fail e ↦ (fail e, [])
      | done ↦
          if not alloc
          then (fail enomem, [])
          else if copy_buf
          then write_region ret a buf a.region
          else (fail efault, [])
    ]
