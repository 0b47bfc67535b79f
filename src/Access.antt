-- ===== src/Access.antt =====
-- modules/dnvme/ioctl.c and io.c: `dnvme_generic_read`, its alignment checks, and the loops over PCI
-- configuration space and BAR0. Both regions are memory that is read byte by byte, as an argument.
pub mod Range
pub mod Write
use dnvme.Base.{
  ℕ, zero, suc, ◌+◌, ◌%◌, Bool, true, false, not, ◌&&◌, ◌||◌, Option, none, some, List, [], ◌∷◌,
  ◌++◌, ◌==◌, ltb, if◌then◌else◌, ◌⊎◌, inl, inr,
}
use dnvme.Device.{Errno, einval, efault, enomem, Status, done, fail}

-- `enum nvme_region` and `enum nvme_access_type`.
pub data Region : Type 0 where
  pci_config bar0_bar1 : Region

pub data AccessType : Type 0 where
  access_qword access_dword access_word access_byte : AccessType

-- `struct nvme_access`; `none` is a number that no region or type has.
pub record Access : Type 0 where
  pub region : Option Region
  pub type : Option AccessType
  pub bytes : ℕ
  pub offset : ℕ

abbrev pub misaligned : ℕ → ℕ → ℕ → ℕ → Status
misaligned bytes of offset at =
    if not (bytes % of == 0) || not (offset % at == 0) then fail einval else done

unfoldable pub check_access_align : Option AccessType → ℕ → ℕ → Status
check_access_align none bytes offset = done
check_access_align (some access_qword) bytes offset = misaligned bytes 8 offset 4
check_access_align (some access_dword) bytes offset = misaligned bytes 4 offset 4
check_access_align (some access_word) bytes offset = misaligned bytes 2 offset 2
check_access_align (some access_byte) bytes offset = done

-- `n` bytes from an address on.
abbrev pub read_at : (ℕ → ℕ) → ℕ → ℕ → List ℕ
read_at mem at zero = []
read_at mem at (suc n) = mem at ∷ read_at mem (at + 1) n

-- What each read of configuration space answers, by its address, and the bytes of both regions.
pub record Space : Type 0 where
  pub config : ℕ → ℕ
  pub config_ret : ℕ → Status
  pub bar : ℕ → ℕ

unfoldable pub put_in_front : List ℕ → Errno ⊎ List ℕ → Errno ⊎ List ℕ
put_in_front bs (inl e) = inl e
put_in_front bs (inr rest) = inr (bs ++ rest)

-- The `do` loop over chunks of `width` bytes, from index `idx` on; the sums are 32-bit. It is run on
-- fuel, and an empty answer where that ends.
unfoldable pub read_loop : ℕ → (ℕ → ℕ) → (ℕ → Status) → ℕ → ℕ → ℕ → ℕ → Errno ⊎ List ℕ
unfolding put_in_front
read_loop zero mem ret width offset bytes idx = inr []
read_loop (suc fuel) mem ret width offset bytes idx =
    let at = (offset + idx) % 4294967296 in
    let next = (idx + width) % 4294967296 in
    let further = read_loop fuel mem ret width offset bytes next in
    elim (ret at) [
      | fail e ↦ inl e
      | done ↦
          if ltb next bytes
          then put_in_front (read_at mem at width) further
          else inr (read_at mem at width)
    ]

-- PCI_CFG_SPACE_EXP_SIZE is 4096; configuration space has no quadwords.
unfoldable pub config_width : Option AccessType → Option ℕ
config_width none = none
config_width (some access_qword) = none
config_width (some access_dword) = some 4
config_width (some access_word) = some 2
config_width (some access_byte) = some 1

unfoldable pub bar_width : Option AccessType → Option ℕ
bar_width none = none
bar_width (some access_qword) = some 8
bar_width (some access_dword) = some 4
bar_width (some access_word) = some 2
bar_width (some access_byte) = some 1

unfoldable pub loop_of : Option ℕ → (ℕ → ℕ) → (ℕ → Status) → ℕ → ℕ → Errno ⊎ List ℕ
unfolding read_loop
loop_of none mem ret offset bytes = inl einval
loop_of (some width) mem ret offset bytes = read_loop bytes mem ret width offset bytes 0

unfoldable pub read_from_config : Space → Access → Errno ⊎ List ℕ
unfolding config_width loop_of
read_from_config space a =
    if ltb 4096 ((a.offset + a.bytes) % 4294967296)
    then inl einval
    else loop_of (config_width a.type) space.config space.config_ret a.offset a.bytes

unfoldable pub read_from_bar : Space → Access → Errno ⊎ List ℕ
unfolding bar_width loop_of
read_from_bar space a = loop_of (bar_width a.type) space.bar (λ _. done) a.offset a.bytes

unfoldable pub read_region : Space → Access → Option Region → Errno ⊎ List ℕ
unfolding read_from_config read_from_bar
read_region space a none = inl einval
read_region space a (some pci_config) = read_from_config space a
read_region space a (some bar0_bar1) = read_from_bar space a

unfoldable pub to_user : Bool → Errno ⊎ List ℕ → Errno ⊎ List ℕ
to_user copy_out (inl e) = inl e
to_user copy_out (inr bs) = if copy_out then inr bs else inl efault

-- What the user's buffer gets; `copy_in`, `alloc` and `copy_out` are the kernel's answers.
unfoldable pub generic_read : Bool → Bool → Bool → Space → Access → Errno ⊎ List ℕ
unfolding check_access_align read_region to_user
generic_read copy_in alloc copy_out space a =
    if not copy_in
    then inl efault
    else if a.bytes == 0
    then inr []
    else elim (check_access_align a.type a.bytes a.offset) [
      | fail e ↦ inl e
      | done ↦ if alloc then to_user copy_out (read_region space a a.region) else inl enomem
    ]
