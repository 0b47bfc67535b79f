-- ===== src/Meta/Life.antt =====
-- modules/dnvme/meta.c: the life of a meta buffer, from its creation to its release.
use dnvme.Base.{
  ℕ, ◌≡◌, refl, Bool, true, false, if◌then◌else◌, Option, not, ◌&&◌, none, some, List, [], ◌∷◌,
  ◌++◌, ◌==◌, All, arith,
}
use dnvme.Base.Dict.{Dict, lookup, insert, lookup-erase}
use dnvme.Device.{Meta, Device, Effect, free_coherent, release_prps}
use dnvme.Meta.{
  MetaCreate, MetaMem, MetaRun, created, refused, meta_bug, sgl_failed, sgl_crashed, sgl_ready,
  delete_meta_node, delete_metas, delete_meta_nodes, delete_meta_id, meta_prepare_sgl,
}

-- What gives back all that a creation acquires behind its node: the coherent memory that the kernel
-- handed out, with its address and the size asked for, or the PRPs, or what of them was made.
unfoldable pub acquired_by : MetaMem → MetaCreate → List Effect
acquired_by mem mc =
    if mc.contig
    then if mem.coherent == 0 then [] else free_coherent mc.size mem.coherent mem.coherent_dma ∷ []
    else elim (meta_prepare_sgl mem mc) [
      | sgl_failed e undone ↦ undone
      | sgl_crashed ↦ []
      | sgl_ready p ↦ release_prps p ∷ []
    ]

abbrev is_none : Option Meta → Bool
is_none none = true
is_none (some m) = false

-- Whether a creation comes to acquire memory: the request can be read, is not without a buffer, and names a
-- number that is free.
unfoldable pub acquires : MetaMem → Device → MetaCreate → Bool
acquires mem dev mc =
    mem.copy_in
    && (not (not mc.contig && (mc.buf == 0)) && (is_none (lookup mc.id dev.metas) && mem.node))

-- A node that stands under a number that was free, and that a deletion takes away again with all the
-- memory that was acquired for it.
pub record IsCreated (mem : MetaMem) (dev : Device) (mc : MetaCreate) (dev' : Device) (m : Meta)
    : Type 0 where
  pub free : lookup mc.id dev.metas ≡ none
  pub stored : lookup mc.id dev'.metas ≡ some m
  pub size : m.size ≡ mc.size
  pub contig : m.contig ≡ mc.contig
  pub gone : (j : ℕ) → lookup j (delete_meta_id dev' mc.id).metas ≡ lookup j dev.metas
  pub given : (delete_meta_id dev' mc.id).io ≡ acquired_by mem mc ++ dev.io

-- What a creation has done; where it failed, the device is the same but for what was acquired and is given
-- back. A null pointer is met only in the segments of a buffer that is not contiguous.
abbrev pub Creates : MetaMem → Device → MetaCreate → MetaRun → Type 0
Creates mem dev mc (created dev') = (m : Meta) × IsCreated mem dev mc dev' m
Creates mem dev mc (refused e dev') =
    dev' ≡ record dev { io = (if acquires mem dev mc then acquired_by mem mc else []) ++ dev.io }
Creates mem dev mc meta_bug = (mc.contig ≡ false) × (meta_prepare_sgl mem mc ≡ sgl_crashed)

module _ (mem : MetaMem) (dev : Device) (mc : MetaCreate)
    (free : lookup mc.id dev.metas ≡ none) where
  module _ (m : Meta) (same : m.id ≡ mc.id) where
    abbrev stored_dev : Device
    stored_dev = record dev { metas = insert m.id m dev.metas }

-- Every node stands under the number that it carries.
abbrev pub IsKeyedMetas : Dict Meta → Type 0
IsKeyedMetas m = All (λ slot. slot.1.id ≡ slot.0) m

delete_metas-none :
    (ms : Dict Meta) (dev : Device) (id : ℕ)
    → IsKeyedMetas ms
    → (lookup id ms ≡ none → lookup id dev.metas ≡ none)
    → lookup id (delete_metas ms dev).metas ≡ none
unfolding delete_metas delete_meta_node lookup
delete_metas-none [] dev id keyed left = left refl
delete_metas-none ((i, m) ∷ ms) dev id keyed left =
    let e = keyed.0 in
    let erased = lookup-erase m.id id dev.metas in
    delete_metas-none ms (delete_meta_node dev m) id keyed.1
      (λ n. ground (arith, e, erased, n, left))

-- In a device whose meta buffers stand under the numbers that they carry, `dnvme_delete_meta_nodes`
-- leaves none under any number.
pub delete_meta_nodes-none :
    (dev : Device) (id : ℕ)
    → IsKeyedMetas dev.metas
    → lookup id (delete_meta_nodes dev).metas ≡ none
unfolding delete_meta_nodes
delete_meta_nodes-none dev id keyed = delete_metas-none dev.metas dev id keyed (λ n. n)
