-- ===== src/Base/Dict.antt =====
-- The kernel's `struct xarray` as the driver uses it: a finite map from numbers to nodes, whose
-- entries are visited in ascending order.
-- `xa_load` is `lookup`, `xa_erase` is `erase`, the store of a successful `xa_insert` is `insert`,
-- and a write through a pointer that `xa_load` returned is `update`.
use Prim.Native.Nat.{ℕ}
use mathlib.Core.Path.{◌≡◌, refl, sym}
use mathlib.Core.List.{List, [], ◌∷◌}
use mathlib.Core.Logic.{◌≢◌, inl, inr}
use mathlib.Core.Option
use mathlib.Core.Option.{Option, none, some}
use native.Mathlib.Omega.{arith}
use dnvme.Base.Tests.{leb, ◌==◌, if◌then◌else◌, Bool-cases, ==_iff}

abbrev pub Dict {ℓ} : Type ℓ → Type ℓ
Dict Node = List (ℕ × Node)

unfoldable pub lookup {ℓ} : {Node : Type ℓ} → ℕ → Dict Node → Option Node
lookup index [] = none
lookup index (slot ∷ slots) =
    let found = lookup index slots in if slot.0 == index then some slot.1 else found

unfoldable pub erase {ℓ} : {Node : Type ℓ} → ℕ → Dict Node → Dict Node
erase index [] = []
erase index (slot ∷ slots) =
    let left = erase index slots in if slot.0 == index then left else slot ∷ left

unfoldable pub insert {ℓ} : {Node : Type ℓ} → ℕ → Node → Dict Node → Dict Node
insert index node [] = (index, node) ∷ []
insert index node (slot ∷ slots) =
    let later = insert index node slots in
    if leb index slot.0 then (index, node) ∷ slot ∷ slots else slot ∷ later

unfoldable pub update {ℓ} : {Node : Type ℓ} → ℕ → (Node → Node) → Dict Node → Dict Node
update index f [] = []
update index f (slot ∷ slots) =
    (slot.0, if slot.0 == index then f slot.1 else slot.1) ∷ update index f slots

pub lookup-insert {ℓ} :
    {Node : Type ℓ} (index at : ℕ) (node : Node) (xa : Dict Node)
    → lookup at (insert index node xa) ≡ (if index == at then some node else lookup at xa)
unfolding lookup insert
lookup-insert index at node [] = refl
lookup-insert index at node (slot ∷ slots) = ground (arith, lookup-insert index at node slots)

pub lookup-erase {ℓ} :
    {Node : Type ℓ} (index at : ℕ) (xa : Dict Node)
    → lookup at (erase index xa) ≡ (if index == at then none else lookup at xa)
unfolding lookup erase
lookup-erase index at [] = ground arith
lookup-erase index at (slot ∷ slots) = ground (arith, lookup-erase index at slots)

pub lookup-update {ℓ} :
    {Node : Type ℓ} (index at : ℕ) (f : Node → Node) (xa : Dict Node)
    → lookup at (update index f xa)
      ≡ (if index == at then Option.map f (lookup at xa) else lookup at xa)
unfolding lookup update
lookup-update index at f [] = ground arith
lookup-update index at f (slot ∷ slots) = ground (arith, lookup-update index at f slots)

pub lookup-update_here {ℓ} :
    {Node : Type ℓ} (index : ℕ) (f : Node → Node) (node : Node) (xa : Dict Node)
    → lookup index xa ≡ some node
    → lookup index (update index f xa) ≡ some (f node)
lookup-update_here index f node xa e = ground (arith, lookup-update index index f xa)

pub lookup-update_there {ℓ} :
    {Node : Type ℓ} (index at : ℕ) (f : Node → Node) (xa : Dict Node)
    → at ≢ index
    → lookup at (update index f xa) ≡ lookup at xa
lookup-update_there index at f xa away = ground (arith, lookup-update index at f xa)

-- An entry that is inserted at a free index and erased again leaves no trace.
pub erase-insert {ℓ} :
    {Node : Type ℓ} (index at : ℕ) (node : Node) (xa : Dict Node)
    → lookup index xa ≡ none
    → lookup at (erase index (insert index node xa)) ≡ lookup at xa
erase-insert index at node xa e = elim (Bool-cases (index == at)) [
  | inl here ↦ rw (lookup-erase, here) (sym (rw (← (==_iff index at).0 here) e))
  | inr away ↦ rw (lookup-erase, away) (rw (lookup-insert, away))
]
