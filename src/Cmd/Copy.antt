-- ===== src/Cmd/Copy.antt =====
-- What `copy_cq_data` hands to the user.
use dnvme.Base.{
  ℕ, zero, suc, ◌-◌, ◌≤◌, ◌≡◌, refl, sym, ap, Bool, List, [], ◌∷◌, ◌++◌, get_or, arith,
}
use mathlib.Core.List.{append-nil, append_assoc}
use dnvme.Device.{done, Completion, Device}
use dnvme.Phase.{blank}
use dnvme.Cmd.Complete.{Copied, slot_behind, handle_cmd_completion, copy_cq_data}

-- The `n` entries of a ring of `elements` slots from slot `pos` on.
abbrev pub window : List Completion → ℕ → ℕ → ℕ → List Completion
window slots elements pos zero = []
window slots elements pos (suc n) =
    get_or slots pos blank ∷ window slots elements (slot_behind elements pos) n

window-suc :
    (slots : List Completion) (elements pos n left : ℕ)
    → left ≤ n
    → window slots elements pos (suc n - left)
      ≡ get_or slots pos blank ∷ window slots elements (slot_behind elements pos) (n - left)
window-suc slots elements pos n left le =
    let same : suc n - left ≡ suc (n - left) = omega arith in ap (window slots elements pos) same

window-none :
    (slots : List Completion) (elements pos n : ℕ) → window slots elements pos (n - n) ≡ []
window-none slots elements pos n =
    let same : n - n ≡ 0 = omega arith in ap (window slots elements pos) same

-- What a run of the loop over `n` entries has done.
pub record IsCopy (slots : List Completion) (elements n pos : ℕ) (out : List Completion)
    (c : Copied) : Type 0 where
  pub bound : c.left ≤ n
  pub entries : c.out ≡ out ++ window slots elements pos (n - c.left)
  pub complete : c.ret ≡ done → c.left ≡ 0

module _ (copies : ℕ → Bool) (slots : List Completion) (elements : ℕ) where
  -- `copy_cq_data` copies the entries of the ring in order from the given slot, as many as it takes
  -- off the count, and appends them to what was copied before; it stops early only with an error.
  pub copy_cq_data-IsCopy :
      (n pos : ℕ) (out : List Completion) (dev : Device)
      → IsCopy slots elements n pos out (copy_cq_data copies slots elements n pos out dev)
  unfolding copy_cq_data
  copy_cq_data-IsCopy zero pos out dev = record {
    bound = omega arith;
    entries = sym (append-nil out);
    complete = λ e. refl;
  }
  copy_cq_data-IsCopy (suc n) pos out dev =
      let e = get_or slots pos blank in
      let next = slot_behind elements pos in
      let rest = copy_cq_data-IsCopy n next (out ++ e ∷ []) (handle_cmd_completion dev e).1 in
      let c =
        copy_cq_data copies slots elements n next (out ++ e ∷ []) (handle_cmd_completion dev e).1 in
      ground (
        arith,
        append-nil out,
        rest,
        window-suc slots elements pos n c.left rest.bound,
        window-suc slots elements pos n n (omega arith),
        window-none slots elements next n,
        window-none slots elements pos (suc n),
        append_assoc out (e ∷ []) (window slots elements next (n - c.left)),
      )
