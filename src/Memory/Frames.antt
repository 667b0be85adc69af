-- ===== src/Memory/Frames.antt =====
-- memoria/src/usuario.c: `resize_up` and `resize_down`, over the bitmap of frames and the page list of one
-- process, each as one step.
pub mod Conserve
pub mod FirstFit
pub mod Shrink
use so_project_c.Common.{
  ℕ, zero, suc, ◌+◌, ◌-◌, Option, none, some, List, [], ◌∷◌, ◌++◌, ltb, ◌==◌, if◌then◌else◌, length,
  get_elem?,
}
use so_project_c.Common.BitArray.{BitArray}
use so_project_c.Protocol.Codes.{OpCode}

-- `list_remove` at an index of the list; `none` where there is no such index.
pub list_remove {ℓ} : {A : Type ℓ} → List A → ℕ → Option (A × List A)
list_remove [] i = none
list_remove (x ∷ xs) zero = some (x, xs)
list_remove (x ∷ xs) (suc i) = elim (list_remove xs i) [
  | none ↦ none
  | some (a, rest) ↦ some (a, x ∷ rest)
]

module _ (B : BitArray) where
  open B use {Bits, max_bit, test_bit, set_bit, clean_bit}

  -- The loop with `k` bits left to look at, from bit `i` on: what of `pages` is still to be assigned, and
  -- the new page list and bitmap.
  unfoldable pub resize_up_loop : ℕ → ℕ → ℕ → List ℕ → Bits → ℕ × List ℕ × Bits
  resize_up_loop zero i pages list_pages bit_map = (pages, list_pages, bit_map)
  resize_up_loop (suc k) i pages list_pages bit_map =
      let used = resize_up_loop k (i + 1) pages list_pages bit_map in
      let free =
        resize_up_loop k (i + 1) (pages - 1) (list_pages ++ (i ∷ [])) (set_bit bit_map i) in
      if pages == 0 then (pages, list_pages, bit_map) else if test_bit bit_map i then used else free

  unfoldable pub resize_up : ℕ → List ℕ → Bits → OpCode × List ℕ × Bits
  unfolding resize_up_loop
  resize_up pages list_pages bit_map =
      let (left, list_pages', bit_map') =
        resize_up_loop (max_bit bit_map) 0 pages list_pages bit_map in
      (if ltb 0 left then OpCode.mem_error else OpCode.mem_success, list_pages', bit_map')

  -- The loop at `i = n - 1`, down to `i = 0`. It stands at the last page, so `list_remove` finds it.
  pub resize_down_loop : ℕ → ℕ → List ℕ → Bits → Option (List ℕ × Bits)
  unfolding list_remove
  resize_down_loop zero pages list_pages bit_map = some (list_pages, bit_map)
  resize_down_loop (suc i) pages list_pages bit_map =
      let removed : Option (List ℕ × Bits) = elim (list_remove list_pages i) [
        | none ↦ none
        | some (frame, rest) ↦ resize_down_loop i (pages - 1) rest (clean_bit bit_map frame)
      ] in
      if pages == 0 then some (list_pages, bit_map) else removed

  unfoldable pub resize_down : ℕ → List ℕ → Bits → Option (List ℕ × Bits)
  unfolding resize_down_loop
  resize_down pages list_pages bit_map =
      resize_down_loop (length list_pages) pages list_pages bit_map
