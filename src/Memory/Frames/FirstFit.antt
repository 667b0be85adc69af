-- ===== src/Memory/Frames/FirstFit.antt =====
-- `resize_up` assigns the lowest free frames, in order, and reports an error exactly when they do not
-- suffice; the frames that it did assign stay with the process.
use so_project_c.Common.{
  ℕ, zero, suc, ◌+◌, ◌-◌, ◌≤◌, ◌≡◌, refl, sym, List, [], ◌∷◌, ◌++◌, arith, ltb, if◌then◌else◌,
  length, take,
}
use mathlib.Core.List.{append-nil, append_assoc}
use so_project_c.Common.BitArray.{BitArray, free_from, free_from-congr}
use so_project_c.Protocol.Codes.{OpCode}
use so_project_c.Memory.Frames.{resize_up_loop, resize_up}

take_nil : (n : ℕ) → take {A = ℕ} n [] ≡ []
take_nil zero = refl
take_nil (suc n) = refl

module _ (B : BitArray) where
  open B use {
    Bits, max_bit, test_bit, set_bit, clean_bit, max_bit-set, max_bit-clean, test_bit-set,
    test_bit-clean,
  }

  free_from-set :
      (k i : ℕ) (b : Bits)
      → suc i + k ≤ max_bit b
      → free_from B k (i + 1) (set_bit b i) ≡ free_from B k (i + 1) b
  free_from-set k i b h =
      free_from-congr B k (i + 1) (set_bit b i) b (λ j lo hi. ground (arith, test_bit-set b i j))

  -- Both results of the loop at once.
  abbrev Assigned : ℕ → List ℕ → List ℕ → ℕ × List ℕ × Bits → Type 0
  Assigned pages l free r = (r.0 ≡ pages - length free) × (r.1 ≡ l ++ take pages free)

  resize_up_loop_lem :
      (k i pages : ℕ) (l : List ℕ) (b : Bits)
      → i + k ≤ max_bit b
      → Assigned pages l (free_from B k i b) (resize_up_loop B k i pages l b)
  unfolding resize_up_loop free_from
  resize_up_loop_lem zero i pages l b h =
      (omega arith, ground (arith, append-nil l, take_nil pages))
  resize_up_loop_lem (suc k) i zero l b h = (omega arith, sym (append-nil l))
  resize_up_loop_lem (suc k) i (suc pages) l b h =
      let minus : suc pages - 1 ≡ pages = omega arith in
      ground (
        arith,
        minus,
        resize_up_loop_lem k (i + 1) (suc pages) l b (omega arith),
        resize_up_loop_lem k (i + 1) pages (l ++ (i ∷ [])) (set_bit b i)
            (omega (arith, max_bit-set b i)),
        free_from-set k i b (omega arith),
        append_assoc l (i ∷ []) (take pages (free_from B k (i + 1) b)),
      )

  -- Growing by a number of pages appends the lowest free frames in order, as many as there are up
  -- to that number, and answers MEM_ERROR if there are fewer, and else MEM_SUCCESS.
  pub resize_up-first_fit :
      (pages : ℕ) (l : List ℕ) (b : Bits)
      → ((resize_up B pages l b).1 ≡ l ++ take pages (free_from B (max_bit b) 0 b))
        × ((resize_up B pages l b).0 ≡ (
            if ltb (length (free_from B (max_bit b) 0 b)) pages
            then OpCode.mem_error
            else OpCode.mem_success))
  unfolding resize_up
  resize_up-first_fit pages l b =
      ground (arith, resize_up_loop_lem (max_bit b) 0 pages l b (omega arith))
