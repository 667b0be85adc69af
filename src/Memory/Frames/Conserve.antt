-- ===== src/Memory/Frames/Conserve.antt =====
-- No frame is lost or given twice by the loops over the bitmap.
use so_project_c.Common.{
  ℕ, zero, suc, ◌+◌, ◌-◌, ◌≤◌, ◌<◌, ◌≡◌, refl, List, [], ◌∷◌, ◌++◌, arith, All, All-append,
}
use so_project_c.Common.BitArray.{BitArray, bit}
use so_project_c.Common.Counts.{count, count-append}
use so_project_c.Memory.Frames.{resize_up_loop, resize_up}

module _ (B : BitArray) where
  open B use {
    Bits, max_bit, test_bit, set_bit, clean_bit, max_bit-set, max_bit-clean, test_bit-set,
    test_bit-clean,
  }

  max_bit-resize_up_loop :
      (k i pages : ℕ) (l : List ℕ) (b : Bits)
      → max_bit (resize_up_loop B k i pages l b).2 ≡ max_bit b
  unfolding resize_up_loop
  max_bit-resize_up_loop zero i pages l b = refl
  max_bit-resize_up_loop (suc k) i pages l b = ground (
    arith,
    max_bit-resize_up_loop k (i + 1) pages l b,
    max_bit-resize_up_loop k (i + 1) (pages - 1) (l ++ (i ∷ [])) (set_bit b i),
    max_bit-set b i,
  )

  -- What the loop adds to the page list it sets in the bitmap.
  resize_up_loop-conserves :
      (k i pages : ℕ) (l : List ℕ) (b : Bits) (j : ℕ)
      → i + k ≤ max_bit b
      → j < max_bit b
      → bit B (resize_up_loop B k i pages l b).2 j + count j l
        ≡ bit B b j + count j (resize_up_loop B k i pages l b).1
  unfolding resize_up_loop
  resize_up_loop-conserves zero i pages l b j h hj = omega arith
  resize_up_loop-conserves (suc k) i pages l b j h hj = ground (
    arith,
    resize_up_loop-conserves k (i + 1) pages l b j,
    resize_up_loop-conserves k (i + 1) (pages - 1) (l ++ (i ∷ [])) (set_bit b i) j,
    test_bit-set b i j,
    max_bit-set b i,
    count-append j l (i ∷ []),
  )

  -- `l` is the page list of a process, and the other processes have frame `j` `others j` times: a bit is set
  -- exactly when one of them has the frame, and nobody has it twice.
  pub record Owns (others : ℕ → ℕ) (l : List ℕ) (b : Bits) : Type 0 where
    pub exact : (j : ℕ) → j < max_bit b → bit B b j ≡ others j + count j l
    pub inside : All (λ f. f < max_bit b) l

  resize_up_loop-inside :
      (k i pages m : ℕ) (l : List ℕ) (b : Bits)
      → i + k ≤ m
      → All (λ f. f < m) l
      → All (λ f. f < m) (resize_up_loop B k i pages l b).1
  unfolding resize_up_loop
  resize_up_loop-inside zero i pages m l b h a = a
  resize_up_loop-inside (suc k) i pages m l b h a = ground (
    arith,
    resize_up_loop-inside k (i + 1) pages m l b,
    resize_up_loop-inside k (i + 1) (pages - 1) m (l ++ (i ∷ [])) (set_bit b i),
    All-append (λ f. f < m) l (i ∷ []),
  )

  pub max_bit-resize_up :
      (pages : ℕ) (l : List ℕ) (b : Bits) → max_bit (resize_up B pages l b).2 ≡ max_bit b
  unfolding resize_up
  max_bit-resize_up pages l b = max_bit-resize_up_loop (max_bit b) 0 pages l b

  pub resize_up-Owns :
      (others : ℕ → ℕ) (pages : ℕ) (l : List ℕ) (b : Bits)
      → Owns others l b
      → Owns others (resize_up B pages l b).1 (resize_up B pages l b).2
  unfolding resize_up
  resize_up-Owns others pages l b h = record {
    exact = λ j hj.
        let hj' : j < max_bit b = rw (max_bit-resize_up_loop (max_bit b) 0 pages l b) at hj in
        ground (
          arith,
          resize_up_loop-conserves (max_bit b) 0 pages l b j (omega arith) hj',
          h.exact j hj',
        );
    inside =
        rw (max_bit-resize_up_loop (max_bit b) 0 pages l b)
          (resize_up_loop-inside (max_bit b) 0 pages (max_bit b) l b (omega arith) h.inside);
  }
