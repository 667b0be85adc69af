-- ===== src/Common/BitArray.antt =====
-- `t_bitarray` of the so-commons library: what the program relies on of its operations, on the bits that
-- the array has. The frames of the memory and the blocks of the file system are kept in one.
use so_project_c.Common.{
  zero, suc, ◌+◌, ◌≤◌, List, [], ◌∷◌, ℕ, ◌<◌, ◌≡◌, refl, Bool, true, false, arith, ◌==◌,
  if◌then◌else◌, List, ◌≤◌, [], ◌+◌, suc, ◌∷◌,
}

pub record BitArray : Type 1 where
  pub Bits : Type 0
  pub max_bit : Bits → ℕ
  pub test_bit : Bits → ℕ → Bool
  pub set_bit : Bits → ℕ → Bits
  pub clean_bit : Bits → ℕ → Bits
  pub max_bit-set : (b : Bits) (i : ℕ) → max_bit (set_bit b i) ≡ max_bit b
  pub max_bit-clean : (b : Bits) (i : ℕ) → max_bit (clean_bit b i) ≡ max_bit b
  pub test_bit-set :
      (b : Bits) (i j : ℕ)
      → i < max_bit b
      → j < max_bit b
      → test_bit (set_bit b i) j ≡ (if i == j then true else test_bit b j)
  pub test_bit-clean :
      (b : Bits) (i j : ℕ)
      → i < max_bit b
      → j < max_bit b
      → test_bit (clean_bit b i) j ≡ (if i == j then false else test_bit b j)

-- An array as its size and the value at each index: the laws can be met.
abbrev pub indexed_bits : BitArray
indexed_bits = record {
  Bits = ℕ × (ℕ → Bool);
  max_bit = λ b. b.0;
  test_bit = λ b j. b.1 j;
  set_bit = λ b i. (b.0, λ j. if i == j then true else b.1 j);
  clean_bit = λ b i. (b.0, λ j. if i == j then false else b.1 j);
  max_bit-set = λ b i. refl;
  max_bit-clean = λ b i. refl;
  test_bit-set = λ b i j hi hj. refl;
  test_bit-clean = λ b i j hi hj. refl;
}

module _ (B : BitArray) where
  open B use {
    Bits, max_bit, test_bit, set_bit, clean_bit, max_bit-set, max_bit-clean, test_bit-set,
    test_bit-clean,
  }

  -- A bit as a number, to count with.
  abbrev pub bit : Bits → ℕ → ℕ
  bit b j = if test_bit b j then 1 else 0

  -- The free indices among the `k` from `i` on, in order.
  unfoldable pub free_from : ℕ → ℕ → Bits → List ℕ
  free_from zero i b = []
  free_from (suc k) i b =
      let rest = free_from k (i + 1) b in if test_bit b i then rest else i ∷ rest

  pub free_from-congr :
      (k i : ℕ) (b c : Bits)
      → ((j : ℕ) → i ≤ j → j < i + k → test_bit b j ≡ test_bit c j)
      → free_from k i b ≡ free_from k i c
  unfolding free_from
  free_from-congr zero i b c h = refl
  free_from-congr (suc k) i b c h = rw (
    h i (omega arith) (omega arith),
    free_from-congr k (i + 1) b c (λ j lo hi. h j (omega arith) (omega arith)),
  )
