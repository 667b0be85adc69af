-- ===== src/Fs/Bitmap/Ranges.antt =====
-- entradasalida/src/auxiliar.c: the loops over a run of blocks.
use so_project_c.Common.{
  ℕ, zero, suc, ◌+◌, ◌-◌, ◌≤◌, ◌<◌, ◌≡◌, refl, ◌∙◌, ◌↔◌, true, false, ◌&&◌, some, ◌==◌, ltb, leb,
  if◌then◌else◌, arith, Bool-cases, inl, inr, Option, some_eq, none,
}
use so_project_c.Common.BitArray.{BitArray}
use so_project_c.Fs.Bitmap.{contiguo, check_space_contiguo, limpiar, marcar}

module _ (B : BitArray) where
  open B use {
    Bits, max_bit, test_bit, set_bit, clean_bit, max_bit-set, max_bit-clean, test_bit-set,
    test_bit-clean,
  }

  pub contiguo_libre :
      (n i : ℕ) (b : Bits) (j : ℕ)
      → contiguo B n i b ≡ true
      → i ≤ j
      → j < i + n
      → test_bit b j ≡ false
  unfolding contiguo
  contiguo_libre zero i b j e lo hi = absurd (omega arith)
  contiguo_libre (suc n) i b j e lo hi = elim (Bool-cases (j == i)) [
    | inl same ↦ ground (arith, same)
    | inr other ↦ ground (arith, other, contiguo_libre n (i + 1) b j)
  ]

  pub contiguo_dentro :
      (n i : ℕ) (b : Bits) → contiguo B n i b ≡ true → i ≤ max_bit b → i + n ≤ max_bit b
  unfolding contiguo
  contiguo_dentro zero i b e h = omega arith
  contiguo_dentro (suc n) i b e h = ground (arith, contiguo_dentro n (i + 1) b)

  contiguo_todo :
      (n i : ℕ) (b : Bits)
      → i + n ≤ max_bit b
      → ((j : ℕ) → i ≤ j → j < i + n → test_bit b j ≡ false)
      → contiguo B n i b ≡ true
  unfolding contiguo
  contiguo_todo zero i b h free = refl
  contiguo_todo (suc n) i b h free =
      let first = free i (omega arith) (omega arith) in
      let rest =
        contiguo_todo n (i + 1) b (omega arith) (λ j lo hi. free j (omega arith) (omega arith)) in
      ground (arith, first, rest)

  -- Let the first bit asked for not lie behind the bitmap. The test for space holds exactly when there is a first bit
  -- (a file without blocks has none) and, if any bit is asked for, the last of them lies in the bitmap and all of them
  -- are free.
  pub check_space_contiguo_iff :
      (b : Bits) (o : Option ℕ) (end_bit : ℕ)
      → ((i : ℕ) → o ≡ some i → i ≤ max_bit b)
      → (check_space_contiguo B b o end_bit ≡ true) ↔ (
          (init_bit : ℕ) × (o ≡ some init_bit)
          × (init_bit < end_bit → end_bit ≤ max_bit b)
          × ((j : ℕ) → init_bit ≤ j → j < end_bit → test_bit b j ≡ false))
  unfolding check_space_contiguo
  check_space_contiguo_iff b none end_bit start = (λ e. cc, λ (i, e, _, _). cc)
  check_space_contiguo_iff b (some i) end_bit start = (
    λ e. (
      i,
      refl,
      λ some_bits. omega (arith, contiguo_dentro (end_bit - i) i b e (start i refl)),
      λ j lo hi. contiguo_libre (end_bit - i) i b j e lo (omega arith),
    ),
    λ (k, same, room, free).
        let here : i ≡ k = some_eq same in
        elim (Bool-cases (ltb i end_bit)) [
          | inl any ↦
              let last = room (ground (arith, here, any)) in
              contiguo_todo (end_bit - i) i b (ground (arith, last, any))
                (λ j lo hi. free j (omega (arith, here)) (omega arith))
          | inr nothing ↦
              contiguo_todo (end_bit - i) i b (ground (arith, start i refl, nothing))
                (λ j lo hi. free j (omega (arith, here)) (omega arith))
        ],
  )

  pub max_bit-limpiar : (n i : ℕ) (b : Bits) → max_bit (limpiar B n i b) ≡ max_bit b
  unfolding limpiar
  max_bit-limpiar zero i b = refl
  max_bit-limpiar (suc n) i b = max_bit-limpiar n (i + 1) (clean_bit b i) ∙ max_bit-clean b i

  pub max_bit-marcar : (n i : ℕ) (b : Bits) → max_bit (marcar B n i b) ≡ max_bit b
  unfolding marcar
  max_bit-marcar zero i b = refl
  max_bit-marcar (suc n) i b = max_bit-marcar n (i + 1) (set_bit b i) ∙ max_bit-set b i

  pub limpiar_bit :
      (n i : ℕ) (b : Bits) (j : ℕ)
      → i + n ≤ max_bit b
      → j < max_bit b
      → test_bit (limpiar B n i b) j ≡ (if leb i j && ltb j (i + n) then false else test_bit b j)
  unfolding limpiar
  limpiar_bit zero i b j h hj = ground arith
  limpiar_bit (suc n) i b j h hj =
      ground
        (arith, limpiar_bit n (i + 1) (clean_bit b i) j, test_bit-clean b i j, max_bit-clean b i)

  pub marcar_bit :
      (n i : ℕ) (b : Bits) (j : ℕ)
      → i + n ≤ max_bit b
      → j < max_bit b
      → test_bit (marcar B n i b) j ≡ (if leb i j && ltb j (i + n) then true else test_bit b j)
  unfolding marcar
  marcar_bit zero i b j h hj = ground arith
  marcar_bit (suc n) i b j h hj =
      ground (arith, marcar_bit n (i + 1) (set_bit b i) j, test_bit-set b i j, max_bit-set b i)
