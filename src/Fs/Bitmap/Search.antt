-- ===== src/Fs/Bitmap/Search.antt =====
-- entradasalida/src/auxiliar.c: what the searches in the bitmap find.
use so_project_c.Common.{
  ℕ, zero, suc, ◌+◌, ◌-◌, ◌≤◌, ◌<◌, ◌≡◌, refl, Bool, true, false, ◌&&◌, none, some, ◌==◌, ltb,
  if◌then◌else◌, arith, Bool-cases, inl, inr, some_eq, ==_iff,
}
use so_project_c.Common.BitArray.{BitArray}
use so_project_c.Fs.Bitmap.{corrida, buscar_init, get_init_block_file}

ltb→lt : (a b : ℕ) → ltb a b ≡ true → a < b
ltb→lt a b h = ground arith

and_inv : (a b : Bool) → (a && b) ≡ true → (a ≡ true) × (b ≡ true)
and_inv true b h = (refl, h)
and_inv false b h = cc

module _ (B : BitArray) where
  open B use {
    Bits, max_bit, test_bit, set_bit, clean_bit, max_bit-set, max_bit-clean, test_bit-set,
    test_bit-clean,
  }

  -- Where the run stops, and that it was free if it says so.
  corrida_bounds : (n size i k : ℕ) (b : Bits) → (corrida B n size i k b).1 ≤ k + n
  unfolding corrida
  corrida_bounds zero size i k b = omega arith
  corrida_bounds (suc n) size i k b = ground (arith, corrida_bounds n size i (k + 1) b)

  i_lt_run : (n size i k : ℕ) (b : Bits) → k ≤ (corrida B n size i k b).1
  unfolding corrida
  i_lt_run zero size i k b = omega arith
  i_lt_run (suc n) size i k b = ground (arith, i_lt_run n size i (k + 1) b)

  corrida_libre :
      (n size i k : ℕ) (b : Bits) (j : ℕ)
      → (corrida B n size i k b).0 ≡ true
      → k ≤ j
      → j < (corrida B n size i k b).1
      → test_bit b j ≡ false
  unfolding corrida
  corrida_libre zero size i k b j e lo hi = absurd (omega arith)
  corrida_libre (suc n) size i k b j e lo hi = elim (Bool-cases (j == k)) [
    | inl same ↦ ground (arith, same)
    | inr other ↦ ground (arith, other, corrida_libre n size i (k + 1) b j)
  ]

  buscar_init_libre :
      (fuel size i : ℕ) (b : Bits) {r : ℕ} (j : ℕ)
      → buscar_init B fuel size i b ≡ some r
      → r ≤ j
      → j < r + size
      → (r + size ≤ max_bit b) × (test_bit b j ≡ false)
  unfolding buscar_init
  buscar_init_libre zero size i b j e lo hi = cc
  buscar_init_libre (suc fuel) size i b {r} j e lo hi = elim (Bool-cases (ltb i (max_bit b))) [
    | inr outside ↦ absurd (ground (arith, outside))
    | inl inside ↦ elim (Bool-cases (test_bit b i)) [
      | inl taken ↦ buscar_init_libre fuel size (i + 1) b j (rw (inside, taken) at e) lo hi
      | inr free ↦
          let run = corrida B (max_bit b - (i + 1)) size i (i + 1) b in
          let bound = corrida_bounds (max_bit b - (i + 1)) size i (i + 1) b in
          elim (Bool-cases (run.0 && (run.1 - i == size))) [
            | inr short ↦
                buscar_init_libre fuel size (run.1 + 1) b j (rw (inside, free, short) at e) lo hi
            | inl long ↦
                let here : i ≡ r = some_eq (rw (inside, free, long) at e) in
                let (whole, exact) = and_inv run.0 (run.1 - i == size) long in
                let size_eq = (==_iff (run.1 - i) size).0 exact in
                let ahead = i_lt_run (max_bit b - (i + 1)) size i (i + 1) b in
                (
                  omega (arith, here, size_eq, bound, ltb→lt i (max_bit b) inside, ahead),
                  elim (Bool-cases (j == i)) [
                    | inl same ↦ rw ((==_iff j i).0 same) free
                    | inr other ↦
                        corrida_libre (max_bit b - (i + 1)) size i (i + 1) b j whole
                          (ground (arith, other, here)) (omega (arith, here, size_eq, ahead))
                  ],
                )
          ]
    ]
  ]

  -- Every run that the search finds is inside the bitmap and free.
  pub get_init_block_file-libre :
      (b : Bits) (size i j : ℕ)
      → get_init_block_file B b size ≡ some i
      → i ≤ j
      → j < i + size
      → (i + size ≤ max_bit b) × (test_bit b j ≡ false)
  unfolding get_init_block_file
  get_init_block_file-libre b size i j e lo hi = buscar_init_libre (max_bit b) size 0 b j e lo hi

  -- A single block is found whenever one is free, and it is the first.
  corrida_uno : (n i : ℕ) (b : Bits) → corrida B n 1 i (i + 1) b ≡ (true, i + 1)
  unfolding corrida
  corrida_uno zero i b = refl
  corrida_uno (suc n) i b = ground arith

  buscar_uno :
      (fuel i : ℕ) (b : Bits)
      → buscar_init B (suc fuel) 1 i b ≡ (
          if ltb i (max_bit b)
          then (if test_bit b i then buscar_init B fuel 1 (i + 1) b else some i)
          else none)
  unfolding buscar_init
  buscar_uno fuel i b = rw (corrida_uno (max_bit b - (i + 1)) i b) (ground arith)

  buscar_uno_primero :
      (fuel i : ℕ) (b : Bits) (j : ℕ)
      → max_bit b ≤ i + fuel
      → i ≤ j
      → j < max_bit b
      → test_bit b j ≡ false
      → (r : ℕ) × (buscar_init B fuel 1 i b ≡ some r) × (r ≤ j)
  buscar_uno_primero zero i b j h lo hi free = absurd (omega arith)
  buscar_uno_primero (suc fuel) i b j h lo hi free = elim (Bool-cases (test_bit b i)) [
    | inl taken ↦
        let further : i + 1 ≤ j = ground (arith, taken) in
        let (r, e, le) = buscar_uno_primero fuel (i + 1) b j (omega arith) further hi free in
        (r, ground (arith, buscar_uno fuel i b, taken, e), le)
    | inr here ↦ (i, ground (arith, buscar_uno fuel i b, here), lo)
  ]

  pub get_init_block_file_uno :
      (b : Bits) (j : ℕ)
      → j < max_bit b
      → test_bit b j ≡ false
      → (r : ℕ) × (get_init_block_file B b 1 ≡ some r) × (r ≤ j)
  unfolding get_init_block_file
  get_init_block_file_uno b j hi free =
      buscar_uno_primero (max_bit b) 0 b j (omega arith) (omega arith) hi free

  -- No run is empty.
  buscar_cero : (fuel i : ℕ) (b : Bits) → buscar_init B fuel 0 i b ≡ none
  unfolding buscar_init
  buscar_cero zero i b = refl
  buscar_cero (suc fuel) i b =
      let run = corrida B (max_bit b - (i + 1)) 0 i (i + 1) b in
      ground (
        arith,
        i_lt_run (max_bit b - (i + 1)) 0 i (i + 1) b,
        buscar_cero fuel (i + 1) b,
        buscar_cero fuel (run.1 + 1) b,
      )

  pub get_init_block_file_cero : (b : Bits) → get_init_block_file B b 0 ≡ none
  unfolding get_init_block_file
  get_init_block_file_cero b = buscar_cero (max_bit b) 0 b
