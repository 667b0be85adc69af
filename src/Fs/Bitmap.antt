-- ===== src/Fs/Bitmap.antt =====
-- entradasalida/src/auxiliar.c: the functions on the bitmap of the blocks. A position that is the C -1 is `none`.
pub mod Search
pub mod Ranges
use so_project_c.Common.{
  ℕ, zero, suc, ◌+◌, ◌-◌, ◌≡◌, Bool, true, false, ◌&&◌, ◌||◌, Option, none, some, List, [], ◌∷◌,
  ◌==◌, ltb, leb, if◌then◌else◌,
}
use so_project_c.Common.BitArray.{BitArray}

module _ (B : BitArray) where
  open B use {Bits, max_bit, test_bit, set_bit, clean_bit}

  -- The inner loop, over the `n` bits from `k` on: whether all bits of the run were free, and where it stopped.
  unfoldable pub corrida : ℕ → ℕ → ℕ → ℕ → Bits → Bool × ℕ
  corrida zero size i k b = (true, k)
  corrida (suc n) size i k b =
      let rest = corrida n size i (k + 1) b in
      if ltb (k - i) size then (if test_bit b k then (false, k + 1) else rest) else (true, k)

  -- The outer loop, which goes on behind the bit that ended the run.
  unfoldable pub buscar_init : ℕ → ℕ → ℕ → Bits → Option ℕ
  unfolding corrida
  buscar_init zero size i b = none
  buscar_init (suc fuel) size i b =
      let next = buscar_init fuel size (i + 1) b in
      let (flag, k) = corrida (max_bit b - (i + 1)) size i (i + 1) b in
      let behind = buscar_init fuel size (k + 1) b in
      if ltb i (max_bit b)
      then (if test_bit b i then next else (if flag && (k - i == size) then some i else behind))
      else none

  unfoldable pub get_init_block_file : Bits → ℕ → Option ℕ
  unfolding buscar_init
  get_init_block_file b size = buscar_init (max_bit b) size 0 b

  -- The loops of `resize_down` and `resize_up`, over `n` bits from `i` on.
  unfoldable pub limpiar : ℕ → ℕ → Bits → Bits
  limpiar zero i b = b
  limpiar (suc n) i b = limpiar n (i + 1) (clean_bit b i)

  unfoldable pub marcar : ℕ → ℕ → Bits → Bits
  marcar zero i b = b
  marcar (suc n) i b = marcar n (i + 1) (set_bit b i)

  unfoldable pub resize_down : Bits → ℕ → ℕ → Bits
  unfolding limpiar
  resize_down b init_bit end_bit = limpiar (end_bit - init_bit) init_bit b

  unfoldable pub resize_up : Bits → ℕ → ℕ → Bits
  unfolding marcar
  resize_up b init_bit end_bit = marcar (end_bit - init_bit) init_bit b

  unfoldable pub contiguo : ℕ → ℕ → Bits → Bool
  contiguo zero i b = true
  contiguo (suc n) i b =
      let rest = contiguo n (i + 1) b in if (max_bit b == i) || test_bit b i then false else rest

  unfoldable pub check_space_contiguo : Bits → Option ℕ → ℕ → Bool
  unfolding contiguo
  check_space_contiguo b none end_bit = false
  check_space_contiguo b (some init_bit) end_bit = contiguo (end_bit - init_bit) init_bit b

  -- What the loop of `check_space_total` takes off its counter.
  unfoldable pub contar_libres : ℕ → ℕ → Bits → ℕ
  contar_libres zero i b = 0
  contar_libres (suc n) i b =
      let rest = contar_libres n (i + 1) b in if test_bit b i then rest else suc rest

  unfoldable pub check_space_total : Bits → ℕ → Bool
  unfolding contar_libres
  check_space_total b cant_bits = leb cant_bits (contar_libres (max_bit b) 0 b)
