-- ===== src/Common/Ints.antt =====
-- The C `int`, and what becomes of a `uint32_t` that is stored in one.
use so_project_c.Common.{
  ℕ, suc, ◌+◌, ◌-◌, ◌<◌, ◌≡◌, Option, none, some, arith, ltb, if◌then◌else◌, u32_mod,
}

pub data ℤ : Type 0 where
  pos : ℕ → ℤ
  negsuc : ℕ → ℤ

unfoldable pub a_int : ℕ → ℤ
a_int w = if ltb w 0x8000_0000 then pos w else negsuc (u32_mod - 1 - w)

pub a_int_small : (w : ℕ) → w < 0x8000_0000 → a_int w ≡ pos w
unfolding a_int
a_int_small w h = ground arith

-- A place moved by an `int`; one in front of the start is `none`.
unfoldable pub mover_int : ℕ → ℤ → Option ℕ
mover_int n (pos m) = some (n + m)
mover_int n (negsuc m) = if ltb m n then some (n - suc m) else none
