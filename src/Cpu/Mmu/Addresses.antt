-- ===== src/Cpu/Mmu/Addresses.antt =====
-- The addresses of an access, page by page.
use so_project_c.Common.{
  ℕ, zero, suc, ◌+◌, ◌-◌, ◌*◌, ◌/◌, ◌%◌, ◌≤◌, ◌<◌, ◌≡◌, refl, ap, List, [], ◌∷◌, ◌++◌, arith, map,
  u32_mod,
}
use native.Mathlib.Nat.{le-div_iff_mul-le, div-lt_iff_lt-mul}
use so_project_c.Protocol.Io.{MemoriaFisica}

-- The addresses from `a` on.
abbrev pub rango : ℕ → ℕ → List ℕ
rango a zero = []
rango a (suc n) = a ∷ rango (a + 1) n

-- The physical addresses of a list of frames, in the order of the transfer.
abbrev pub direcciones : List MemoriaFisica → List ℕ
direcciones [] = []
direcciones (f ∷ fs) = rango f.direccion_fisica f.bytes ++ direcciones fs

-- Where the byte at a logical address lies, if page `q` has frame `marcos q`.
abbrev pub fisica : ℕ → (ℕ → ℕ) → ℕ → ℕ
fisica page_size marcos a = marcos (a / page_size) * page_size + (a - a / page_size * page_size)

pub rango-append : (m n k a b : ℕ) → k ≡ m + n → b ≡ a + m → rango a k ≡ rango a m ++ rango b n
rango-append zero n k a b e e' =
    let size : k ≡ n = omega arith in let start : b ≡ a = omega arith in rw (size, start) refl
rango-append (suc m) n zero a b e e' = absurd (omega arith)
rango-append (suc m) n (suc k) a b e e' =
    ap (◌∷◌ a) (rango-append m n k (a + 1) b (omega arith) (omega arith))

pub page_of : (s q a : ℕ) → 0 < s → q * s ≤ a → a < q * s + s → a / s ≡ q
page_of s q a hs lo hi =
    let below : a < suc q * s = grind (arith, hi) in
    let le : q ≤ a / s = (le-div_iff_mul-le hs).1 lo in
    let lt : a / s < suc q = (div-lt_iff_lt-mul hs).1 below in omega arith

pub chunk :
    (s : ℕ) (marcos : ℕ → ℕ) (n q a : ℕ)
    → 0 < s
    → q * s ≤ a
    → a + n ≤ q * s + s
    → rango (marcos q * s + (a - q * s)) n ≡ map (fisica s marcos) (rango a n)
chunk s marcos zero q a hs lo hi = refl
chunk s marcos (suc n) q a hs lo hi =
    let page : a / s ≡ q = page_of s q a hs lo (omega arith) in
    let next : marcos q * s + (a - q * s) + 1 ≡ marcos q * s + (a + 1 - q * s) = omega arith in
    rw (page, next)
      (ap (◌∷◌ (marcos q * s + (a - q * s)))
        (chunk s marcos n q (a + 1) hs (omega arith) (omega arith)))

pub next_page : (q s n : ℕ) → n ≡ q * s + s → n < u32_mod → (q + 1) * s % u32_mod ≡ n
next_page q s n e h = let same : (q + 1) * s ≡ n = grind (arith, e) in omega (arith, same)
