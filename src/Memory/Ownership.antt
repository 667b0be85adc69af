-- ===== src/Memory/Ownership.antt =====
-- The invariant of the memory: every bit of the bitmap is set exactly when one page of one process has
-- that frame, and no frame serves twice.
pub mod Resize
pub mod Addresses
pub mod Pages
use so_project_c.Common.{
  ℕ, zero, suc, ◌+◌, ◌-◌, ◌*◌, ◌≤◌, ◌<◌, ◌≡◌, refl, sym, ◌∙◌, ap, ◌≢◌, Option, none, some, List, [],
  ◌∷◌, ◌++◌, arith, ltb, ◌==◌, if◌then◌else◌, length, All, Option-cases, inl, inr,
}
use so_project_c.Common.BitArray.{BitArray, bit}
use so_project_c.Common.Dict.{get, put, remove}
use so_project_c.Common.Counts.{count}
use so_project_c.Protocol.Codes.{OpCode}
use so_project_c.Memory.Frames.{resize_up, resize_down}
use so_project_c.Memory.Frames.Conserve.{Owns, resize_up-Owns, max_bit-resize_up}
use so_project_c.Memory.Frames.Shrink.{Shrunk, resize_down-Shrunk}
use so_project_c.Memory.State.{
  Memoria, Proceso, con_paginas, ampliar, reducir, redimensionar, liberar, alta,
}

-- How often the processes have frame `j`.
abbrev pub total : ℕ → List (ℕ × Proceso) → ℕ
total j [] = 0
total j ((k, p) ∷ d) = count j p.pages + total j d

abbrev pub Below : ℕ → List (ℕ × Proceso) → Type 0
Below n = All λ e. All (λ f. f < n) (e.1).pages

-- Every entry stands under the number of its process.
abbrev pub Keyed : List (ℕ × Proceso) → Type 0
Keyed = All λ e. (e.1).pid ≡ e.0

pub total-put :
    (j k : ℕ) (old p : Proceso) (d : List (ℕ × Proceso))
    → get k d ≡ some old
    → total j (put k p d) + count j old.pages ≡ total j d + count j p.pages
unfolding get put
total-put j k old p [] e = cc
total-put j k old p ((i, q) ∷ d) e = ground (arith, total-put j k old p d)

pub total-put_new :
    (j k : ℕ) (p : Proceso) (d : List (ℕ × Proceso))
    → get k d ≡ none
    → total j (put k p d) ≡ total j d + count j p.pages
unfolding get put
total-put_new j k p [] e = omega arith
total-put_new j k p ((i, q) ∷ d) e = ground (arith, total-put_new j k p d)

pub total-remove :
    (j k : ℕ) (old : Proceso) (d : List (ℕ × Proceso))
    → get k d ≡ some old
    → total j (remove k d) + count j old.pages ≡ total j d
unfolding get remove
total-remove j k old [] e = cc
total-remove j k old ((i, q) ∷ d) e = ground (arith, total-remove j k old d)

module _ (P : ℕ × Proceso → Type 0) where
  pub All-put :
      (k : ℕ) (p : Proceso) (d : List (ℕ × Proceso)) → P (k, p) → All P d → All P (put k p d)
  unfolding put
  All-put k p [] hp h = (hp, tt)
  All-put k p ((i, q) ∷ d) hp h = ground (arith, All-put k p d hp h.1)

  pub All-remove : (k : ℕ) (d : List (ℕ × Proceso)) → All P d → All P (remove k d)
  unfolding remove
  All-remove k [] h = tt
  All-remove k ((i, q) ∷ d) h = ground (arith, All-remove k d h.1)

  pub All-get :
      (k : ℕ) (p : Proceso) (d : List (ℕ × Proceso)) → get k d ≡ some p → All P d → P (k, p)
  unfolding get
  All-get k p [] e h = cc
  All-get k p ((i, q) ∷ d) e h = ground (arith, All-get k p d)

module _ {B : BitArray} where
  open B use {max_bit}

  -- The frames also lie in the user memory, page by page.
  pub record IsValid (m : Memoria B) : Type 0 where
    pub exact : (j : ℕ) → j < max_bit m.bit_map → bit B m.bit_map j ≡ total j m.memoria_procesos
    pub inside : Below (max_bit m.bit_map) m.memoria_procesos
    pub keyed : Keyed m.memoria_procesos
    pub room : max_bit m.bit_map * m.page_size ≤ length m.memoria_usuario
    pub page_pos : 0 < m.page_size
