-- ===== src/Memory/Ownership/Resize.antt =====
-- The operations that move frames keep the invariant: resize, start and end of a process.
use so_project_c.Common.{
  ℕ, ◌-◌, ◌<◌, ◌≡◌, refl, ◌∙◌, ap, Option, none, some, List, [], arith, ltb, length, All, inl, inr,
  take, Bool-cases,
}
use so_project_c.Common.BitArray.{BitArray}
use so_project_c.Common.Dict.{get, remove}
use so_project_c.Protocol.Codes.{OpCode}
use so_project_c.Memory.Frames.{resize_up}
use so_project_c.Memory.Frames.Conserve.{Owns, resize_up-Owns, max_bit-resize_up}
use so_project_c.Memory.Frames.Shrink.{resize_down-Shrunk}
use so_project_c.Memory.State.{
  Memoria, Proceso, con_paginas, ampliar, reducir, redimensionar, liberar, alta, ceil_div,
}
use so_project_c.Memory.Ownership.{
  IsValid, total, total-put, total-put_new, total-remove, All-put, All-remove, All-get,
}

take_zero : (l : List ℕ) → take (length l - length l) l ≡ []
take_zero l = let e : length l - length l ≡ 0 = omega arith in rw e refl

module _ {B : BitArray} where
  open B use {Bits, max_bit}

  -- The other processes' share of the frames.
  abbrev pub rest_of : Memoria B → ℕ → ℕ → ℕ
  rest_of m pid j = total j (remove pid m.memoria_procesos)

  pub IsValid-Owns :
      (m : Memoria B) (pid : ℕ) (p : Proceso)
      → IsValid m
      → get pid m.memoria_procesos ≡ some p
      → Owns B (rest_of m pid) p.pages m.bit_map
  IsValid-Owns m pid p v e = record {
    exact = λ j hj. ground (arith, v.exact j hj, total-remove j pid p m.memoria_procesos e);
    inside =
        All-get (λ e. All (λ f. f < max_bit m.bit_map) (e.1).pages) pid p m.memoria_procesos e
          v.inside;
  }

  con_paginas-IsValid :
      (m : Memoria B) (p : Proceso) (pages : List ℕ) (bits : Bits)
      → IsValid m
      → get p.pid m.memoria_procesos ≡ some p
      → max_bit bits ≡ max_bit m.bit_map
      → Owns B (rest_of m p.pid) pages bits
      → IsValid (con_paginas m p pages bits)
  unfolding con_paginas
  con_paginas-IsValid m p pages bits v e same o = record {
    exact = λ j hj. ground (
      arith,
      o.exact j hj,
      total-remove j p.pid p m.memoria_procesos e,
      total-put j p.pid p (record p { pages = pages }) m.memoria_procesos e,
    );
    inside =
        All-put (λ e. All (λ f. f < max_bit bits) (e.1).pages) p.pid (record p { pages = pages })
          m.memoria_procesos o.inside (rw same v.inside);
    keyed =
        All-put (λ e. (e.1).pid ≡ e.0) p.pid (record p { pages = pages }) m.memoria_procesos refl
          v.keyed;
    room = rw same v.room;
    page_pos = v.page_pos;
  }

  -- What a request that moves frames returns: no fault, and a valid memory.
  pub record Served (r : Option (Memoria B × OpCode)) (m : Memoria B) : Type 0 where
    pub next : Memoria B
    pub code : OpCode
    pub returns : r ≡ some (next, code)
    pub valid : IsValid next
    pub page_size_kept : next.page_size ≡ m.page_size
    pub usuario_kept : next.memoria_usuario ≡ m.memoria_usuario

  ampliar-Served :
      (m : Memoria B) (p : Proceso) (pages : ℕ)
      → IsValid m
      → get p.pid m.memoria_procesos ≡ some p
      → Served (ampliar m p pages) m
  unfolding ampliar
  ampliar-Served m p pages v e =
      let r : OpCode × List ℕ × Bits = resize_up B pages p.pages m.bit_map in
      record {
        next = con_paginas m p r.1 r.2;
        code = r.0;
        returns = refl;
        valid = con_paginas-IsValid m p r.1 r.2 v e (max_bit-resize_up B pages p.pages m.bit_map) (
            resize_up-Owns B (rest_of m p.pid) pages p.pages m.bit_map
              (IsValid-Owns m p.pid p v e));
        page_size_kept = unfold con_paginas in refl;
        usuario_kept = unfold con_paginas in refl;
      }

  reducir-Served :
      (m : Memoria B) (p : Proceso) (pages : ℕ)
      → IsValid m
      → get p.pid m.memoria_procesos ≡ some p
      → Served (reducir m p pages) m
  unfolding reducir
  reducir-Served m p pages v e =
      let s =
        resize_down-Shrunk B (rest_of m p.pid) pages p.pages m.bit_map
          (IsValid-Owns m p.pid p v e) in
      record {
        next = con_paginas m p s.kept s.bits;
        code = OpCode.mem_success;
        returns = rw (s.returns, reducir);
        valid = con_paginas-IsValid m p s.kept s.bits v e s.same_size s.owned;
        page_size_kept = unfold con_paginas in refl;
        usuario_kept = unfold con_paginas in refl;
      }

  pub own_key :
      (m : Memoria B) (pid : ℕ) (p : Proceso)
      → IsValid m
      → get pid m.memoria_procesos ≡ some p
      → get p.pid m.memoria_procesos ≡ some p
  own_key m pid p v e =
      let key : p.pid ≡ pid = All-get (λ e. (e.1).pid ≡ e.0) pid p m.memoria_procesos e v.keyed in
      ap (λ k. get k m.memoria_procesos) key ∙ e

  intacta : (m : Memoria B) → IsValid m → Served (some (m, OpCode.mem_success)) m
  intacta m v = record {
    next = m;
    code = OpCode.mem_success;
    returns = refl;
    valid = v;
    page_size_kept = refl;
    usuario_kept = refl;
  }

  -- In a valid memory, a resize of a process that exists returns, and leaves a valid memory with
  -- the same page size and the same bytes.
  pub redimensionar-IsValid :
      (m : Memoria B) (pid new_size : ℕ) (p : Proceso)
      → IsValid m
      → get pid m.memoria_procesos ≡ some p
      → Served (redimensionar m pid new_size) m
  unfolding redimensionar
  redimensionar-IsValid m pid new_size p v e =
      rw (e, redimensionar)
        (elim (Bool-cases (ltb (length p.pages) needed)) [
          | inl grow ↦ rw grow (elim (Bool-cases (ltb (needed - length p.pages) 0x8000_0000)) [
            | inl fits ↦
                rw fits (ampliar-Served m p (needed - length p.pages) v (own_key m pid p v e))
            | inr large ↦ rw large (intacta m v)
          ])
          | inr keep ↦ rw keep (elim (Bool-cases (ltb needed (length p.pages))) [
            | inl shrink ↦
                rw shrink (reducir-Served m p (length p.pages - needed) v (own_key m pid p v e))
            | inr same ↦ rw same (intacta m v)
          ])
        ])
    where
      needed : ℕ
      needed = ceil_div new_size m.page_size

  -- The process that `liberar` ends: its entry goes, and with it its frames.
  pub record Freed (r : Option (Memoria B)) (m : Memoria B) (pid : ℕ) : Type 0 where
    pub next : Memoria B
    pub returns : r ≡ some next
    pub valid : IsValid next
    pub entries : next.memoria_procesos ≡ remove pid m.memoria_procesos

  -- In a valid memory, the end of a process that exists returns, and leaves a valid memory whose
  -- dictionary is the old one without the process.
  pub liberar-IsValid :
      (m : Memoria B) (pid : ℕ) (p : Proceso)
      → IsValid m
      → get pid m.memoria_procesos ≡ some p
      → Freed (liberar m pid) m pid
  unfolding liberar
  liberar-IsValid m pid p v e =
      let s =
        resize_down-Shrunk B (rest_of m pid) (length p.pages) p.pages m.bit_map
          (IsValid-Owns m pid p v e) in
      let none_kept : s.kept ≡ [] = s.front ∙ take_zero p.pages in
      record {
        next = record m { bit_map = s.bits; memoria_procesos = remove pid m.memoria_procesos };
        returns = rw (e, liberar, s.returns);
        valid = record {
          exact = λ j hj. ground (arith, s.owned.exact j hj, none_kept);
          inside =
              All-remove (λ e. All (λ f. f < max_bit s.bits) (e.1).pages) pid m.memoria_procesos
                (rw s.same_size v.inside);
          keyed = All-remove (λ e. (e.1).pid ≡ e.0) pid m.memoria_procesos v.keyed;
          room = rw s.same_size v.room;
          page_pos = v.page_pos;
        };
        entries = refl;
      }

  -- A new process has no frame yet.
  pub alta-IsValid :
      (m : Memoria B) (pid : ℕ) (file : List (List ℕ))
      → IsValid m
      → get pid m.memoria_procesos ≡ none
      → IsValid (alta m pid file)
  unfolding alta
  alta-IsValid m pid file v e =
      let p : Proceso = record { pid = pid; file = file; pages = [] } in
      record {
        exact = λ j hj. ground (arith, v.exact j hj, total-put_new j pid p m.memoria_procesos e);
        inside =
            All-put (λ e. All (λ f. f < max_bit m.bit_map) (e.1).pages) pid p m.memoria_procesos tt
              v.inside;
        keyed = All-put (λ e. (e.1).pid ≡ e.0) pid p m.memoria_procesos refl v.keyed;
        room = v.room;
        page_pos = v.page_pos;
      }
