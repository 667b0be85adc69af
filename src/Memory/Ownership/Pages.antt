-- ===== src/Memory/Ownership/Pages.antt =====
-- What a resize leaves in the page table, on every branch: the pages of the process, those of the others,
-- and the answer.
use so_project_c.Common.{
  ℕ, ◌-◌, ◌≡◌, ap, Option, some, List, ◌++◌, arith, ltb, ◌==◌, if◌then◌else◌, length, Bool-cases,
  inl, inr, take, take_all, true, ◌+◌, ◌<◌, false, refl,
}
use so_project_c.Common.BitArray.{BitArray, free_from}
use so_project_c.Common.Dict.{get, get-put}
use so_project_c.Protocol.Codes.{OpCode}
use so_project_c.Memory.Frames.{resize_up}
use so_project_c.Memory.Frames.FirstFit.{resize_up-first_fit}
use so_project_c.Memory.Frames.Shrink.{resize_down-Shrunk}
use so_project_c.Memory.State.{
  Memoria, Proceso, con_paginas, ampliar, reducir, redimensionar, ceil_div,
}
use so_project_c.Memory.Ownership.{IsValid, All-get}
use so_project_c.Memory.Ownership.Resize.{own_key, IsValid-Owns, rest_of}

module _ {B : BitArray} where
  open B use {max_bit}

  abbrev pub libres : Memoria B → List ℕ
  libres m = free_from B (max_bit m.bit_map) 0 m.bit_map

  -- The page list for `needed` pages: the lowest free frames behind the present ones, or the first of them.
  abbrev pub paginas : Memoria B → Proceso → ℕ → List ℕ
  paginas m p needed =
      if ltb (length p.pages) needed
      then p.pages ++ take (needed - length p.pages) (libres m)
      else take needed p.pages

  abbrev pub respuesta : Memoria B → Proceso → ℕ → OpCode
  respuesta m p needed =
      if ltb (length (libres m)) (needed - length p.pages)
      then OpCode.mem_error
      else OpCode.mem_success

  pub record Redimensionado (m : Memoria B) (pid needed : ℕ) (p : Proceso)
      (r : Option (Memoria B × OpCode)) : Type 0 where
    pub next : Memoria B
    pub returns : r ≡ some (next, respuesta m p needed)
    pub table :
        (q : ℕ)
        → get q next.memoria_procesos ≡ (
            if pid == q
            then some (record p { pages = paginas m p needed })
            else get q m.memoria_procesos)

  table_con_paginas :
      (m : Memoria B) (pid q : ℕ) (p : Proceso) (pages l : List ℕ) (bits : B.Bits)
      → p.pid ≡ pid
      → pages ≡ l
      → get q (con_paginas m p pages bits).memoria_procesos
        ≡ (if pid == q then some (record p { pages = l }) else get q m.memoria_procesos)
  unfolding con_paginas
  table_con_paginas m pid q p pages l bits e e' =
      ground (arith, get-put p.pid q (record p { pages = pages }) m.memoria_procesos)

  crece :
      (m : Memoria B) (pid needed : ℕ) (p : Proceso)
      → p.pid ≡ pid
      → ltb (length p.pages) needed ≡ true
      → Redimensionado m pid needed p (ampliar m p (needed - length p.pages))
  unfolding ampliar
  crece m pid needed p key grow =
      let fit = resize_up-first_fit B (needed - length p.pages) p.pages m.bit_map in
      let r = resize_up B (needed - length p.pages) p.pages m.bit_map in
      record {
        next = con_paginas m p r.1 r.2;
        returns = ap (λ c. some (con_paginas m p r.1 r.2, c)) fit.1;
        table = λ q.
            table_con_paginas m pid q p r.1 (paginas m p needed) r.2 key
              (ground (arith, fit.0, grow));
      }

  achica :
      (m : Memoria B) (pid needed : ℕ) (p : Proceso)
      → IsValid m
      → get p.pid m.memoria_procesos ≡ some p
      → p.pid ≡ pid
      → ltb needed (length p.pages) ≡ true
      → Redimensionado m pid needed p (reducir m p (length p.pages - needed))
  unfolding reducir
  achica m pid needed p v own key shrink =
      let s =
        resize_down-Shrunk B (rest_of m p.pid) (length p.pages - needed) p.pages m.bit_map
          (IsValid-Owns m p.pid p v own) in
      let n : length p.pages - (length p.pages - needed) ≡ needed = ground arith in
      let ok : respuesta m p needed ≡ OpCode.mem_success = ground arith in
      record {
        next = con_paginas m p s.kept s.bits;
        returns = rw (s.returns, reducir, ok);
        table = λ q.
            table_con_paginas m pid q p s.kept (paginas m p needed) s.bits key
              (ground (arith, s.front, n));
      }

  igual :
      (m : Memoria B) (pid needed : ℕ) (p : Proceso)
      → get pid m.memoria_procesos ≡ some p
      → length p.pages ≡ needed
      → Redimensionado m pid needed p (some (m, OpCode.mem_success))
  igual m pid needed p e n =
      let ok : respuesta m p needed ≡ OpCode.mem_success = ground arith in
      let all : paginas m p needed ≡ p.pages = ground (arith, take_all p.pages) in
      record { next = m; returns = rw ok; table = λ q. ground (arith, e, all) }

  -- More pages than an `int` counts are not given.
  pub redimensionar_demasiado :
      (m : Memoria B) (pid new_size : ℕ) (p : Proceso)
      → get pid m.memoria_procesos ≡ some p
      → ltb (ceil_div new_size m.page_size) (length p.pages + 0x8000_0000) ≡ false
      → redimensionar m pid new_size ≡ some (m, OpCode.mem_success)
  unfolding redimensionar
  redimensionar_demasiado m pid new_size p e many =
      let needed = ceil_div new_size m.page_size in
      let grow : ltb (length p.pages) needed ≡ true = ground (arith, many) in
      let large : ltb (needed - length p.pages) 0x8000_0000 ≡ false = ground (arith, many) in
      rw (e, redimensionar, grow, large) refl

  -- In a valid memory, a resize of a process that exists to new_size bytes, for which it needs
  -- fewer than 2^31 pages more, returns, and makes its
  -- page list the one for new_size divided by the page size, rounded up: the old pages and then
  -- the lowest free frames, or the first of the old pages. The lists of the other processes stay.
  -- The answer is MEM_ERROR exactly when the free frames do not suffice; the process then has them
  -- all.
  pub redimensionar-paginas :
      (m : Memoria B) (pid new_size : ℕ) (p : Proceso)
      → IsValid m
      → get pid m.memoria_procesos ≡ some p
      → ceil_div new_size m.page_size < length p.pages + 0x8000_0000
      → Redimensionado m pid (ceil_div new_size m.page_size) p (redimensionar m pid new_size)
  unfolding redimensionar
  redimensionar-paginas m pid new_size p v e fits =
      rw (e, redimensionar)
        (elim (Bool-cases (ltb (length p.pages) needed)) [
          | inl grow ↦ rw (grow, pocas grow) (crece m pid needed p key grow)
          | inr keep ↦ rw keep (elim (Bool-cases (ltb needed (length p.pages))) [
            | inl shrink ↦ rw shrink (achica m pid needed p v (own_key m pid p v e) key shrink)
            | inr same ↦ rw same (igual m pid needed p e (ground arith))
          ])
        ])
    where
      needed : ℕ
      needed = ceil_div new_size m.page_size

      pocas : ltb (length p.pages) needed ≡ true → ltb (needed - length p.pages) 0x8000_0000 ≡ true
      pocas grow = ground (arith, grow, fits)

      key : p.pid ≡ pid
      key = All-get (λ e. (e.1).pid ≡ e.0) pid p m.memoria_procesos e v.keyed
