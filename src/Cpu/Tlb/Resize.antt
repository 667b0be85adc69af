-- ===== src/Cpu/Tlb/Resize.antt =====
-- cpu/src/instructions.c, `resize_process`, against memoria/src/usuario.c, `resize_process`: what the CPU
-- invalidates covers what the memory takes away.
use so_project_c.Common.{
  ℕ, zero, suc, ◌≤◌, ◌<◌, ◌≡◌, sym, ap, ◌∙◌, Option, none, some, List, [], ◌∷◌, ◌++◌, ltb, ◌==◌,
  if◌then◌else◌, length, arith, Option-cases, Bool-cases, inl, inr, All, some_eq, take, get_elem?,
  ◌+◌,
}
use mathlib.Core.Path.{subst}
use so_project_c.Common.BitArray.{BitArray}
use so_project_c.Common.Dict.{get}
use so_project_c.Protocol.Codes.{OpCode}
use so_project_c.Memory.State.{Memoria, Proceso, ceil_div, redimensionar, marco}
use so_project_c.Memory.Ownership.{IsValid}
use so_project_c.Memory.Ownership.Pages.{paginas, redimensionar-paginas, redimensionar_demasiado}
use so_project_c.Cpu.Tlb.{Entrada, Config, Tlb, modify_tlb_on_resize}
use so_project_c.Cpu.Tlb.Bounded.{IsBounded}
use so_project_c.Cpu.Tlb.Coherence.{Agrees, Coherent, Keeps, modify-Agrees}

get_elem?-append : (l r : List ℕ) (j f : ℕ) → get_elem? l j ≡ some f → get_elem? (l ++ r) j ≡ some f
get_elem?-append [] r j f e = absurd (ground arith)
get_elem?-append (x ∷ l) r zero f e = e
get_elem?-append (x ∷ l) r (suc j) f e = get_elem?-append l r j f e

get_elem?-take :
    (n : ℕ) (l : List ℕ) (j f : ℕ)
    → get_elem? l j ≡ some f
    → j < n
    → get_elem? (take n l) j ≡ some f
get_elem?-take zero l j f e h = absurd (omega arith)
get_elem?-take (suc n) [] j f e h = absurd (ground arith)
get_elem?-take (suc n) (x ∷ l) zero f e h = e
get_elem?-take (suc n) (x ∷ l) (suc j) f e h = get_elem?-take n l j f e (omega arith)

get_elem?-lt : (l : List ℕ) (j f : ℕ) → get_elem? l j ≡ some f → j < length l
get_elem?-lt [] j f e = absurd (ground arith)
get_elem?-lt (x ∷ l) zero f e = omega arith
get_elem?-lt (x ∷ l) (suc j) f e = omega (arith, get_elem?-lt l j f e)

no_entries : (P : Entrada → Type 0) (l : List Entrada) → length l ≡ 0 → All P l
no_entries P [] e = tt
no_entries P (x ∷ l) e = absurd (omega arith)

module _ {B : BitArray} where
  -- The page tables of the memory, as `get_pid_page` shows them.
  abbrev pub tabla_de : Memoria B → ℕ → ℕ → Option ℕ
  tabla_de m q j = elim (marco m q j) [ none ↦ none | some frame ↦ frame ]

  page_kept :
      (m : Memoria B) (p : Proceso) (needed j f : ℕ)
      → get_elem? p.pages j ≡ some f
      → j < needed
      → get_elem? (paginas m p needed) j ≡ some f
  page_kept m p needed j f e h = elim (Bool-cases (ltb (length p.pages) needed)) [
    | inl grow ↦ rw grow (get_elem?-append p.pages _ j f e)
    | inr keep ↦ rw keep (get_elem?-take needed p.pages j f e h)
  ]

  tables_kept :
      (m m' : Memoria B) (pid needed : ℕ) (p : Proceso)
      → get pid m.memoria_procesos ≡ some p
      → length p.pages ≤ 0x8000_0000
      → ((q : ℕ)
          → get q m'.memoria_procesos ≡ (
              if pid == q
              then some (record p { pages = paginas m p needed })
              else get q m.memoria_procesos))
      → Keeps (tabla_de m) (tabla_de m') pid needed
  unfolding marco
  tables_kept m m' pid needed p found short table q j f e kept =
      elim (Option-cases (get q m.memoria_procesos)) [
        | inl missing ↦ absurd (ground (arith, missing))
        | inr (r, here) ↦
            ground (arith, table q, here, found, get_elem?-lt p.pages j f, page_kept m p needed j f)
      ]

  -- No page that fits the new size is taken away, also where the memory does nothing.
  redimensionar-Keeps :
      (m : Memoria B) (pid new_size : ℕ) (p : Proceso) {m' : Memoria B} {code : OpCode}
      → IsValid m
      → get pid m.memoria_procesos ≡ some p
      → length p.pages ≤ 0x8000_0000
      → redimensionar m pid new_size ≡ some (m', code)
      → Keeps (tabla_de m) (tabla_de m') pid (ceil_div new_size m.page_size)
  redimensionar-Keeps m pid new_size p {m'} v found short e =
      let needed = ceil_div new_size m.page_size in
      elim (Bool-cases (ltb needed (length p.pages + 0x8000_0000))) [
        | inl few ↦
            let r = redimensionar-paginas m pid new_size p v found (ground (arith, few)) in
            let same : r.next ≡ m' = ap (λ x. x.0) (some_eq (sym r.returns ∙ e)) in
            tables_kept m m' pid needed p found short (rw same at r.table)
        | inr many ↦
            let same : m ≡ m' =
              ap (λ x. x.0)
                (some_eq (sym (redimensionar_demasiado m pid new_size p found many) ∙ e)) in
            subst (λ x. Keeps (tabla_de m) (tabla_de x) pid needed) same (λ q j f here kept. here)
      ]

  -- Let a TLB within its bounds agree with the page tables of a valid memory, and let a process
  -- with at most 2^31 pages be resized, with any answer. Then the TLB that the CPU has adapted to
  -- the new size agrees with the new page tables: no valid entry names a page that was taken away.
  pub modify_tlb_on_resize-Coherent :
      (c : Config) (t : Tlb) (m : Memoria B) (pid new_size : ℕ) (p : Proceso) {m' : Memoria B}
      {code : OpCode}
      → IsBounded c t
      → Coherent (tabla_de m) t
      → IsValid m
      → get pid m.memoria_procesos ≡ some p
      → length p.pages ≤ 0x8000_0000
      → redimensionar m pid new_size ≡ some (m', code)
      → Coherent (tabla_de m') (modify_tlb_on_resize c m.page_size t new_size pid)
  unfolding modify_tlb_on_resize
  modify_tlb_on_resize-Coherent c t m pid new_size p {m'} {code} b h v found short e =
      elim (Bool-cases (ltb c.numero_entradas 1)) [
        | inl off ↦ rw off (
            no_entries (λ x. Agrees (tabla_de m') x) t.entries (ground (arith, b.counted, b.limit)))
        | inr on ↦ rw on (
            modify-Agrees (tabla_de m) (tabla_de m') pid (ceil_div new_size m.page_size) t.entries
              (redimensionar-Keeps m pid new_size p v found short e) h)
      ]
