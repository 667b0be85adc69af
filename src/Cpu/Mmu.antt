-- ===== src/Cpu/Mmu.antt =====
-- cpu/src/mmu.c: `mmu`. `pid_page` is what the memory process answers to MEM_PID_PAGE, where `none` is MEM_ERROR.
-- All sums and products are of `uint32_t`. A page size of zero, on which the code divides, is left out.
pub mod Addresses
pub mod Translate
use so_project_c.Common.{
  ℕ, zero, suc, ◌+◌, ◌-◌, ◌*◌, ◌/◌, ◌%◌, Option, none, some, List, [], ◌∷◌, leb, if◌then◌else◌,
  u32_mod,
}
use so_project_c.Protocol.Codes.{PidStatus}
use so_project_c.Protocol.Io.{MemoriaFisica}
use so_project_c.Cpu.Tlb.{Config, Tlb, find_tlb, add_tlb}

-- How much of the access lies in the first page.
abbrev pub en_pagina : ℕ → ℕ → ℕ → ℕ
en_pagina page_size desplazamiento size =
    if leb ((desplazamiento + size) % u32_mod) page_size then size else page_size - desplazamiento

module _ (c : Config) (page_size : ℕ) (pid_page : ℕ → ℕ → Option ℕ) (pid : ℕ) where
  -- A miss of the TLB is a question to the memory; `some (none, t)` is its error.
  pub consultar : Option ℕ → Tlb → ℕ → Option (Option ℕ × Tlb)
  consultar (some marco) t pagina = some (some marco, t)
  consultar none t pagina = elim (pid_page pid pagina) [
    | none ↦ some (none, t)
    | some marco ↦ elim (add_tlb c t pid pagina marco) [
      | none ↦ none
      | some t' ↦ some (some marco, t')
    ]
  ]

  pub obtener_marco : Tlb → ℕ → Option (Option ℕ × Tlb)
  unfolding consultar
  obtener_marco t pagina = let (hit, t') = find_tlb c t pid pagina in consultar hit t' pagina

  -- The frames that one call appends to the list of its caller. Every call but the last takes a byte at least
  -- from `size`, so `size + 1` calls are enough.
  pub mmu : ℕ → Tlb → ℕ → ℕ → Option (PidStatus × List MemoriaFisica × Tlb)
  mmu zero t direccion_logica size = none
  mmu (suc fuel) t direccion_logica size =
      let pagina = direccion_logica / page_size in
      let desplazamiento = direccion_logica - pagina * page_size in
      let bytes = en_pagina page_size desplazamiento size in
      elim (obtener_marco t pagina) [
        | none ↦ none
        | some (none, t') ↦ some (PidStatus.error, [], t')
        | some (some marco, t') ↦
            let frame : MemoriaFisica = record {
              direccion_fisica = (marco * page_size + desplazamiento) % u32_mod;
              bytes = bytes;
            } in
            elim (size - bytes) [
              | zero ↦ some (PidStatus.running, frame ∷ [], t')
              | suc left ↦ elim (mmu fuel t' ((pagina + 1) * page_size % u32_mod) (suc left)) [
                | none ↦ none
                | some (status, frames, t'') ↦ some (status, frame ∷ frames, t'')
              ]
            ]
      ]
