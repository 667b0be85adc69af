-- ===== src/Memory/Tests.antt =====
-- A memory of four frames of four bytes, with two processes: what the theorems say of it.
use so_project_c.Common.{
  ℕ, zero, suc, ◌+◌, ◌*◌, ◌≤◌, ◌<◌, ◌≡◌, refl, ◌≢◌, inl, inr, Option, none, some, List, [], ◌∷◌,
  ◌++◌, arith, not, ◌==◌, Bool, true, false, length, get_elem?, if◌then◌else◌, ltb, take, bytes_u32,
  IsText, All, map, stored,
}
use so_project_c.Common.BitArray.{indexed_bits, bit, free_from}
use so_project_c.Common.Dict.{get}
use so_project_c.Protocol.Codes.{OpCode}
use so_project_c.Protocol.Packet.{enviar_paquete}
use so_project_c.Protocol.Receive.{llega, recibir_paquete, tras_operacion}
use so_project_c.Protocol.Mem.{paquete_dos_uint}
use so_project_c.Memory.Frames.{resize_up}
use so_project_c.Memory.Frames.FirstFit.{resize_up-first_fit}
use so_project_c.Memory.State.{
  inicial, Memoria, Proceso, ceil_div, redimensionar, liberar, marco, escribir,
}
use so_project_c.Memory.Scripts.{Entorno, leer_texto, leer_lineas, enviar_instruccion}
use so_project_c.Memory.Scripts.Reading.{leer_texto_lem, leer_lineas_stuck}
use so_project_c.Memory.Ownership.{IsValid, total}
use so_project_c.Memory.Ownership.Resize.{Served, Freed, redimensionar-IsValid, liberar-IsValid}
use so_project_c.Memory.Ownership.Addresses.{Escrita, escribir-Escrita, escribir_aislada}
use so_project_c.Memory.Ownership.Pages.{Redimensionado, redimensionar-paginas}
use so_project_c.Memory.Server.{atender}
use so_project_c.Memory.Server.Runs.{paso, fin, alcanzable-IsValid}
use so_project_c.Memory.Server.Invariant.{atender-IsValid}
use so_project_c.Memory.Server.Replies.{recibir_paquete-enviar_instruccion}

abbrev pub siete : Proceso
siete = record { pid = 7; file = []; pages = 2 ∷ 0 ∷ [] }

abbrev bits : ℕ × (ℕ → Bool)
bits = (4, λ j. not (j == 1))

abbrev pub memoria_4 : Memoria indexed_bits
memoria_4 = record {
  page_size = 4;
  bit_map = bits;
  memoria_usuario = 0 ∷ 1 ∷ 2 ∷ 3 ∷ 4 ∷ 5 ∷ 6 ∷ 7 ∷ 8 ∷ 9 ∷ 10 ∷ 11 ∷ 12 ∷ 13 ∷ 14 ∷ 15 ∷ [];
  memoria_procesos = (7, siete) ∷ (8, record { pid = 8; file = []; pages = 3 ∷ [] }) ∷ [];
}

exact_4 : (j : ℕ) → j < 4 → bit indexed_bits bits j ≡ total j memoria_4.memoria_procesos
exact_4 zero h = refl
exact_4 (suc zero) h = refl
exact_4 (suc (suc zero)) h = refl
exact_4 (suc (suc (suc zero))) h = refl
exact_4 (suc (suc (suc (suc j)))) h = absurd (omega arith)

pub valida_4 : IsValid memoria_4
valida_4 = record {
  exact = exact_4;
  inside = ((omega arith, (omega arith, tt)), ((omega arith, tt), tt));
  keyed = (refl, (refl, tt));
  room = omega arith;
  page_pos = omega arith;
}

abbrev entorno : Entorno
entorno = record { path_scripts = []; fopen = λ s. none; string_split = λ s sep. s ∷ [] }

abbrev despues : Memoria indexed_bits × List ℕ × List ℕ
despues =
    elim (atender entorno (some OpCode.mem_resize) memoria_4
      (bytes_u32 8 ++ (bytes_u32 8 ++ bytes_u32 12))) [ none ↦ (memoria_4, [], []) | some r ↦ r ]

atiende :
    atender entorno
      (some OpCode.mem_resize)
      memoria_4
      (bytes_u32 8 ++ (bytes_u32 8 ++ bytes_u32 12))
    ≡ some despues
unfolding atender so_project_c.Memory.Server.resize_process
    so_project_c.Protocol.Mem.recibir_pid_con_uint32 so_project_c.Protocol.Mem.leer_pid_con_uint32
    so_project_c.Protocol.Receive.from_buffer so_project_c.Protocol.Receive.recibir_buffer
    redimensionar so_project_c.Memory.State.con_paginas so_project_c.Memory.State.ampliar
    so_project_c.Memory.State.reducir get so_project_c.Common.Dict.put resize_up
    so_project_c.Memory.Frames.resize_up_loop so_project_c.Common.read_u32
    so_project_c.Common.read_bytes
atiende = refl

atender-IsValid_example : IsValid despues.0
atender-IsValid_example =
    atender-IsValid entorno (some OpCode.mem_resize) memoria_4
      (bytes_u32 8 ++ (bytes_u32 8 ++ bytes_u32 12)) valida_4 tt atiende

siete_1 : marco memoria_4 7 1 ≡ some (some 0)
unfolding marco get
siete_1 = refl

ocho_0 : marco memoria_4 8 0 ≡ some (some 3)
unfolding marco get
ocho_0 = refl

abbrev escrita : Memoria indexed_bits
escrita = record memoria_4 {
  memoria_usuario = 0 ∷ 90 ∷ 91 ∷ 3 ∷ 4 ∷ 5 ∷ 6 ∷ 7 ∷ 8 ∷ 9 ∷ 10 ∷ 11 ∷ 12 ∷ 13 ∷ 14 ∷ 15 ∷ [];
}

escribe : escribir memoria_4 1 (90 ∷ 91 ∷ []) ≡ some escrita
unfolding escribir so_project_c.Common.Memcpy.copy_to
escribe = refl

distintos : ◌≢◌ {A = ℕ} 7 8
distintos e = absurd (omega arith)

escribir_aislada_example :
    get_elem? escrita.memoria_usuario 14 ≡ get_elem? memoria_4.memoria_usuario 14
escribir_aislada_example =
    escribir_aislada memoria_4 escrita 7 1 0 1 (90 ∷ 91 ∷ []) 8 0 3 2 valida_4 siete_1 (omega arith)
      escribe ocho_0 (inl distintos) (omega arith)

escribir-Escrita_example : Escrita memoria_4 1 (90 ∷ 91 ∷ [])
escribir-Escrita_example =
    escribir-Escrita memoria_4 7 1 0 1 (90 ∷ 91 ∷ []) valida_4 siete_1 (omega arith)

pub esta_siete : get 7 memoria_4.memoria_procesos ≡ some siete
unfolding get
esta_siete = refl

redimensionar-paginas_example :
    Redimensionado memoria_4 7 (ceil_div 3 4) siete (redimensionar memoria_4 7 3)
redimensionar-paginas_example =
    redimensionar-paginas memoria_4 7 3 siete valida_4 esta_siete (omega arith)

redimensionar-IsValid_example : Served (redimensionar memoria_4 7 16) memoria_4
redimensionar-IsValid_example = redimensionar-IsValid memoria_4 7 16 siete valida_4 esta_siete

liberar-IsValid_example : Freed (liberar memoria_4 7) memoria_4 7
liberar-IsValid_example = liberar-IsValid memoria_4 7 siete valida_4 esta_siete

resize_up-first_fit_example :
    ((resize_up indexed_bits 2 (5 ∷ []) bits).1
      ≡ (5 ∷ []) ++ take 2 (free_from indexed_bits 4 0 bits))
    × ((resize_up indexed_bits 2 (5 ∷ []) bits).0 ≡ (
        if ltb (length (free_from indexed_bits 4 0 bits)) 2
        then OpCode.mem_error
        else OpCode.mem_success))
resize_up-first_fit_example = resize_up-first_fit indexed_bits 2 (5 ∷ []) bits

abbrev guion : List ℕ
guion = 69 ∷ 88 ∷ 10 ∷ 73 ∷ []

guion-IsText : IsText guion
guion-IsText = (
  (omega arith, omega arith),
  ((omega arith, omega arith), ((omega arith, omega arith), ((omega arith, omega arith), tt))),
)

cuatro_bytes : length guion ≢ 1
cuatro_bytes e = absurd (omega arith)

leer_texto_lem_example : leer_texto guion ≡ some guion
leer_texto_lem_example = leer_texto_lem guion guion-IsText (omega arith) cuatro_bytes

leer_lineas_stuck_example : leer_lineas 100 1 (69 ∷ []) [] ≡ none
leer_lineas_stuck_example = leer_lineas_stuck 100 (69 ∷ []) []

recibir_paquete-enviar_instruccion_example :
    tras_operacion recibir_paquete
      (enviar_paquete (enviar_instruccion ((83 ∷ 69 ∷ 84 ∷ []) ∷ (65 ∷ 88 ∷ []) ∷ [])) ++ (1 ∷ []))
    ≡ some ((llega 2, (83 ∷ 69 ∷ 84 ∷ 0 ∷ []) ∷ (65 ∷ 88 ∷ 0 ∷ []) ∷ []), 1 ∷ [])
recibir_paquete-enviar_instruccion_example =
    recibir_paquete-enviar_instruccion ((83 ∷ 69 ∷ 84 ∷ []) ∷ (65 ∷ 88 ∷ []) ∷ []) (1 ∷ [])
      (omega arith) (omega arith, (omega arith, tt))

-- 32 pages of four bytes, all free at the start; then one question for the page size.
abbrev libre : ℕ × (ℕ → Bool)
libre = (32, λ j. false)

abbrev al_inicio : Memoria indexed_bits
al_inicio = inicial {B = indexed_bits} 131 4 libre

pregunta :
    atender entorno (some OpCode.mem_page_size) al_inicio [] ≡ some (al_inicio, bytes_u32 4, [])
unfolding atender
pregunta = refl

alcanzable-IsValid_example : IsValid al_inicio
alcanzable-IsValid_example =
    alcanzable-IsValid entorno 131 4 libre al_inicio (omega arith) refl (λ j hj. refl)
      (paso (some OpCode.mem_page_size) al_inicio [] (al_inicio, bytes_u32 4, []) al_inicio tt
        pregunta (fin al_inicio))
