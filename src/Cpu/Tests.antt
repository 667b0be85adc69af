-- ===== src/Cpu/Tests.antt =====
-- A CPU with a TLB of two entries, at the memory of four frames.
use so_project_c.Common.{
  ℕ, zero, suc, ◌+◌, ◌*◌, ◌≤◌, ◌<◌, ◌≡◌, refl, Option, none, some, List, [], ◌∷◌, ◌++◌, arith, true,
  IsText, bytes_u32,
}
use so_project_c.Common.BitArray.{indexed_bits}
use so_project_c.Common.Dict.{get}
use so_project_c.Protocol.Codes.{OpCode, PidStatus, SetInstruction, exit}
use so_project_c.Protocol.Packet.{enviar_paquete}
use so_project_c.Protocol.Receive.{llega, tras_operacion}
use so_project_c.Protocol.Pcb.{Pcb}
use so_project_c.Protocol.Io.{MemoriaFisica, recibir_io}
use so_project_c.Protocol.Io.Trip.{pedido, frames_bytes}
use so_project_c.Protocol.Io.Files.{truncate_bytes, read_write_bytes}
use so_project_c.Memory.State.{Memoria, Proceso, marco, redimensionar}
use so_project_c.Memory.Tests.{memoria_4, siete, valida_4, esta_siete}
use so_project_c.Cpu.Tlb.{Entrada, Config, Tlb, find_tlb, add_tlb, modify_tlb_on_resize}
use so_project_c.Cpu.Tlb.Bounded.{IsBounded, Added, add_tlb-Added}
use so_project_c.Cpu.Tlb.Coherence.{Coherent}
use so_project_c.Cpu.Tlb.Resize.{tabla_de, modify_tlb_on_resize-Coherent}
use so_project_c.Cpu.Mmu.{mmu}
use so_project_c.Cpu.Mmu.Translate.{Traducida, mmu-Traducida}
use so_project_c.Cpu.Registers.{
  r_pc, r_ax, r_eax, resta, nombre, poner, operar_registros, jnz_register,
}
use so_project_c.Cpu.Registers.Ranges.{IsRegistros, registros-IsRegistros}
use so_project_c.Cpu.Decode.{texto}
use so_project_c.Cpu.Requests.{
  paquete_io, paquete_truncate_fs, paquete_read_write, paquete_read_write_fs,
}
use so_project_c.Cpu.Requests.Received.{
  recibir_io-paquete_io, recibir_io-paquete_truncate_fs, recibir_io-paquete_read_write,
  recibir_io-paquete_read_write_fs,
}
use so_project_c.Cpu.Service.{servicio_de}
use so_project_c.Cpu.Instructions.{Cpu, Ajustes}

abbrev dos_entradas : Config
dos_entradas = record { numero_entradas = 2; is_lru = true }

abbrev llena : Tlb
llena = record {
  entries =
      record { pid = 7; page = 1; frame = 0; valid = true }
      ∷ record { pid = 7; page = 0; frame = 2; valid = true }
      ∷ [];
  fill_counter = 2;
}

llena-IsBounded : IsBounded dos_entradas llena
llena-IsBounded = record { counted = refl; limit = omega arith }

no_esta : (find_tlb dos_entradas llena 8 0).0 ≡ none
unfolding find_tlb so_project_c.Cpu.Tlb.list_find
no_esta = refl

add_tlb-Added_example : Added dos_entradas llena 8 0 3
add_tlb-Added_example = add_tlb-Added dos_entradas llena 8 0 3 llena-IsBounded (omega arith) no_esta

llena-Coherent : Coherent (tabla_de memoria_4) llena
unfolding marco get
llena-Coherent = (λ v. refl, (λ v. refl, tt))

-- The process of two pages shrinks to one.
abbrev achicada : Memoria indexed_bits × OpCode
achicada = elim (redimensionar memoria_4 7 3) [ none ↦ (memoria_4, OpCode.mem_error) | some r ↦ r ]

se_achica : redimensionar memoria_4 7 3 ≡ some (achicada.0, achicada.1)
unfolding redimensionar so_project_c.Memory.State.con_paginas so_project_c.Memory.State.reducir get
    so_project_c.Memory.Frames.resize_down
se_achica = refl

modify_tlb_on_resize-Coherent_example :
    Coherent (tabla_de achicada.0) (modify_tlb_on_resize dos_entradas 4 llena 3 7)
modify_tlb_on_resize-Coherent_example =
    modify_tlb_on_resize-Coherent dos_entradas llena memoria_4 7 3 siete llena-IsBounded
      llena-Coherent valida_4 esta_siete (omega arith) se_achica

abbrev marcos_de_siete : ℕ → ℕ
marcos_de_siete zero = 2
marcos_de_siete (suc q) = 0

paginas_de_siete :
    (q : ℕ)
    → 2 < q * 4 + 4
    → q * 4 < 2 + 4
    → (tabla_de memoria_4 7 q ≡ some (marcos_de_siete q)) × (marcos_de_siete q * 4 + 4 ≤ 4294967296)
unfolding marco get
paginas_de_siete zero lo hi = (refl, omega arith)
paginas_de_siete (suc zero) lo hi = (refl, omega arith)
paginas_de_siete (suc (suc q)) lo hi = absurd (omega arith)

mmu-Traducida_example :
    Traducida dos_entradas 4
      (tabla_de memoria_4)
      7
      marcos_de_siete
      2
      4
      (mmu dos_entradas 4 (tabla_de memoria_4) 7 5 llena 2 4)
mmu-Traducida_example =
    mmu-Traducida dos_entradas 4 (tabla_de memoria_4) 7 marcos_de_siete 5 llena 2 4 (omega arith)
      (omega arith) (omega arith) (omega arith) (llena-IsBounded, llena-Coherent) paginas_de_siete

abbrev interfaz : List ℕ
interfaz = b'T' ∷ b'1' ∷ []

interfaz-IsText : IsText interfaz
interfaz-IsText = ((omega arith, omega arith), ((omega arith, omega arith), tt))

abbrev dos_frames : List MemoriaFisica
dos_frames =
    record { direccion_fisica = 10; bytes = 2 } ∷ record { direccion_fisica = 0; bytes = 2 } ∷ []

recibir_io-paquete_read_write_example :
    tras_operacion recibir_io (
      enviar_paquete (
        paquete_read_write SetInstruction.io_stdin_read
          (interfaz ∷ (b'A' ∷ b'X' ∷ []) ∷ [])
          4
          dos_frames)
      ++ [])
    ≡ some (
      (
        llega 6,
        (pedido SetInstruction.io_stdin_read (bytes_u32 4 ++ frames_bytes dos_frames), interfaz),
      ),
      [],
    )
recibir_io-paquete_read_write_example =
    recibir_io-paquete_read_write SetInstruction.io_stdin_read interfaz ((b'A' ∷ b'X' ∷ []) ∷ []) 4
      dos_frames [] interfaz-IsText (omega arith) (omega arith)

recibir_io-paquete_read_write_fs_example :
    tras_operacion recibir_io (
      enviar_paquete (
        paquete_read_write_fs SetInstruction.io_fs_write
          (interfaz ∷ (b'f' ∷ []) ∷ [])
          (b'f' ∷ [])
          9
          4
          dos_frames)
      ++ [])
    ≡ some (
      (
        llega 6,
        (pedido SetInstruction.io_fs_write (read_write_bytes (b'f' ∷ []) 9 4 dos_frames), interfaz),
      ),
      [],
    )
recibir_io-paquete_read_write_fs_example =
    recibir_io-paquete_read_write_fs SetInstruction.io_fs_write interfaz ((b'f' ∷ []) ∷ [])
      (b'f' ∷ []) 9 4 dos_frames [] interfaz-IsText (omega arith) (omega arith) (omega arith)

abbrev ajustes : Ajustes
ajustes = record {
  config = dos_entradas;
  page_size = 4;
  pid = 7;
  strtoul = λ s. (0, s);
  malloc = λ n. [];
}

abbrev bloque : Pcb
bloque = record {
  pid = 7;
  pc = 0;
  quantum = 0;
  registers = record {
    pc = 0;
    si = 0;
    di = 0;
    ax = 0;
    bx = 0;
    cx = 0;
    dx = 0;
    eax = 0;
    ebx = 0;
    ecx = 0;
    edx = 0;
  };
  status = PidStatus.running;
  recursos = [];
}

abbrev unidad : Cpu (servicio_de indexed_bits)
unidad = record { registers = bloque.registers; tlb = llena; memoria = memoria_4 }

abbrev guion : Memoria indexed_bits → ℕ → ℕ → Option (List (List ℕ))
guion m pid pc = some (texto exit ∷ [])

bloque-IsRegistros : IsRegistros bloque.registers
bloque-IsRegistros r_pc = omega arith
bloque-IsRegistros r_ax = omega arith
bloque-IsRegistros _ = omega arith

registros-IsRegistros_example :
    IsRegistros (poner ajustes.strtoul (nombre r_ax) (nombre r_eax) bloque.registers)
    × IsRegistros (operar_registros (nombre r_ax) (nombre r_eax) resta bloque.registers)
    × IsRegistros (jnz_register ajustes.strtoul (nombre r_ax) (nombre r_eax) bloque.registers)
registros-IsRegistros_example =
    registros-IsRegistros ajustes.strtoul (nombre r_ax) (nombre r_eax) resta bloque.registers
      bloque-IsRegistros

recibir_io-paquete_io_example :
    tras_operacion recibir_io
      (enviar_paquete (paquete_io SetInstruction.io_gen_sleep (interfaz ∷ (b'9' ∷ []) ∷ [])) ++ [])
    ≡ some ((llega 6, (pedido SetInstruction.io_gen_sleep (b'9' ∷ 0 ∷ []), interfaz)), [])
recibir_io-paquete_io_example =
    recibir_io-paquete_io SetInstruction.io_gen_sleep interfaz (b'9' ∷ []) [] interfaz-IsText
      (omega arith) (omega arith)

recibir_io-paquete_truncate_fs_example :
    tras_operacion recibir_io (
      enviar_paquete (
        paquete_truncate_fs SetInstruction.io_fs_truncate
          (interfaz ∷ (b'f' ∷ []) ∷ [])
          (b'f' ∷ [])
          300)
      ++ [])
    ≡ some (
      (llega 6, (pedido SetInstruction.io_fs_truncate (truncate_bytes (b'f' ∷ []) 300), interfaz)),
      [],
    )
recibir_io-paquete_truncate_fs_example =
    recibir_io-paquete_truncate_fs SetInstruction.io_fs_truncate interfaz ((b'f' ∷ []) ∷ [])
      (b'f' ∷ []) 300 [] interfaz-IsText (omega arith) (omega arith)
