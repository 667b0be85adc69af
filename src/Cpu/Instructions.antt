-- ===== src/Cpu/Instructions.antt =====
-- cpu/src/instructions.c: the instructions that reach the memory or the kernel. What goes to the kernel is the list of
-- bytes on its connection; `none` is undefined behaviour, of this process or of the memory.
use so_project_c.Common.{
  ℕ, ◌+◌, Option, none, some, List, [], ◌∷◌, ◌++◌, Bool, true, false, ◌==◌, if◌then◌else◌, length,
  drop, bytes_u32, read_u32, read_u8,
}
use so_project_c.Protocol.Codes.{OpCode, PidStatus, SetInstruction}
use so_project_c.Protocol.Packet.{Paquete, enviar_paquete}
use so_project_c.Protocol.Pcb.{Registros}
use so_project_c.Protocol.Io.{MemoriaFisica}
use so_project_c.Cpu.Requests.{paquete_read_write, paquete_read_write_fs}
use so_project_c.Cpu.Tlb.{Config, Tlb, modify_tlb_on_resize}
use so_project_c.Cpu.Mmu.{mmu}
use so_project_c.Cpu.Registers.{
  r_si, r_di, get_register, sizeof_register, get_normaliced_register, valor, asignar, atouint32,
}
use so_project_c.Cpu.Service.{Servicio, escribir_frames, leer_frames_de}

-- The globals of the CPU, less `pcb->pid` and what the configuration fixes, with the memory process.
pub record Cpu (S : Servicio) : Type 0 where
  pub registers : Registros
  pub tlb : Tlb
  pub memoria : S.Estado

-- What is fixed while a process runs: the TLB's configuration, the page size, `pcb->pid`, `strtoul`, and what a new
-- buffer of `malloc` holds.
pub record Ajustes : Type 0 where
  pub config : Config
  pub page_size : ℕ
  pub pid : ℕ
  pub strtoul : List ℕ → ℕ × List ℕ
  pub malloc : ℕ → List ℕ

-- The CPU, the status and what the kernel is sent.
abbrev pub Resultado : Servicio → Type 0
Resultado S = Option (Cpu S × PidStatus × List ℕ)

abbrev pub es_running : PidStatus → Bool
es_running PidStatus.running = true
es_running _ = false

abbrev pub segun : Bool → PidStatus
segun true = PidStatus.running
segun false = PidStatus.error

-- The bytes of a register in memory.
abbrev pub bytes_de : List ℕ → Registros → List ℕ
bytes_de registro r =
    let v = valor (get_register registro) r in
    if sizeof_register registro == 4 then bytes_u32 v else v ∷ []

module _ {S : Servicio} (a : Ajustes) where
  -- `mmu` from an empty list of frames, with a call for each byte to spare.
  unfoldable pub traducir : Cpu S → ℕ → ℕ → Option (PidStatus × List MemoriaFisica × Cpu S)
  traducir u direccion size =
      elim (mmu a.config a.page_size (S.pid_page u.memoria) a.pid (size + 1) u.tlb direccion size) [
        | none ↦ none
        | some (status, frames, t) ↦ some (status, frames, record u { tlb = t })
      ]

  unfoldable pub escribir_a : Cpu S → List ℕ → List MemoriaFisica → Option (Cpu S × PidStatus)
  escribir_a u buffer frames = elim (escribir_frames S u.memoria buffer frames) [
    | none ↦ none
    | some (m, ok) ↦ some (record u { memoria = m }, segun ok)
  ]

  -- A buffer of `size` bytes behind `leer_memoria`.
  unfoldable pub leer_a : Cpu S → ℕ → List MemoriaFisica → Option (List ℕ × PidStatus)
  leer_a u size frames = elim (leer_frames_de S u.memoria frames) [
    | none ↦ none
    | some (bytes, ok) ↦ some (bytes ++ drop (length bytes) (a.malloc size), segun ok)
  ]

  unfoldable pub mov_out : Cpu S → List ℕ → List ℕ → Resultado S
  mov_out u registro_dl registro_datos =
      let direccion = get_normaliced_register registro_dl u.registers in
      elim (traducir u direccion (sizeof_register registro_datos)) [
        | none ↦ none
        | some (status, frames, u') ↦ elim (es_running status) [
          | false ↦ some (u', status, [])
          | true ↦ elim (escribir_a u' (bytes_de registro_datos u.registers) frames) [
            | none ↦ none
            | some (u'', status') ↦ some (u'', status', [])
          ]
        ]
      ]

  -- The copy into the register, which is made whatever the status is.
  unfoldable pub cargar : Cpu S → List ℕ → List ℕ → Option (Cpu S)
  cargar u registro buffer =
      let r = get_register registro in
      elim (if sizeof_register registro == 4 then read_u32 buffer else read_u8 buffer) [
        | none ↦ none
        | some (v, rest) ↦ some (record u { registers = asignar r v u.registers })
      ]

  abbrev pub terminar_in : Cpu S → List ℕ → List ℕ × PidStatus → Resultado S
  terminar_in u registro_datos (buffer, status) = elim (cargar u registro_datos buffer) [
    | none ↦ none
    | some u' ↦ some (u', status, [])
  ]

  unfoldable pub mov_in : Cpu S → List ℕ → List ℕ → Resultado S
  mov_in u registro_datos registro_dl =
      let size = sizeof_register registro_datos in
      let direccion = get_normaliced_register registro_dl u.registers in
      elim (traducir u direccion size) [
        | none ↦ none
        | some (status, frames, u') ↦ elim (es_running status) [
          | false ↦ terminar_in u' registro_datos (a.malloc size, status)
          | true ↦ elim (leer_a u' size frames) [
            | none ↦ none
            | some result ↦ terminar_in u' registro_datos result
          ]
        ]
      ]

  -- The status of the first translation is dropped.
  unfoldable pub copy_string : Cpu S → List ℕ → Resultado S
  copy_string u texto =
      let size = atouint32 a.strtoul texto in
      elim (traducir u (valor r_si u.registers) size) [
        | none ↦ none
        | some (dropped, src_frames, u1) ↦ elim (traducir u1 (valor r_di u.registers) size) [
          | none ↦ none
          | some (status, dst_frames, u2) ↦ elim (es_running status) [
            | false ↦ some (u2, status, [])
            | true ↦ elim (leer_a u2 size src_frames) [
              | none ↦ none
              | some (buffer, status') ↦ elim (es_running status') [
                | false ↦ some (u2, status', [])
                | true ↦ elim (escribir_a u2 buffer dst_frames) [
                  | none ↦ none
                  | some (u3, status'') ↦ some (u3, status'', [])
                ]
              ]
            ]
          ]
        ]
      ]

  -- The end of `io_read_write` and `io_read_write_fs`: the packet goes out if the translation was good.
  abbrev pub pedir : Paquete → PidStatus × Cpu S → Resultado S
  pedir p (status, u) =
      if es_running status
      then some (u, PidStatus.blocked_io, enviar_paquete p)
      else some (u, status, [])

  unfoldable pub io_read_write : Cpu S → SetInstruction → List ℕ → List ℕ → List ℕ → Resultado S
  io_read_write u operation interfaz dl tamanio =
      let size = get_normaliced_register tamanio u.registers in
      elim (traducir u (get_normaliced_register dl u.registers) size) [
        | none ↦ none
        | some (status, frames, u') ↦
            pedir (paquete_read_write operation (interfaz ∷ dl ∷ tamanio ∷ []) size frames)
              (status, u')
      ]

  unfoldable pub io_read_write_fs :
      Cpu S → SetInstruction → List ℕ → List ℕ → List ℕ → List ℕ → List ℕ → Resultado S
  io_read_write_fs u operation interfaz archivo dl tamanio puntero =
      let size = get_normaliced_register tamanio u.registers in
      let ptr_archivo = get_normaliced_register puntero u.registers in
      elim (traducir u (get_normaliced_register dl u.registers) size) [
        | none ↦ none
        | some (status, frames, u') ↦
            pedir
              (paquete_read_write_fs operation (interfaz ∷ archivo ∷ dl ∷ tamanio ∷ puntero ∷ [])
                archivo ptr_archivo size frames)
              (status, u')
      ]

  -- `resize_process`: the TLB goes first.
  unfoldable pub resize_process : Cpu S → List ℕ → Resultado S
  resize_process u texto =
      let new_size = atouint32 a.strtoul texto in
      let t = modify_tlb_on_resize a.config a.page_size u.tlb new_size a.pid in
      elim (S.mem_resize u.memoria a.pid new_size) [
        | none ↦ none
        | some (m, OpCode.mem_error) ↦
            some (record u { tlb = t; memoria = m }, PidStatus.error_memory, [])
        | some (m, _) ↦ some (record u { tlb = t; memoria = m }, PidStatus.running, [])
      ]
