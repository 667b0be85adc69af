-- ===== src/Cpu/Exec.antt =====
-- cpu/src/cpu.c: `exec`, `check_interrupt` and the loop of `cpu`.
use so_project_c.Common.{ℕ, ◌+◌, ◌%◌, Option, none, some, List, [], ◌∷◌, ◌++◌, true, false, u32_mod}
use so_project_c.Protocol.Codes.{OpCode, PidStatus, SetInstruction}
use so_project_c.Protocol.Packet.{crear_paquete, enviar_paquete, enviar_mensaje}
use so_project_c.Protocol.Pcb.{Pcb, Registros, agregar_pcb_paquete}
use so_project_c.Cpu.Registers.{
  suma, resta, operar_registros, poner, jnz_register, get_normaliced_register,
}
use so_project_c.Cpu.Decode.{InstructionExecute, decode}
use so_project_c.Cpu.Service.{Servicio}
use so_project_c.Cpu.Requests.{paquete_io, paquete_truncate_fs}
use so_project_c.Cpu.Instructions.{
  Cpu, Ajustes, Resultado, es_running, mov_in, mov_out, copy_string, io_read_write,
  io_read_write_fs, resize_process,
}

module _ {S : Servicio} (a : Ajustes) where
  -- A step that only changes registers.
  abbrev pub sigue : Cpu S → Registros → Resultado S
  sigue u r = some (record u { registers = r }, PidStatus.running, [])

  -- The `switch` of `exec`. Fewer parameters than an instruction has do not come from `decode`: the code would follow
  -- a NULL.
  unfoldable pub segun_operacion : Cpu S → SetInstruction → List (List ℕ) → Resultado S
  segun_operacion u SetInstruction.set (registro ∷ value ∷ _) =
      sigue u (poner a.strtoul registro value u.registers)
  segun_operacion u SetInstruction.sum (destino ∷ origen ∷ _) =
      sigue u (operar_registros destino origen suma u.registers)
  segun_operacion u SetInstruction.sub (destino ∷ origen ∷ _) =
      sigue u (operar_registros destino origen resta u.registers)
  segun_operacion u SetInstruction.jnz (registro ∷ next_pc ∷ _) =
      sigue u (jnz_register a.strtoul registro next_pc u.registers)
  segun_operacion u SetInstruction.resize (size ∷ _) = resize_process a u size
  segun_operacion u SetInstruction.mov_in (datos ∷ dl ∷ _) = mov_in a u datos dl
  segun_operacion u SetInstruction.mov_out (dl ∷ datos ∷ _) = mov_out a u dl datos
  segun_operacion u SetInstruction.copy_string (size ∷ _) = copy_string a u size
  segun_operacion u SetInstruction.wait (recurso ∷ _) =
      some (u, PidStatus.blocked_wait, enviar_mensaje recurso OpCode.wait_recurso)
  segun_operacion u SetInstruction.signal (recurso ∷ _) =
      some (u, PidStatus.running_signal, enviar_mensaje recurso OpCode.signal_recurso)
  segun_operacion u SetInstruction.io_gen_sleep params =
      some (u, PidStatus.blocked_io, enviar_paquete (paquete_io SetInstruction.io_gen_sleep params))
  segun_operacion u SetInstruction.io_stdin_read (interfaz ∷ dl ∷ tamanio ∷ _) =
      io_read_write a u SetInstruction.io_stdin_read interfaz dl tamanio
  segun_operacion u SetInstruction.io_stdout_write (interfaz ∷ dl ∷ tamanio ∷ _) =
      io_read_write a u SetInstruction.io_stdout_write interfaz dl tamanio
  segun_operacion u SetInstruction.io_fs_create params =
      some (u, PidStatus.blocked_io, enviar_paquete (paquete_io SetInstruction.io_fs_create params))
  segun_operacion u SetInstruction.io_fs_delete params =
      some (u, PidStatus.blocked_io, enviar_paquete (paquete_io SetInstruction.io_fs_delete params))
  segun_operacion u SetInstruction.io_fs_truncate (interfaz ∷ archivo ∷ tamanio ∷ more) = some (
    u,
    PidStatus.blocked_io,
    enviar_paquete (
        paquete_truncate_fs SetInstruction.io_fs_truncate (interfaz ∷ archivo ∷ tamanio ∷ more)
          archivo (get_normaliced_register tamanio u.registers)),
  )
  segun_operacion u SetInstruction.io_fs_write (interfaz ∷ archivo ∷ dl ∷ tamanio ∷ puntero ∷ _) =
      io_read_write_fs a u SetInstruction.io_fs_write interfaz archivo dl tamanio puntero
  segun_operacion u SetInstruction.io_fs_read (interfaz ∷ archivo ∷ dl ∷ tamanio ∷ puntero ∷ _) =
      io_read_write_fs a u SetInstruction.io_fs_read interfaz archivo dl tamanio puntero
  segun_operacion u SetInstruction.exit params = some (u, PidStatus.terminated, [])
  segun_operacion u SetInstruction.unknown params = some (u, PidStatus.error, [])
  segun_operacion u _ _ = none

  -- `pc_plus_plus`
  abbrev pub avanzar : Cpu S → Cpu S
  avanzar u = record u { registers = record u.registers { pc = (u.registers.pc + 1) % u32_mod } }

  unfoldable pub exec : Cpu S → InstructionExecute → Resultado S
  exec u decoded = segun_operacion (avanzar u) decoded.operation decoded.params

-- What `check_interrupt` finds at the end of a round, and clears: the kind of the interrupt, if there was one.
abbrev pub con_interrupcion : Option OpCode → PidStatus → PidStatus
con_interrupcion (some OpCode.end_pid_user) result = PidStatus.terminated_user
con_interrupcion (some OpCode.interrupt) PidStatus.running = PidStatus.running_quantum
con_interrupcion _ result = result

module _ {S : Servicio} (a : Ajustes) (fetch : S.Estado → ℕ → ℕ → Option (List (List ℕ))) where
  -- The loop of `cpu` while the status is RUNNING. `interrupts` is what each round finds, in order; the loop of the code
  -- ends only by its program, so it runs for as many rounds as are listed.
  unfoldable pub rondas : List (Option OpCode) → Cpu S → Option (Cpu S × PidStatus × List ℕ)
  rondas [] u = none
  rondas (i ∷ interrupts) u = elim (fetch u.memoria a.pid u.registers.pc) [
    | none ↦ none
    | some list_instruction ↦ elim (decode list_instruction) [
      | none ↦ none
      | some decoded ↦ elim (exec a u decoded) [
        | none ↦ none
        | some (u', result, sent) ↦ elim (es_running (con_interrupcion i result)) [
          | false ↦ some (u', con_interrupcion i result, sent)
          | true ↦ elim (rondas interrupts u') [
            | none ↦ none
            | some (u'', status, more) ↦ some (u'', status, sent ++ more)
          ]
        ]
      ]
    ]
  ]

  -- A block that is not RUNNING goes back as it is.
  unfoldable pub mientras_running :
      List (Option OpCode) → Cpu S → PidStatus → Option (Cpu S × PidStatus × List ℕ)
  mientras_running interrupts u status = elim (es_running status) [
    | true ↦ rondas interrupts u
    | false ↦ some (u, status, [])
  ]

  -- What the kernel is sent: what the instructions sent, and then the block.
  unfoldable pub cpu : List (Option OpCode) → Cpu S → Pcb → Option (Cpu S × Pcb × List ℕ)
  cpu interrupts u pcb =
      elim (mientras_running interrupts (record u { registers = pcb.registers }) pcb.status) [
        | none ↦ none
        | some (u', result, sent) ↦
            let pcb' : Pcb = record pcb {
              pc = u'.registers.pc;
              registers = u'.registers;
              status = result;
            } in
            some (
              u',
              pcb',
              sent ++ enviar_paquete (agregar_pcb_paquete (crear_paquete OpCode.pcb) pcb'),
            )
      ]
