-- ===== src/Memory/Server.antt =====
-- memoria/src/memoria.c and the receiving halves of usuario.c and proceso.c: the requests of one
-- connection. The delay of `retardo` changes no state.
pub mod Invariant
pub mod Replies
pub mod Runs
use so_project_c.Common.{
  ℕ, zero, suc, ◌+◌, Option, none, some, List, [], ◌∷◌, ◌++◌, length, Read, read_u32, bytes_u32,
}
use so_project_c.Common.BitArray.{BitArray}
use so_project_c.Protocol.Codes.{OpCode, op_value, op_of}
use so_project_c.Protocol.Packet.{
  crear_paquete, agregar_a_paquete, agregar_uint_a_paquete, enviar_paquete, enviar_mensaje,
}
use so_project_c.Protocol.Receive.{
  Operacion, llega, desconectado, recibir_operacion, recibir_mensaje,
}
use so_project_c.Protocol.Mem.{
  recibir_init_process, recibir_mem_write, recibir_mem_read, recibir_pid_con_uint32,
}
use so_project_c.Memory.State.{Memoria, redimensionar, liberar, marco, escribir, leer}
use so_project_c.Memory.Scripts.{
  Entorno, leer_script, leer_archivo, get_instruction_pid, enviar_instruccion,
}

-- The next state, what is sent back, and what the connection still holds. `none` is undefined behaviour: a
-- process that does not exist, an address outside the memory, a request that is cut off.
abbrev pub Atencion : BitArray → Type 0
Atencion B = Option (Memoria B × List ℕ × List ℕ)

-- `send(client_fd, &code_op, sizeof(op_code), 0)`
abbrev pub enviar_codigo : OpCode → List ℕ
enviar_codigo code = bytes_u32 (op_value code)

respuesta_script : OpCode → List ℕ → List ℕ
respuesta_script OpCode.init_script_error comandos = enviar_codigo OpCode.init_script_error
respuesta_script codigo comandos = enviar_mensaje comandos codigo

respuesta_marco : Option ℕ → List ℕ
respuesta_marco none = enviar_codigo OpCode.mem_error
respuesta_marco (some frame) =
    enviar_paquete (agregar_uint_a_paquete (crear_paquete OpCode.mem_success) (bytes_u32 frame) 4)

module _ {B : BitArray} where
  pub liberar_memoria : Memoria B → List ℕ → Atencion B
  liberar_memoria m bs = elim (read_u32 bs) [
    | none ↦ none
    | some (size_discard, bs') ↦ elim (read_u32 bs') [
      | none ↦ none
      | some (pid, rest) ↦ elim (liberar m pid) [ none ↦ none | some m' ↦ some (m', [], rest) ]
    ]
  ]

  pub init_proceso : Entorno → Memoria B → List ℕ → Atencion B
  init_proceso e m bs = elim (recibir_init_process bs) [
    | none ↦ none
    | some (pid_to_init, rest) ↦ elim (leer_archivo e m pid_to_init.pid pid_to_init.path) [
      | none ↦ none
      | some (m', status) ↦ some (m', enviar_codigo status, rest)
    ]
  ]

  pub init_script : Entorno → Memoria B → List ℕ → Atencion B
  unfolding respuesta_script
  init_script e m bs = elim (recibir_mensaje bs) [
    | none ↦ none
    | some (archivo, rest) ↦ elim (leer_script e archivo) [
      | none ↦ none
      | some (codigo, comandos) ↦ some (m, respuesta_script codigo comandos, rest)
    ]
  ]

  unfoldable pub resize_process : Memoria B → List ℕ → Atencion B
  resize_process m bs = elim (recibir_pid_con_uint32 bs) [
    | none ↦ none
    | some ((pid, new_size), rest) ↦ elim (redimensionar m pid new_size) [
      | none ↦ none
      | some (m', code_op) ↦ some (m', enviar_codigo code_op, rest)
    ]
  ]

  pub get_pid_page : Memoria B → List ℕ → Atencion B
  unfolding respuesta_marco
  get_pid_page m bs = elim (recibir_pid_con_uint32 bs) [
    | none ↦ none
    | some ((pid, page), rest) ↦ elim (marco m pid page) [
      | none ↦ none
      | some frame ↦ some (m, respuesta_marco frame, rest)
    ]
  ]

  pub escribir_memoria : Memoria B → List ℕ → Atencion B
  escribir_memoria m bs = elim (recibir_mem_write bs) [
    | none ↦ none
    | some ((direccion_fisica, value_write), rest) ↦
        elim (escribir m direccion_fisica value_write) [
          | none ↦ none
          | some m' ↦ some (m', enviar_codigo OpCode.mem_success, rest)
        ]
  ]

  pub leer_memoria : Memoria B → List ℕ → Atencion B
  leer_memoria m bs = elim (recibir_mem_read bs) [
    | none ↦ none
    | some ((direccion_fisica, value_size), rest) ↦ elim (leer m direccion_fisica value_size) [
      | none ↦ none
      | some value_read ↦ some (
        m,
        enviar_paquete (agregar_a_paquete (crear_paquete OpCode.mem_success) value_read value_size),
        rest,
      )
    ]
  ]

  pub get_instruction : Entorno → Memoria B → List ℕ → Atencion B
  get_instruction e m bs = elim (recibir_pid_con_uint32 bs) [
    | none ↦ none
    | some ((pid, pc), rest) ↦ elim (get_instruction_pid e m pid pc) [
      | none ↦ none
      | some array_instruction ↦
          some (m, enviar_paquete (enviar_instruccion array_instruction), rest)
    ]
  ]

  descartar_mensaje : Memoria B → List ℕ → Atencion B
  descartar_mensaje m bs = elim (recibir_mensaje bs) [
    | none ↦ none
    | some (mensaje, rest) ↦ some (m, [], rest)
  ]

  -- The `switch` of `memoria`.
  unfoldable pub atender : Entorno → Option OpCode → Memoria B → List ℕ → Atencion B
  unfolding descartar_mensaje
  atender e (some OpCode.mensaje) m bs = descartar_mensaje m bs
  atender e (some OpCode.mem_page_size) m bs = some (m, bytes_u32 m.page_size, bs)
  atender e (some OpCode.mem_resize) m bs = resize_process m bs
  atender e (some OpCode.mem_pid_page) m bs = get_pid_page m bs
  atender e (some OpCode.mem_write) m bs = escribir_memoria m bs
  atender e (some OpCode.mem_read) m bs = leer_memoria m bs
  atender e (some OpCode.init_pid) m bs = init_proceso e m bs
  atender e (some OpCode.init_script) m bs = init_script e m bs
  atender e (some OpCode.end_pid) m bs = liberar_memoria m bs
  atender e (some OpCode.instruction) m bs = get_instruction e m bs
  atender e _ m bs = some (m, [], bs)

  -- The loop of `memoria` over what one connection delivers until it is closed: the last state and all that
  -- was sent. Every round takes four bytes at least.
  unfoldable pub memoria : Entorno → ℕ → Memoria B → List ℕ → Option (Memoria B × List ℕ)
  memoria e zero m bs = none
  memoria e (suc fuel) m bs = elim (recibir_operacion bs) [
    | none ↦ none
    | some (desconectado, rest) ↦ some (m, [])
    | some (llega cod_op, rest) ↦ elim (atender e (op_of cod_op) m rest) [
      | none ↦ none
      | some (m', sent, rest') ↦ elim (memoria e fuel m' rest') [
        | none ↦ none
        | some (m'', more) ↦ some (m'', sent ++ more)
      ]
    ]
  ]
