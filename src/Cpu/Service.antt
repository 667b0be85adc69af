-- ===== src/Cpu/Service.antt =====
-- utils/src/utils/instruction_protocol.c: transfers between a buffer and a list of frames, by requests to the
-- memory process. What the CPU asks of that process is an interface, which the memory of this library fills.
use so_project_c.Common.{ℕ, Option, none, some, List, [], ◌∷◌, ◌++◌, Bool, true, false, take, drop}
use so_project_c.Common.BitArray.{BitArray}
use so_project_c.Protocol.Codes.{OpCode}
use so_project_c.Protocol.Io.{MemoriaFisica}
use so_project_c.Memory.State.{Memoria, marco, escribir, leer, redimensionar}

-- The answers to MEM_PID_PAGE, MEM_WRITE, MEM_READ and MEM_RESIZE. `none` is a memory process that has failed.
pub record Servicio : Type 1 where
  pub Estado : Type 0
  pub pid_page : Estado → ℕ → ℕ → Option ℕ
  pub mem_write : Estado → ℕ → List ℕ → Option (Estado × OpCode)
  pub mem_read : Estado → ℕ → ℕ → Option (OpCode × List ℕ)
  pub mem_resize : Estado → ℕ → ℕ → Option (Estado × OpCode)

-- The memory process behind its connection.
abbrev pub servicio_de : BitArray → Servicio
servicio_de B = record {
  Estado = Memoria B;
  pid_page = λ m pid page. elim (marco m pid page) [ none ↦ none | some frame ↦ frame ];
  mem_write = λ m direccion value. elim (escribir m direccion value) [
    | none ↦ none
    | some m' ↦ some (m', OpCode.mem_success)
  ];
  mem_read = λ m direccion size. elim (leer m direccion size) [
    | none ↦ none
    | some bytes ↦ some (OpCode.mem_success, bytes)
  ];
  mem_resize = λ m pid size. redimensionar m pid size;
}

abbrev pub es_success : OpCode → Bool
es_success OpCode.mem_success = true
es_success _ = false

module _ (S : Servicio) where
  open S use {Estado, mem_write, mem_read}

  -- `true` is the result 0, and `false` -1.
  unfoldable pub escribir_frames : Estado → List ℕ → List MemoriaFisica → Option (Estado × Bool)
  escribir_frames m buffer [] = some (m, true)
  escribir_frames m buffer (frame ∷ frames) =
      elim (mem_write m frame.direccion_fisica (take frame.bytes buffer)) [
        | none ↦ none
        | some (m', code) ↦ elim (es_success code) [
          | true ↦ escribir_frames m' (drop frame.bytes buffer) frames
          | false ↦ some (m', false)
        ]
      ]

  -- The bytes that were received, in front of those that the buffer had.
  unfoldable pub leer_frames_de : Estado → List MemoriaFisica → Option (List ℕ × Bool)
  leer_frames_de m [] = some ([], true)
  leer_frames_de m (frame ∷ frames) = elim (mem_read m frame.direccion_fisica frame.bytes) [
    | none ↦ none
    | some (code, bytes) ↦ elim (es_success code) [
      | false ↦ some (bytes, false)
      | true ↦ elim (leer_frames_de m frames) [
        | none ↦ none
        | some (rest, ok) ↦ some (bytes ++ rest, ok)
      ]
    ]
  ]
