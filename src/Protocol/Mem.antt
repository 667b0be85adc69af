-- ===== src/Protocol/Mem.antt =====
-- utils/src/utils/mem_protocol.c: the requests to the memory, on both sides.
use so_project_c.Common.{
  ℕ, ◌+◌, ◌<◌, ◌≡◌, ◌∙◌, some, List, [], ◌++◌, arith, length, Read, ◌>>=◌, pure, read_u32,
  read_bytes, read_bytes_lem, bytes_u32, stored, IsText, IsU32, >>=-some,
}
use mathlib.Core.List.{append-nil}
use so_project_c.Protocol.Codes.{OpCode, op_value}
use so_project_c.Protocol.Packet.{
  Paquete, crear_paquete, agregar_a_paquete, agregar_uint_a_paquete, enviar_paquete, Holds,
  crear_paquete-Holds, agregar_a_paquete-Holds, agregar_uint_a_paquete-Holds, agregar_texto-Holds,
  enviar_paquete-Holds, length-stored,
}
use so_project_c.Protocol.Fields.{read_text, read_text_lem, next_u32}
use so_project_c.Protocol.Receive.{from_buffer, llega, tras_operacion, tras_operacion-wire}

pub record InitPid : Type 0 where
  pub pid : ℕ
  pub path : List ℕ

pub agregar_init_process_paquete : Paquete → ℕ → List ℕ → Paquete
agregar_init_process_paquete p pid path =
    agregar_a_paquete (agregar_uint_a_paquete p (bytes_u32 pid) 4) (stored path) (length path + 1)

leer_init_process : Read InitPid
leer_init_process = do
  pid ← read_u32
  string_size ← read_u32
  path ← read_text string_size
  pure (record { pid = pid; path = path })

pub recibir_init_process : Read InitPid
recibir_init_process = from_buffer leer_init_process

-- The address and the `value_size` bytes to write there.
leer_mem_write : Read (ℕ × List ℕ)
leer_mem_write = do
  direccion_fisica ← read_u32
  value_size ← read_u32
  value ← read_bytes value_size
  pure (direccion_fisica, value)

pub recibir_mem_write : Read (ℕ × List ℕ)
recibir_mem_write = from_buffer leer_mem_write

-- The address and how many bytes to read from there.
leer_mem_read : Read (ℕ × ℕ)
leer_mem_read = do
  direccion_fisica ← read_u32
  value_size ← read_u32
  pure (direccion_fisica, value_size)

pub recibir_mem_read : Read (ℕ × ℕ)
recibir_mem_read = from_buffer leer_mem_read

unfoldable pub leer_pid_con_uint32 : Read (ℕ × ℕ)
leer_pid_con_uint32 = do pid ← read_u32; info ← read_u32; pure (pid, info)

unfoldable pub recibir_pid_con_uint32 : Read (ℕ × ℕ)
recibir_pid_con_uint32 = from_buffer leer_pid_con_uint32

-- The packet of two words that asks for an instruction, a page or a resize.
pub paquete_dos_uint : OpCode → ℕ → ℕ → Paquete
paquete_dos_uint op a b =
    agregar_uint_a_paquete (agregar_uint_a_paquete (crear_paquete op) (bytes_u32 a) 4) (bytes_u32 b)
      4

-- The packet of an address and the bytes to write there.
pub paquete_write : ℕ → List ℕ → Paquete
paquete_write direccion value =
    agregar_a_paquete
      (agregar_uint_a_paquete (crear_paquete OpCode.mem_write) (bytes_u32 direccion) 4) value
      (length value)

paquete_dos_uint-Holds :
    (op : OpCode) (a b : ℕ) → Holds (paquete_dos_uint op a b) op (bytes_u32 a ++ bytes_u32 b)
unfolding paquete_dos_uint
paquete_dos_uint-Holds op a b =
    agregar_uint_a_paquete-Holds (bytes_u32 b)
      (agregar_uint_a_paquete-Holds (bytes_u32 a) (crear_paquete-Holds op))

paquete_write-Holds :
    (direccion : ℕ) (value : List ℕ)
    → Holds
        (paquete_write direccion value)
        OpCode.mem_write
        (bytes_u32 direccion ++ (bytes_u32 (length value) ++ value))
unfolding paquete_write
paquete_write-Holds direccion value =
    agregar_a_paquete-Holds value
      (agregar_uint_a_paquete-Holds (bytes_u32 direccion) (crear_paquete-Holds OpCode.mem_write))

agregar_init_process_paquete-Holds :
    (pid : ℕ) (path : List ℕ)
    → Holds
        (agregar_init_process_paquete (crear_paquete OpCode.init_pid) pid path)
        OpCode.init_pid
        (bytes_u32 pid ++ (bytes_u32 (length (stored path)) ++ stored path))
unfolding agregar_init_process_paquete
agregar_init_process_paquete-Holds pid path =
    agregar_texto-Holds path
      (agregar_uint_a_paquete-Holds (bytes_u32 pid) (crear_paquete-Holds OpCode.init_pid))

-- The packet of two words of 32 bits, for any operation, is received by the memory as that
-- operation and those words.
pub recibir_pid_con_uint32-paquete :
    (op : OpCode) (pid info : ℕ) (rest : List ℕ)
    → IsU32 pid
    → IsU32 info
    → tras_operacion recibir_pid_con_uint32 (enviar_paquete (paquete_dos_uint op pid info) ++ rest)
      ≡ some ((llega (op_value op), (pid, info)), rest)
unfolding recibir_pid_con_uint32 leer_pid_con_uint32
recibir_pid_con_uint32-paquete op pid info rest hp hi =
    rw (enviar_paquete-Holds (paquete_dos_uint-Holds op pid info)) (
      tras_operacion-wire op leer_pid_con_uint32 (pid, info) (bytes_u32 pid ++ bytes_u32 info) []
        rest (omega arith) (next_u32 pid _ hp ∙ next_u32 info _ hi))

-- The packet of a write, with an address of 32 bits and less than 2^28 bytes, is received by the
-- memory as that address and those bytes.
pub recibir_mem_write-paquete :
    (direccion : ℕ) (value rest : List ℕ)
    → IsU32 direccion
    → length value < 0x1000_0000
    → tras_operacion recibir_mem_write (enviar_paquete (paquete_write direccion value) ++ rest)
      ≡ some ((llega (op_value OpCode.mem_write), (direccion, value)), rest)
unfolding recibir_mem_write leer_mem_write
recibir_mem_write-paquete direccion value rest hd hv =
    rw (enviar_paquete-Holds (paquete_write-Holds direccion value)) (
      tras_operacion-wire OpCode.mem_write leer_mem_write (direccion, value) _ [] rest (omega arith)
        (next_u32 direccion _ hd
          ∙ next_u32 (length value) _ (omega arith)
          ∙ >>=-some (read_bytes (length value)) _ whole))
  where
    whole : read_bytes (length value) value ≡ some (value, [])
    whole = rw append-nil at (read_bytes_lem value [])

-- The memory receives the address and the size that a read request carries.
pub recibir_mem_read-paquete :
    (direccion size : ℕ) (rest : List ℕ)
    → IsU32 direccion
    → IsU32 size
    → tras_operacion recibir_mem_read
        (enviar_paquete (paquete_dos_uint OpCode.mem_read direccion size) ++ rest)
      ≡ some ((llega (op_value OpCode.mem_read), (direccion, size)), rest)
unfolding recibir_mem_read leer_mem_read
recibir_mem_read-paquete direccion size rest hd hs =
    rw (enviar_paquete-Holds (paquete_dos_uint-Holds OpCode.mem_read direccion size)) (
      tras_operacion-wire OpCode.mem_read leer_mem_read (direccion, size) _ [] rest (omega arith)
        (next_u32 direccion _ hd ∙ next_u32 size _ hs))

-- The packet that starts a process, with a number of 32 bits and a text below 2^28 bytes, is
-- received by the memory as that number and that text.
pub recibir_init_process-agregar_init_process :
    (pid : ℕ) (path rest : List ℕ)
    → IsU32 pid
    → IsText path
    → length path < 0x1000_0000
    → tras_operacion recibir_init_process (
        enviar_paquete (agregar_init_process_paquete (crear_paquete OpCode.init_pid) pid path)
        ++ rest)
      ≡ some ((llega (op_value OpCode.init_pid), record { pid = pid; path = path }), rest)
unfolding recibir_init_process leer_init_process
recibir_init_process-agregar_init_process pid path rest hp ht hl =
    rw (enviar_paquete-Holds (agregar_init_process_paquete-Holds pid path)) (
      tras_operacion-wire OpCode.init_pid leer_init_process (record { pid = pid; path = path }) _ []
        rest (omega (arith, length-stored path))
        (next_u32 pid _ hp
          ∙ next_u32 (length (stored path)) _ (omega (arith, length-stored path))
          ∙ >>=-some (read_text (length (stored path))) _ (read_text_lem path ht)))
