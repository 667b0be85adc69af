-- ===== src/Protocol/Io.antt =====
-- utils/src/utils/io_protocol.c and the frames of instruction_protocol.h: a request to an interface,
-- which the CPU builds, the kernel forwards and the interface takes apart.
pub mod Trip
pub mod Files
use so_project_c.Common.{
  ℕ, zero, suc, ◌+◌, Option, none, some, List, [], ◌∷◌, ◌++◌, length, take, Read, ◌>>=◌, pure,
  read_u32, read_bytes, bytes_u32, stored, c_string, ◌==◌, if◌then◌else◌,
}
use so_project_c.Common.Ints.{ℤ, a_int}
use so_project_c.Protocol.Codes.{SetInstruction, instruction_value}
use so_project_c.Protocol.Packet.{Paquete, agregar_a_paquete, agregar_uint_a_paquete}
use so_project_c.Protocol.Fields.{read_instruction, read_text}
use so_project_c.Protocol.Receive.{from_buffer}

-- `t_io`, less the `pid` that no function sets or reads.
pub record Io : Type 0 where
  pub type_instruction : SetInstruction
  pub buffer_size : ℕ
  pub buffer : List ℕ

pub record MemoriaFisica : Type 0 where
  pub direccion_fisica : ℕ
  pub bytes : ℕ

pub record FsRw : Type 0 where
  pub frames : List MemoriaFisica
  pub ptr : ℤ
  pub size : ℕ

-- The request, with the name of the interface in front of it.
leer_io : Read (Io × List ℕ)
leer_io = do
  instruction ← read_instruction
  string_size ← read_u32
  name_interface ← read_text string_size
  buffer_size ← read_u32
  buffer ← read_bytes buffer_size
  pure (
    record { type_instruction = instruction; buffer_size = buffer_size; buffer = buffer },
    name_interface,
  )

pub recibir_io : Read (Io × List ℕ)
unfolding leer_io
recibir_io = from_buffer leer_io

unfoldable pub agregar_params : Paquete → List (List ℕ) → Paquete
agregar_params p [] = p
agregar_params p (param ∷ params) =
    agregar_params (agregar_a_paquete p (stored param) (length param + 1)) params

unfoldable pub agregar_io_paquete : Paquete → SetInstruction → List (List ℕ) → ℕ → Paquete
unfolding agregar_params
agregar_io_paquete p instruction params total_params =
    agregar_params (agregar_uint_a_paquete p (bytes_u32 (instruction_value instruction)) 4)
      (take total_params params)

pub agregar_io_serializado : Paquete → Io → ℕ → Paquete
agregar_io_serializado p io pid =
    let p1 = agregar_uint_a_paquete p (bytes_u32 pid) 4 in
    let p2 = agregar_uint_a_paquete p1 (bytes_u32 (instruction_value io.type_instruction)) 4 in
    agregar_a_paquete p2 io.buffer io.buffer_size

leer_io_serializado : Read (Io × ℕ)
leer_io_serializado = do
  pid ← read_u32
  instruction ← read_instruction
  buffer_size ← read_u32
  buffer ← read_bytes buffer_size
  pure (record { type_instruction = instruction; buffer_size = buffer_size; buffer = buffer }, pid)

pub recibir_io_serializado : Read (Io × ℕ)
unfolding leer_io_serializado
recibir_io_serializado = from_buffer leer_io_serializado

-- The loops that read frames while bytes of the buffer are left; every round takes eight bytes.
pub leer_frames : ℕ → List ℕ → Option (List MemoriaFisica)
leer_frames fuel [] = some []
leer_frames zero (b ∷ bs) = none
leer_frames (suc fuel) (b ∷ bs) = elim (read_u32 (b ∷ bs)) [
  | none ↦ none
  | some (direccion, rest) ↦ elim (read_u32 rest) [
    | none ↦ none
    | some (bytes, rest') ↦ elim (leer_frames fuel rest') [
      | none ↦ none
      | some frames ↦ some (record { direccion_fisica = direccion; bytes = bytes } ∷ frames)
    ]
  ]
]

-- The size of the transfer and the frames to transfer.
pub get_io_frames : Io → Option (ℕ × List MemoriaFisica)
get_io_frames io = elim (read_u32 (take io.buffer_size io.buffer)) [
  | none ↦ none
  | some (size_io, rest) ↦ elim (leer_frames (length rest) rest) [
    | none ↦ none
    | some frames ↦ some (size_io, frames)
  ]
]

-- The path of the file that a create or a delete names.
pub get_io_file : Io → List ℕ → Option (List ℕ)
get_io_file io path = elim (c_string (take io.buffer_size io.buffer)) [
  | none ↦ none
  | some file_name ↦ some (path ++ file_name)
]

leer_truncate : Read (ℕ × List ℕ × ℕ)
leer_truncate = do
  file_size ← read_u32
  file_name ← read_text file_size
  size ← read_u32
  pure (file_size, file_name, size)

-- `some none` is the NULL of a request whose size does not match its fields.
pub get_io_truncate : Io → List ℕ → Option (Option (List ℕ × ℤ))
unfolding leer_truncate
get_io_truncate io path = elim (leer_truncate (take io.buffer_size io.buffer)) [
  | none ↦ none
  | some ((file_size, file_name, size), rest) ↦
      if io.buffer_size == 4 + file_size + 4
      then some (some (path ++ file_name, a_int size))
      else some none
]

leer_read_write : Read (List ℕ × ℕ × ℕ)
leer_read_write = do
  file_size ← read_u32
  file_name ← read_text file_size
  ptr ← read_u32
  size ← read_u32
  pure (file_name, ptr, size)

-- The loop ends where the buffer does, so the code's test on the size cannot fail behind it.
pub get_io_read_write : Io → List ℕ → Option (List ℕ × FsRw)
unfolding leer_read_write
get_io_read_write io path = elim (leer_read_write (take io.buffer_size io.buffer)) [
  | none ↦ none
  | some ((file_name, ptr, size), rest) ↦ elim (leer_frames (length rest) rest) [
    | none ↦ none
    | some frames ↦
        some (path ++ file_name, record { frames = frames; ptr = a_int ptr; size = size })
  ]
]
