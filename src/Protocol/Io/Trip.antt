-- ===== src/Protocol/Io/Trip.antt =====
-- A request keeps its instruction and its buffer on the way from the CPU through the kernel.
use so_project_c.Common.{
  length-append, ℕ, zero, suc, ◌+◌, ◌≤◌, ◌<◌, ◌≡◌, refl, ◌∙◌, some, List, [], ◌∷◌, ◌++◌, arith,
  length, All, bytes_u32, stored, IsText, IsU32, >>=-some, read_bytes, read_bytes_lem, read_u32_lem,
  take_all,
}
use mathlib.Core.List.{append-nil}
use so_project_c.Protocol.Codes.{OpCode, SetInstruction, op_value, instruction_value}
use so_project_c.Protocol.Packet.{
  crear_paquete, enviar_paquete, Holds, wire, crear_paquete-Holds, agregar_a_paquete-Holds,
  agregar_uint_a_paquete-Holds, enviar_paquete-Holds, length-stored,
}
use so_project_c.Protocol.Fields.{next_instruction, next_u32, next_text}
use so_project_c.Protocol.Receive.{llega, tras_operacion, tras_operacion-wire}
use so_project_c.Protocol.Io.{
  Io, MemoriaFisica, leer_io, recibir_io, agregar_io_serializado, leer_io_serializado,
  recibir_io_serializado, leer_frames, get_io_frames,
}

-- What a request looks like behind its operation code, as the kernel expects it.
abbrev pub io_bytes : SetInstruction → List ℕ → List ℕ → List ℕ
io_bytes i nombre buffer =
    bytes_u32 (instruction_value i)
    ++ (bytes_u32 (length (stored nombre))
        ++ (stored nombre ++ (bytes_u32 (length buffer) ++ buffer)))

abbrev pub pedido : SetInstruction → List ℕ → Io
pedido i buffer = record { type_instruction = i; buffer_size = length buffer; buffer = buffer }

last_bytes : (xs : List ℕ) → read_bytes (length xs) xs ≡ some (xs, [])
last_bytes xs = rw append-nil at (read_bytes_lem xs [])

-- A message of operation IO that holds an instruction, the text of an interface's name and a
-- buffer, with lengths that sum below 2^28, is received by the kernel as these three.
pub recibir_io-wire :
    (i : SetInstruction) (nombre buffer rest : List ℕ)
    → IsText nombre
    → length nombre + length buffer < 0x1000_0000
    → tras_operacion recibir_io (wire OpCode.io (io_bytes i nombre buffer) ++ rest)
      ≡ some ((llega (op_value OpCode.io), (pedido i buffer, nombre)), rest)
unfolding recibir_io
recibir_io-wire i nombre buffer rest ht hl =
    tras_operacion-wire OpCode.io leer_io (pedido i buffer, nombre) _ [] rest
      (omega (
        arith,
        length-stored nombre,
        length-append (stored nombre) (bytes_u32 (length buffer) ++ buffer),
      ))
      (next_instruction i _
        ∙ next_u32 (length (stored nombre)) _ (omega (arith, length-stored nombre))
        ∙ next_text nombre _ ht
        ∙ next_u32 (length buffer) _ (omega arith)
        ∙ >>=-some (read_bytes (length buffer)) _ (last_bytes buffer))

agregar_io_serializado-Holds :
    (i : SetInstruction) (buffer : List ℕ) (pid : ℕ)
    → Holds (agregar_io_serializado (crear_paquete OpCode.io) (pedido i buffer) pid) OpCode.io (
        bytes_u32 pid ++ (bytes_u32 (instruction_value i) ++ (bytes_u32 (length buffer) ++ buffer)))
unfolding agregar_io_serializado
agregar_io_serializado-Holds i buffer pid = agregar_a_paquete-Holds buffer (
    agregar_uint_a_paquete-Holds (bytes_u32 (instruction_value i))
      (agregar_uint_a_paquete-Holds (bytes_u32 pid) (crear_paquete-Holds OpCode.io)))

-- A request with a buffer below 2^28 bytes, forwarded for a process whose number has 32 bits, is
-- received by the interface with that process.
pub recibir_io_serializado-agregar :
    (i : SetInstruction) (buffer : List ℕ) (pid : ℕ) (rest : List ℕ)
    → IsU32 pid
    → length buffer < 0x1000_0000
    → tras_operacion recibir_io_serializado (
        enviar_paquete (agregar_io_serializado (crear_paquete OpCode.io) (pedido i buffer) pid)
        ++ rest)
      ≡ some ((llega (op_value OpCode.io), (pedido i buffer, pid)), rest)
unfolding recibir_io_serializado
recibir_io_serializado-agregar i buffer pid rest hp hl =
    rw (enviar_paquete-Holds (agregar_io_serializado-Holds i buffer pid)) (
      tras_operacion-wire OpCode.io leer_io_serializado (pedido i buffer, pid) _ [] rest
        (omega arith)
        (next_u32 pid _ hp
          ∙ next_instruction i _
          ∙ next_u32 (length buffer) _ (omega arith)
          ∙ >>=-some (read_bytes (length buffer)) _ (last_bytes buffer)))

-- The bytes of a list of frames, as the CPU appends them.
abbrev pub frames_bytes : List MemoriaFisica → List ℕ
frames_bytes [] = []
frames_bytes (f ∷ fs) = bytes_u32 f.direccion_fisica ++ (bytes_u32 f.bytes ++ frames_bytes fs)

abbrev pub IsFrame : MemoriaFisica → Type 0
IsFrame f = IsU32 f.direccion_fisica × IsU32 f.bytes

pub leer_frames_lem :
    (fuel : ℕ) (fs : List MemoriaFisica)
    → length (frames_bytes fs) ≤ fuel
    → All IsFrame fs
    → leer_frames fuel (frames_bytes fs) ≡ some fs
unfolding leer_frames
leer_frames_lem zero [] h ok = refl
leer_frames_lem (suc fuel) [] h ok = refl
leer_frames_lem zero (f ∷ fs) h ok = absurd (omega arith)
leer_frames_lem (suc fuel) (f ∷ fs) h (ok, oks) = rw (
  read_u32_lem f.direccion_fisica (bytes_u32 f.bytes ++ frames_bytes fs) ok.0,
  leer_frames,
  read_u32_lem f.bytes (frames_bytes fs) ok.1,
  leer_frames_lem fuel fs (omega arith) oks,
)

-- From a buffer of a size and frames, all of 32 bits, the interface gets the size and the frames.
pub get_io_frames_lem :
    (i : SetInstruction) (size : ℕ) (fs : List MemoriaFisica)
    → IsU32 size
    → All IsFrame fs
    → get_io_frames (pedido i (bytes_u32 size ++ frames_bytes fs)) ≡ some (size, fs)
unfolding get_io_frames
get_io_frames_lem i size fs hs hf = rw (
  take_all (bytes_u32 size ++ frames_bytes fs),
  read_u32_lem size (frames_bytes fs) hs,
  get_io_frames,
  leer_frames_lem (length (frames_bytes fs)) fs (omega arith) hf,
)
