-- ===== src/Cpu/Requests.antt =====
-- cpu/src/instructions.c: the packets by which the CPU asks the kernel for an interface.
pub mod Received
use so_project_c.Common.{
  ℕ, ◌+◌, ◌*◌, ◌%◌, ◌<◌, ◌≡◌, refl, sym, ap, ◌∙◌, List, [], ◌∷◌, ◌++◌, arith, length, u32_mod,
  bytes_u32, stored, some, IsText, length-append,
}
use mathlib.Core.Path.{subst}
use mathlib.Core.List.{append-nil, append_assoc}
use so_project_c.Protocol.Codes.{OpCode, SetInstruction, instruction_value, op_value}
use so_project_c.Protocol.Packet.{
  Paquete, crear_paquete, agregar_a_paquete, agregar_uint_a_paquete, enviar_paquete, Holds,
  crear_paquete-Holds, agregar_uint_a_paquete-Holds, agregar_texto-Holds, enviar_paquete-Holds,
  length-stored,
}
use so_project_c.Protocol.Receive.{llega, tras_operacion}
use so_project_c.Protocol.Io.{MemoriaFisica, agregar_io_paquete, recibir_io}
use so_project_c.Protocol.Io.Trip.{io_bytes, pedido, frames_bytes, recibir_io-wire}
use so_project_c.Protocol.Io.Files.{read_write_bytes}

-- The loop that appends the frames of a transfer.
agregar_frames : Paquete → List MemoriaFisica → Paquete
agregar_frames p [] = p
agregar_frames p (frame ∷ frames) =
    agregar_frames
      (agregar_uint_a_paquete (agregar_uint_a_paquete p (bytes_u32 frame.direccion_fisica) 4)
        (bytes_u32 frame.bytes) 4)
      frames

pub paquete_read_write : SetInstruction → List (List ℕ) → ℕ → List MemoriaFisica → Paquete
unfolding agregar_frames
paquete_read_write operation params size frames =
    let buffer_size = (length frames * 8 + 4) % u32_mod in
    let p1 = agregar_io_paquete (crear_paquete OpCode.io) operation params 1 in
    let p2 = agregar_uint_a_paquete p1 (bytes_u32 buffer_size) 4 in
    agregar_frames (agregar_uint_a_paquete p2 (bytes_u32 size) 4) frames

pub paquete_read_write_fs :
    SetInstruction → List (List ℕ) → List ℕ → ℕ → ℕ → List MemoriaFisica → Paquete
unfolding agregar_frames
paquete_read_write_fs operation params archivo ptr_archivo size frames =
    let buffer_size = (length frames * 8 + 2 * 4 + length archivo + 1 + 4) % u32_mod in
    let p1 = agregar_io_paquete (crear_paquete OpCode.io) operation params 1 in
    let p2 = agregar_uint_a_paquete p1 (bytes_u32 buffer_size) 4 in
    let p3 = agregar_a_paquete p2 (stored archivo) (length archivo + 1) in
    let p4 = agregar_uint_a_paquete p3 (bytes_u32 ptr_archivo) 4 in
    agregar_frames (agregar_uint_a_paquete p4 (bytes_u32 size) 4) frames

unfoldable pub paquete_truncate_fs : SetInstruction → List (List ℕ) → List ℕ → ℕ → Paquete
paquete_truncate_fs operation params archivo size =
    let buffer_size = (4 + length archivo + 1 + 4) % u32_mod in
    let p1 = agregar_io_paquete (crear_paquete OpCode.io) operation params 1 in
    let p2 = agregar_uint_a_paquete p1 (bytes_u32 buffer_size) 4 in
    let p3 = agregar_a_paquete p2 (stored archivo) (length archivo + 1) in
    agregar_uint_a_paquete p3 (bytes_u32 size) 4

unfoldable pub paquete_io : SetInstruction → List (List ℕ) → Paquete
paquete_io operation params =
    agregar_io_paquete (crear_paquete OpCode.io) operation params (length params)
