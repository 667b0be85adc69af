-- ===== src/Cpu/Requests/Received.antt =====
-- The kernel receives the requests of the CPU as they were meant.
use so_project_c.Common.{
  ℕ, ◌+◌, ◌*◌, ◌%◌, ◌<◌, ◌≡◌, refl, sym, ap, ◌∙◌, List, [], ◌∷◌, ◌++◌, arith, length, u32_mod,
  bytes_u32, stored, some, IsText, length-append,
}
use mathlib.Core.Path.{subst}
use mathlib.Core.List.{append-nil, append_assoc}
use so_project_c.Protocol.Codes.{OpCode, SetInstruction, instruction_value, op_value}
use so_project_c.Protocol.Packet.{
  Paquete, crear_paquete, enviar_paquete, Holds, crear_paquete-Holds, agregar_uint_a_paquete-Holds,
  agregar_texto-Holds, enviar_paquete-Holds, length-stored,
}
use so_project_c.Protocol.Receive.{llega, tras_operacion}
use so_project_c.Protocol.Io.{MemoriaFisica, agregar_io_paquete, recibir_io}
use so_project_c.Protocol.Io.Trip.{io_bytes, pedido, frames_bytes, recibir_io-wire}
use so_project_c.Protocol.Io.Files.{read_write_bytes}
use so_project_c.Protocol.Io.Files.{truncate_bytes}
use so_project_c.Cpu.Requests.{
  paquete_io, paquete_truncate_fs, agregar_frames, paquete_read_write, paquete_read_write_fs,
}

agregar_frames-Holds :
    (frames : List MemoriaFisica) {p : Paquete} {op : OpCode} {bs : List ℕ}
    → Holds p op bs
    → Holds (agregar_frames p frames) op (bs ++ frames_bytes frames)
unfolding agregar_frames
agregar_frames-Holds [] {bs = bs} h = rw append-nil h
agregar_frames-Holds (f ∷ frames) {bs = bs} h =
    let here =
      agregar_uint_a_paquete-Holds (bytes_u32 f.bytes)
        (agregar_uint_a_paquete-Holds (bytes_u32 f.direccion_fisica) h) in
    rw
      (
        ← append_assoc bs (bytes_u32 f.direccion_fisica) (bytes_u32 f.bytes ++ frames_bytes frames),
        ← append_assoc (bs ++ bytes_u32 f.direccion_fisica) (bytes_u32 f.bytes)
            (frames_bytes frames),
      )
      (agregar_frames-Holds frames here)

length-frames_bytes :
    (frames : List MemoriaFisica) → length (frames_bytes frames) ≡ length frames * 8
length-frames_bytes [] = refl
length-frames_bytes (f ∷ frames) = omega (arith, length-frames_bytes frames)

-- The head that every request has: the instruction and the interface's name.
cabeza-Holds :
    (i : SetInstruction) (interfaz : List ℕ) (more : List (List ℕ))
    → Holds (agregar_io_paquete (crear_paquete OpCode.io) i (interfaz ∷ more) 1) OpCode.io (
        bytes_u32 (instruction_value i)
        ++ (bytes_u32 (length (stored interfaz)) ++ stored interfaz))
unfolding agregar_io_paquete so_project_c.Protocol.Io.agregar_params
cabeza-Holds i interfaz more =
    agregar_texto-Holds interfaz (
      agregar_uint_a_paquete-Holds (bytes_u32 (instruction_value i))
        (crear_paquete-Holds OpCode.io))

-- The head, the size of the buffer and the buffer are a request as the kernel expects it.
abbrev cabeza : SetInstruction → List ℕ → List ℕ
cabeza i interfaz =
    bytes_u32 (instruction_value i) ++ (bytes_u32 (length (stored interfaz)) ++ stored interfaz)

entero :
    (i : SetInstruction) (interfaz buffer : List ℕ)
    → (cabeza i interfaz ++ bytes_u32 (length buffer)) ++ buffer ≡ io_bytes i interfaz buffer
entero i interfaz buffer = append_assoc (cabeza i interfaz) (bytes_u32 (length buffer)) buffer

paquete_read_write-Holds :
    (i : SetInstruction) (interfaz : List ℕ) (more : List (List ℕ)) (size : ℕ)
    (frames : List MemoriaFisica)
    → length frames < 0x100_0000
    → Holds
        (paquete_read_write i (interfaz ∷ more) size frames)
        OpCode.io
        (io_bytes i interfaz (bytes_u32 size ++ frames_bytes frames))
unfolding paquete_read_write
paquete_read_write-Holds i interfaz more size frames h =
    let n : length (bytes_u32 size ++ frames_bytes frames) ≡ (length frames * 8 + 4) % u32_mod =
      omega (arith, length-frames_bytes frames) in
    rw
      (
        ← entero i interfaz (bytes_u32 size ++ frames_bytes frames),
        n,
        ← append_assoc (cabeza i interfaz ++ bytes_u32 ((length frames * 8 + 4) % u32_mod))
            (bytes_u32 size) (frames_bytes frames),
      )
      (agregar_frames-Holds frames (
        agregar_uint_a_paquete-Holds (bytes_u32 size) (
          agregar_uint_a_paquete-Holds (bytes_u32 ((length frames * 8 + 4) % u32_mod))
            (cabeza-Holds i interfaz more))))

-- The packet of IO_STDIN_READ and IO_STDOUT_WRITE, for an interface whose name is a text below
-- 2^24 bytes and less than 2^24 frames, is received by the kernel as the instruction, that name
-- and a buffer of the size and the frames.
pub recibir_io-paquete_read_write :
    (i : SetInstruction) (interfaz : List ℕ) (more : List (List ℕ)) (size : ℕ)
    (frames : List MemoriaFisica) (rest : List ℕ)
    → IsText interfaz
    → length interfaz < 0x100_0000
    → length frames < 0x100_0000
    → tras_operacion recibir_io
        (enviar_paquete (paquete_read_write i (interfaz ∷ more) size frames) ++ rest)
      ≡ some (
        (llega (op_value OpCode.io), (pedido i (bytes_u32 size ++ frames_bytes frames), interfaz)),
        rest,
      )
recibir_io-paquete_read_write i interfaz more size frames rest t hl h =
    rw (enviar_paquete-Holds (paquete_read_write-Holds i interfaz more size frames h)) (
      recibir_io-wire i interfaz (bytes_u32 size ++ frames_bytes frames) rest t
        (omega (arith, length-frames_bytes frames)))

paquete_read_write_fs-Holds :
    (i : SetInstruction) (interfaz : List ℕ) (more : List (List ℕ)) (archivo : List ℕ)
    (ptr size : ℕ) (frames : List MemoriaFisica)
    → length frames < 0x100_0000
    → length archivo < 0x100_0000
    → Holds
        (paquete_read_write_fs i (interfaz ∷ more) archivo ptr size frames)
        OpCode.io
        (io_bytes i interfaz (read_write_bytes archivo ptr size frames))
unfolding paquete_read_write_fs
paquete_read_write_fs-Holds i interfaz more archivo ptr size frames h ha =
    let bytes : ℕ = (length frames * 8 + 2 * 4 + length archivo + 1 + 4) % u32_mod in
    let n : length (read_write_bytes archivo ptr size frames) ≡ bytes = omega (
      arith,
      length-frames_bytes frames,
      length-append (stored archivo) (bytes_u32 ptr ++ (bytes_u32 size ++ frames_bytes frames)),
      length-stored archivo,
    ) in
    let head : List ℕ = cabeza i interfaz ++ bytes_u32 bytes in
    let name : List ℕ = bytes_u32 (length (stored archivo)) ++ stored archivo in
    let path : (((head ++ name) ++ bytes_u32 ptr) ++ bytes_u32 size) ++ frames_bytes frames
        ≡ io_bytes i interfaz (read_write_bytes archivo ptr size frames) =
      append_assoc ((head ++ name) ++ bytes_u32 ptr) (bytes_u32 size) (frames_bytes frames)
      ∙ append_assoc (head ++ name) (bytes_u32 ptr) (bytes_u32 size ++ frames_bytes frames)
      ∙ append_assoc head name (bytes_u32 ptr ++ (bytes_u32 size ++ frames_bytes frames))
      ∙ ap (λ k. (cabeza i interfaz ++ bytes_u32 k) ++ read_write_bytes archivo ptr size frames)
          (sym n)
      ∙ entero i interfaz (read_write_bytes archivo ptr size frames) in
    subst
      (λ bs. Holds (paquete_read_write_fs i (interfaz ∷ more) archivo ptr size frames) OpCode.io bs)
      path
      (agregar_frames-Holds frames (
        agregar_uint_a_paquete-Holds (bytes_u32 size) (
          agregar_uint_a_paquete-Holds (bytes_u32 ptr) (
            agregar_texto-Holds archivo
              (agregar_uint_a_paquete-Holds (bytes_u32 bytes) (cabeza-Holds i interfaz more))))))

-- The packet of IO_FS_WRITE and IO_FS_READ, for an interface whose name is a text, names below
-- 2^24 bytes and less than 2^24 frames, is received by the kernel as the instruction, the name of
-- the interface and a buffer of the file's name, the position, the size and the frames.
pub recibir_io-paquete_read_write_fs :
    (i : SetInstruction) (interfaz : List ℕ) (more : List (List ℕ)) (archivo : List ℕ)
    (ptr size : ℕ) (frames : List MemoriaFisica) (rest : List ℕ)
    → IsText interfaz
    → length interfaz < 0x100_0000
    → length frames < 0x100_0000
    → length archivo < 0x100_0000
    → tras_operacion recibir_io
        (enviar_paquete (paquete_read_write_fs i (interfaz ∷ more) archivo ptr size frames) ++ rest)
      ≡ some (
        (
          llega (op_value OpCode.io),
          (pedido i (read_write_bytes archivo ptr size frames), interfaz),
        ),
        rest,
      )
recibir_io-paquete_read_write_fs i interfaz more archivo ptr size frames rest t hl h ha =
    rw
      (enviar_paquete-Holds
        (paquete_read_write_fs-Holds i interfaz more archivo ptr size frames h ha))
      (recibir_io-wire i interfaz (read_write_bytes archivo ptr size frames) rest t (
        omega (
          arith,
          length-frames_bytes frames,
          length-append (stored archivo) (bytes_u32 ptr ++ (bytes_u32 size ++ frames_bytes frames)),
          length-stored archivo,
        )))

paquete_io-Holds :
    (i : SetInstruction) (interfaz param : List ℕ)
    → Holds (paquete_io i (interfaz ∷ param ∷ [])) OpCode.io (io_bytes i interfaz (stored param))
unfolding paquete_io agregar_io_paquete so_project_c.Protocol.Io.agregar_params
paquete_io-Holds i interfaz param = agregar_texto-Holds param (cabeza-Holds i interfaz [])

-- The packet of IO_GEN_SLEEP, IO_FS_CREATE and IO_FS_DELETE, for an interface whose name is a text
-- and words below 2^24 bytes, is received by the kernel as the instruction, that name and a buffer
-- of the other word with its NUL.
pub recibir_io-paquete_io :
    (i : SetInstruction) (interfaz param rest : List ℕ)
    → IsText interfaz
    → length interfaz < 0x100_0000
    → length param < 0x100_0000
    → tras_operacion recibir_io (enviar_paquete (paquete_io i (interfaz ∷ param ∷ [])) ++ rest)
      ≡ some ((llega (op_value OpCode.io), (pedido i (stored param), interfaz)), rest)
recibir_io-paquete_io i interfaz param rest t hl hp =
    rw (enviar_paquete-Holds (paquete_io-Holds i interfaz param))
      (recibir_io-wire i interfaz (stored param) rest t (omega (arith, length-stored param)))

paquete_truncate_fs-Holds :
    (i : SetInstruction) (interfaz : List ℕ) (more : List (List ℕ)) (archivo : List ℕ) (size : ℕ)
    → length archivo < 0x100_0000
    → Holds
        (paquete_truncate_fs i (interfaz ∷ more) archivo size)
        OpCode.io
        (io_bytes i interfaz (truncate_bytes archivo size))
unfolding paquete_truncate_fs
paquete_truncate_fs-Holds i interfaz more archivo size ha =
    let bytes : ℕ = (4 + length archivo + 1 + 4) % u32_mod in
    let n : length (truncate_bytes archivo size) ≡ bytes =
      omega (arith, length-append (stored archivo) (bytes_u32 size), length-stored archivo) in
    let head : List ℕ = cabeza i interfaz ++ bytes_u32 bytes in
    let name : List ℕ = bytes_u32 (length (stored archivo)) ++ stored archivo in
    let path : (head ++ name) ++ bytes_u32 size
        ≡ io_bytes i interfaz (truncate_bytes archivo size) =
      append_assoc head name (bytes_u32 size)
      ∙ ap (λ k. (cabeza i interfaz ++ bytes_u32 k) ++ truncate_bytes archivo size) (sym n)
      ∙ entero i interfaz (truncate_bytes archivo size) in
    subst (λ bs. Holds (paquete_truncate_fs i (interfaz ∷ more) archivo size) OpCode.io bs) path
      (agregar_uint_a_paquete-Holds (bytes_u32 size) (
        agregar_texto-Holds archivo
          (agregar_uint_a_paquete-Holds (bytes_u32 bytes) (cabeza-Holds i interfaz more))))

-- The packet of IO_FS_TRUNCATE, for an interface whose name is a text and names below 2^24 bytes,
-- is received by the kernel as the instruction, the name of the interface and a buffer of the
-- file's name and the size.
pub recibir_io-paquete_truncate_fs :
    (i : SetInstruction) (interfaz : List ℕ) (more : List (List ℕ)) (archivo : List ℕ) (size : ℕ)
    (rest : List ℕ)
    → IsText interfaz
    → length interfaz < 0x100_0000
    → length archivo < 0x100_0000
    → tras_operacion recibir_io
        (enviar_paquete (paquete_truncate_fs i (interfaz ∷ more) archivo size) ++ rest)
      ≡ some
          ((llega (op_value OpCode.io), (pedido i (truncate_bytes archivo size), interfaz)), rest)
recibir_io-paquete_truncate_fs i interfaz more archivo size rest t hl ha =
    rw (enviar_paquete-Holds (paquete_truncate_fs-Holds i interfaz more archivo size ha)) (
      recibir_io-wire i interfaz (truncate_bytes archivo size) rest t
        (omega (arith, length-append (stored archivo) (bytes_u32 size), length-stored archivo)))
