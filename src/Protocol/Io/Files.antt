-- ===== src/Protocol/Io/Files.antt =====
-- The file requests as the interface takes them apart: the buffers that the CPU builds for
-- IO_FS_CREATE, IO_FS_DELETE, IO_FS_TRUNCATE, IO_FS_WRITE and IO_FS_READ.
use so_project_c.Common.{
  ◌==◌, true, ℕ, ◌+◌, ◌<◌, ◌≡◌, ◌∙◌, some, List, [], ◌++◌, arith, length, All, bytes_u32, stored,
  IsText, IsU32, take_all, length-append, c_string-stored_self,
}
use so_project_c.Common.Ints.{a_int}
use so_project_c.Protocol.Codes.{SetInstruction}
use so_project_c.Protocol.Packet.{length-stored}
use so_project_c.Protocol.Fields.{next_u32, next_text}
use so_project_c.Protocol.Io.{
  MemoriaFisica, leer_truncate, get_io_truncate, leer_read_write, get_io_read_write, get_io_file,
}
use so_project_c.Protocol.Io.Trip.{pedido, frames_bytes, IsFrame, leer_frames_lem}

-- The name of a file alone.
pub get_io_file_lem :
    (i : SetInstruction) (nombre path : List ℕ)
    → IsText nombre
    → get_io_file (pedido i (stored nombre)) path ≡ some (path ++ nombre)
unfolding get_io_file
get_io_file_lem i nombre path t =
    rw (get_io_file, take_all (stored nombre), c_string-stored_self nombre t)

abbrev pub truncate_bytes : List ℕ → ℕ → List ℕ
truncate_bytes nombre size = bytes_u32 (length (stored nombre)) ++ (stored nombre ++ bytes_u32 size)

-- From a buffer of a file's name and a size, in the ranges of their types, the interface gets the
-- file's path and the size, as the int that it is stored in.
pub get_io_truncate_lem :
    (i : SetInstruction) (nombre path : List ℕ) (size : ℕ)
    → IsText nombre
    → length nombre < 0x1000_0000
    → IsU32 size
    → get_io_truncate (pedido i (truncate_bytes nombre size)) path
      ≡ some (some (path ++ nombre, a_int size))
unfolding get_io_truncate leer_truncate
get_io_truncate_lem i nombre path size t hl hs =
    rw (take_all (truncate_bytes nombre size), fields, get_io_truncate, whole)
  where
    fields :
        leer_truncate (truncate_bytes nombre size)
        ≡ some ((length (stored nombre), nombre, size), [])
    fields =
        next_u32 (length (stored nombre)) _ (omega (arith, length-stored nombre))
        ∙ next_text nombre _ t
        ∙ next_u32 size _ hs

    whole : (length (truncate_bytes nombre size) == 4 + length (stored nombre) + 4) ≡ true
    whole = ground (arith, length-append (stored nombre) (bytes_u32 size))

abbrev pub read_write_bytes : List ℕ → ℕ → ℕ → List MemoriaFisica → List ℕ
read_write_bytes nombre ptr size fs =
    bytes_u32 (length (stored nombre))
    ++ (stored nombre ++ (bytes_u32 ptr ++ (bytes_u32 size ++ frames_bytes fs)))

-- From a buffer of a file's name, a position, a size and frames, all in the ranges of their types,
-- the interface gets the file's path, the position as the int that it is stored in, the size and
-- the frames.
pub get_io_read_write_lem :
    (i : SetInstruction) (nombre path : List ℕ) (ptr size : ℕ) (fs : List MemoriaFisica)
    → IsText nombre
    → length nombre < 0x1000_0000
    → IsU32 ptr
    → IsU32 size
    → All IsFrame fs
    → get_io_read_write (pedido i (read_write_bytes nombre ptr size fs)) path
      ≡ some (path ++ nombre, record { frames = fs; ptr = a_int ptr; size = size })
unfolding get_io_read_write leer_read_write
get_io_read_write_lem i nombre path ptr size fs t hl hp hs hf = rw (
  take_all (read_write_bytes nombre ptr size fs),
  fields,
  get_io_read_write,
  leer_frames_lem (length (frames_bytes fs)) fs (omega arith) hf,
)
  where
    fields :
        leer_read_write (read_write_bytes nombre ptr size fs)
        ≡ some ((nombre, ptr, size), frames_bytes fs)
    fields =
        next_u32 (length (stored nombre)) _ (omega (arith, length-stored nombre))
        ∙ next_text nombre _ t
        ∙ next_u32 ptr _ hp
        ∙ next_u32 size _ hs
