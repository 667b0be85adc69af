-- ===== src/Fs/Dialfs.antt =====
-- entradasalida/src/dialfs.c: the loop of `dialfs_io`.
use so_project_c.Common.{ℕ, Bool, Option, none, some, List, [], ◌∷◌}
use so_project_c.Common.BitArray.{BitArray}
use so_project_c.Protocol.Codes.{OpCode, SetInstruction}
use so_project_c.Protocol.Io.{Io, MemoriaFisica}
use so_project_c.Fs.Files.{
  Archivo, Disco, fs_create_file, fs_delete_file, fs_write_file, fs_read_file,
}
use so_project_c.Fs.Truncate.{fs_truncate_file}

-- What the requests use of others: the sort of so-commons, and the transfers from and to the memory process.
pub record Servicios : Type 0 where
  pub list_sort : (Archivo → Archivo → Bool) → List Archivo → List Archivo
  pub memoria_lee : List MemoriaFisica → Option (List ℕ)
  pub memoria_escribe : List ℕ → List MemoriaFisica → Bool

module _ (B : BitArray) (s : Servicios) (fs_path : List ℕ) where
  -- The `switch`. The answer to an instruction that is not of a file system is the one of the request before it.
  unfoldable pub segun_instruccion :
      Disco B → OpCode → Io → SetInstruction → Option (Disco B × OpCode)
  unfolding fs_create_file fs_delete_file fs_truncate_file fs_write_file fs_read_file
  segun_instruccion d to_send io SetInstruction.io_fs_create = fs_create_file B d io fs_path
  segun_instruccion d to_send io SetInstruction.io_fs_delete = fs_delete_file B d io fs_path
  segun_instruccion d to_send io SetInstruction.io_fs_truncate =
      fs_truncate_file B s.list_sort d io fs_path
  segun_instruccion d to_send io SetInstruction.io_fs_write =
      fs_write_file B s.memoria_lee d io fs_path
  segun_instruccion d to_send io SetInstruction.io_fs_read =
      elim (fs_read_file B s.memoria_escribe d io fs_path) [
        | none ↦ none
        | some status ↦ some (d, status)
      ]
  segun_instruccion d to_send io _ = some (d, to_send)

  -- The requests of a connection, each with the answer that `to_send` holds behind it.
  unfoldable pub dialfs_io : Disco B → OpCode → List Io → Option (Disco B × List OpCode)
  unfolding segun_instruccion
  dialfs_io d to_send [] = some (d, [])
  dialfs_io d to_send (io ∷ ios) = elim (segun_instruccion d to_send io io.type_instruction) [
    | none ↦ none
    | some (d', status) ↦ elim (dialfs_io d' status ios) [
      | none ↦ none
      | some (d2, answers) ↦ some (d2, status ∷ answers)
    ]
  ]
