-- ===== src/Fs/Ownership/Requests.antt =====
-- entradasalida/src/dialfs.c: the requests to the file system.
use so_project_c.Common.{
  ℕ, ◌≤◌, ◌<◌, ◌≡◌, refl, ap, ◌∙◌, arith, false, Option, none, some, List, [], ◌∷◌, ◌++◌,
}
use so_project_c.Common.Ints.{ℤ, pos, negsuc}
use so_project_c.Common.BitArray.{BitArray}
use so_project_c.Protocol.Codes.{OpCode, SetInstruction}
use so_project_c.Protocol.Io.{Io, get_io_file, get_io_truncate}
use so_project_c.Fs.Bitmap.{get_init_block_file}
use so_project_c.Fs.Bitmap.Search.{get_init_block_file_uno, get_init_block_file-libre}
use so_project_c.Fs.Files.{Archivo, Disco, get_config, crear, create_file, ocupar, fs_create_file}

module _ (B : BitArray) where
  abbrev pub IsNoNegativo : ℤ → Type 0
  IsNoNegativo (pos n) = Unit {0}
  IsNoNegativo (negsuc n) = ⊥

  -- The new size of a truncation is not negative as an `int`; the other requests assume nothing.
  abbrev pub TamanioValido : SetInstruction → Io → List ℕ → Type 0
  TamanioValido SetInstruction.io_fs_truncate io fs_path =
      (path : List ℕ) (n : ℤ) → get_io_truncate io fs_path ≡ some (some (path, n)) → IsNoNegativo n
  TamanioValido _ io fs_path = Unit {0}

  crear_nuevo :
      (d : Disco B) (path : List ℕ) (r : ℕ) (o : Option Archivo)
      → o ≡ none
      → ocupar B r (create_file B d path r o) ≡ (
        record d {
          metadata =
              d.metadata
              ++ (record { path = path; bloque_inicial = some r; tamanio_archivo = 0 } ∷ []);
          bitmap = B.set_bit d.bitmap r;
        },
        OpCode.io_success,
      )
  unfolding ocupar create_file
  crear_nuevo d path r none e = refl
  crear_nuevo d path r (some f) e = cc

  -- If a request names a path that no file has, and some block is free, then the creation
  -- succeeds: it adds an empty file with that path, at a block that was free and is not behind the
  -- given one, and sets the bit of that block.
  pub fs_create_file-crea :
      (d : Disco B) (io : Io) (fs_path path : List ℕ) (j : ℕ)
      → get_io_file io fs_path ≡ some path
      → get_config d.metadata path ≡ none
      → j < B.max_bit d.bitmap
      → B.test_bit d.bitmap j ≡ false
      → (r : ℕ) × (r ≤ j)
        × (B.test_bit d.bitmap r ≡ false)
        × (fs_create_file B d io fs_path
            ≡ some (
              record d {
                metadata =
                    d.metadata
                    ++ (record { path = path; bloque_inicial = some r; tamanio_archivo = 0 } ∷ []);
                bitmap = B.set_bit d.bitmap r;
              },
              OpCode.io_success,
            ))
  unfolding fs_create_file crear
  fs_create_file-crea d io fs_path path j named fresh hj free =
      let (r, found, le) = get_init_block_file_uno B d.bitmap j hj free in
      let (_, bit_free) =
        get_init_block_file-libre B d.bitmap 1 r r found (omega arith) (omega arith) in
      let pedido : Option (List ℕ) → Option (Disco B × OpCode) = λ o.
        elim o as (λ _. Option (Disco B × OpCode)) [
          | none ↦ none
          | some name ↦ some (crear B d name (get_init_block_file B d.bitmap 1))
        ] in
      (
        r,
        le,
        bit_free,
        ap pedido named ∙ ap some (ap (crear B d path) found ∙ crear_nuevo d path r _ fresh),
      )
