-- ===== src/Fs/Files.antt =====
-- entradasalida/src/dialfs.c, and the functions of auxiliar.c on the metadata. A file is its configuration: the copy of
-- it on the disk, and those of the bitmap and of the blocks, only repeat the state.
use so_project_c.Common.{
  ℕ, ◌+◌, ◌-◌, ◌*◌, ◌/◌, Bool, Option, none, some, List, [], ◌∷◌, ◌++◌, ◌==◌, if◌then◌else◌, take,
}
use so_project_c.Common.Ints.{mover_int}
use so_project_c.Common.BitArray.{BitArray}
use so_project_c.Common.Text.{strcmp_eq}
use so_project_c.Common.Memcpy.{copy_to, copy_from}
use so_project_c.Protocol.Codes.{OpCode}
use so_project_c.Protocol.Io.{Io, FsRw, MemoriaFisica, get_io_file, get_io_read_write}
use so_project_c.Fs.Bitmap.{get_init_block_file, resize_down, resize_up}

-- `BLOQUE_INICIAL`, whose -1 is `none`, and `TAMANIO_ARCHIVO`.
pub record Archivo : Type 0 where
  pub path : List ℕ
  pub bloque_inicial : Option ℕ
  pub tamanio_archivo : ℕ

-- `t_bloques`, `t_bitmap` and the metadata.
pub record Disco (B : BitArray) : Type 0 where
  pub bitmap : B.Bits
  pub bloques : List ℕ
  pub bloques_size : ℕ
  pub metadata : List Archivo

-- `list_find` and `list_remove_by_condition` by the path.
unfoldable pub get_config : List Archivo → List ℕ → Option Archivo
unfolding strcmp_eq
get_config [] path = none
get_config (f ∷ fs) path =
    let later = get_config fs path in if strcmp_eq f.path path then some f else later

unfoldable pub remove_config : List Archivo → List ℕ → List Archivo
unfolding strcmp_eq
remove_config [] path = []
remove_config (f ∷ fs) path =
    let later = remove_config fs path in if strcmp_eq f.path path then fs else f ∷ later

-- `config_set_value` on the configuration that `get_config` finds.
unfoldable pub set_config : List Archivo → List ℕ → Archivo → List Archivo
unfolding strcmp_eq
set_config [] path f' = []
set_config (f ∷ fs) path f' =
    let later = set_config fs path f' in if strcmp_eq f.path path then f' ∷ fs else f ∷ later

-- `ceil((double) size / bloques_size)`
abbrev pub en_bloques : ℕ → ℕ → ℕ
en_bloques size bloques_size = (size + (bloques_size - 1)) / bloques_size

-- The blocks that a file holds: an empty one holds the block that it was created with.
unfoldable pub bloques_de : Archivo → ℕ → ℕ
bloques_de f bloques_size =
    let size = en_bloques f.tamanio_archivo bloques_size in
    elim f.bloque_inicial [ none ↦ size | some i ↦ if size == 0 then 1 else size ]

-- A block that a run starts at, moved on.
abbrev pub mas : Option ℕ → ℕ → Option ℕ
mas none n = none
mas (some i) n = some (i + n)

module _ (B : BitArray) where
  open B use {Bits}

  -- The loops over the blocks `from` to `to` of a run; a run that starts nowhere has none.
  abbrev pub bajar : Bits → Option ℕ → ℕ → ℕ → Bits
  bajar b none from to = b
  bajar b (some i) from to = resize_down B b (i + from) (i + to)

  abbrev pub subir : Bits → Option ℕ → ℕ → ℕ → Bits
  subir b none from to = b
  subir b (some i) from to = resize_up B b (i + from) (i + to)

  -- `create_file`, given what `get_config` finds, and the bit that `fs_create_file` sets behind it.
  unfoldable pub create_file : Disco B → List ℕ → ℕ → Option Archivo → Disco B × OpCode
  create_file d nombre bloque_inicial (some f) = (d, OpCode.io_error)
  create_file d nombre bloque_inicial none =
      let f : Archivo = record {
        path = nombre;
        bloque_inicial = some bloque_inicial;
        tamanio_archivo = 0;
      } in
      (record d { metadata = d.metadata ++ (f ∷ []) }, OpCode.io_success)

  unfoldable pub ocupar : ℕ → Disco B × OpCode → Disco B × OpCode
  ocupar i (d, OpCode.io_success) = (record d { bitmap = B.set_bit d.bitmap i }, OpCode.io_success)
  ocupar i (d, _) = (d, OpCode.io_error)

  unfoldable pub crear : Disco B → List ℕ → Option ℕ → Disco B × OpCode
  unfolding get_config create_file ocupar
  crear d path none = (d, OpCode.io_error)
  crear d path (some init_block) =
      ocupar init_block (create_file d path init_block (get_config d.metadata path))

  -- A request whose name has no end gives no file.
  unfoldable pub fs_create_file : Disco B → Io → List ℕ → Option (Disco B × OpCode)
  unfolding crear get_init_block_file
  fs_create_file d io fs_path = elim (get_io_file io fs_path) [
    | none ↦ none
    | some path ↦ some (crear d path (get_init_block_file B d.bitmap 1))
  ]

  unfoldable pub borrar : Disco B → List ℕ → Option Archivo → Disco B × OpCode
  unfolding remove_config bloques_de resize_down
  borrar d path none = (d, OpCode.io_error)
  borrar d path (some f) = (
    record d {
      metadata = remove_config d.metadata path;
      bitmap = bajar d.bitmap f.bloque_inicial 0 (bloques_de f d.bloques_size);
    },
    OpCode.io_success,
  )

  unfoldable pub fs_delete_file : Disco B → Io → List ℕ → Option (Disco B × OpCode)
  unfolding borrar get_config
  fs_delete_file d io fs_path = elim (get_io_file io fs_path) [
    | none ↦ none
    | some path ↦ some (borrar d path (get_config d.metadata path))
  ]

  -- The copies at the position, which a negative `ptr` can put in front of the file; in front of all blocks it is
  -- undefined.
  unfoldable pub escribir_desde : List ℕ → Option ℕ → List ℕ → Option (List ℕ)
  escribir_desde bloques none buffer = none
  escribir_desde bloques (some i) buffer = copy_to bloques i buffer

  unfoldable pub leer_desde : List ℕ → Option ℕ → ℕ → Option (List ℕ)
  leer_desde bloques none size = none
  leer_desde bloques (some i) size = copy_from bloques i size

  -- What was read from the memory is written where the file starts, as far behind it as the request says; the length of
  -- the file is not asked for.
  unfoldable pub escribir_en :
      Disco B → FsRw → Option (List ℕ) → Option Archivo → Option (Disco B × OpCode)
  unfolding escribir_desde mover_int
  escribir_en d rw_info none o = some (d, OpCode.io_error)
  escribir_en d rw_info (some buffer) none = some (d, OpCode.io_error)
  escribir_en d rw_info (some buffer) (some f) = elim f.bloque_inicial [
    | none ↦ none
    | some bloque ↦
        elim (escribir_desde d.bloques (mover_int (bloque * d.bloques_size) rw_info.ptr)
          (take rw_info.size buffer)) [
            | none ↦ none
            | some bloques ↦ some (record d { bloques = bloques }, OpCode.io_success)
          ]
  ]

  -- `leer_memoria` is the transfer from the memory process.
  unfoldable pub fs_write_file :
      (List MemoriaFisica → Option (List ℕ)) → Disco B → Io → List ℕ → Option (Disco B × OpCode)
  unfolding escribir_en get_config
  fs_write_file leer_memoria d io fs_path = elim (get_io_read_write io fs_path) [
    | none ↦ none
    | some (path, rw_info) ↦
        escribir_en d rw_info (leer_memoria rw_info.frames) (get_config d.metadata path)
  ]

  -- `escribir_memoria` is the transfer to the memory process, and says whether it went well.
  unfoldable pub leer_de :
      (List ℕ → List MemoriaFisica → Bool) → Disco B → FsRw → Option Archivo → Option OpCode
  unfolding leer_desde mover_int
  leer_de escribir_memoria d rw_info none = some OpCode.io_error
  leer_de escribir_memoria d rw_info (some f) = elim f.bloque_inicial [
    | none ↦ none
    | some bloque ↦
        elim (leer_desde d.bloques (mover_int (bloque * d.bloques_size) rw_info.ptr) rw_info.size) [
          | none ↦ none
          | some buffer ↦ some (
              if escribir_memoria buffer rw_info.frames then OpCode.io_success else OpCode.io_error)
        ]
  ]

  unfoldable pub fs_read_file :
      (List ℕ → List MemoriaFisica → Bool) → Disco B → Io → List ℕ → Option OpCode
  unfolding leer_de get_config
  fs_read_file escribir_memoria d io fs_path = elim (get_io_read_write io fs_path) [
    | none ↦ none
    | some (path, rw_info) ↦ leer_de escribir_memoria d rw_info (get_config d.metadata path)
  ]
