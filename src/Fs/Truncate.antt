-- ===== src/Fs/Truncate.antt =====
-- entradasalida/src/dialfs.c: `fs_truncate_file`, with the compaction of auxiliar.c.
use so_project_c.Common.{
  ℕ, ◌+◌, ◌*◌, Bool, true, false, Option, none, some, List, [], ◌∷◌, ◌==◌, ltb, if◌then◌else◌,
}
use so_project_c.Common.Ints.{ℤ, pos, negsuc}
use so_project_c.Common.BitArray.{BitArray}
use so_project_c.Common.Text.{strcmp_eq}
use so_project_c.Common.Memcpy.{copy_to, copy_from}
use so_project_c.Protocol.Codes.{OpCode}
use so_project_c.Protocol.Io.{Io, get_io_truncate}
use so_project_c.Fs.Bitmap.{
  get_init_block_file, resize_down, resize_up, check_space_contiguo, check_space_total,
}
use so_project_c.Fs.Files.{
  Archivo, Disco, get_config, set_config, en_bloques, bloques_de, mas, bajar, subir,
}

-- `sory_by_init_block`
abbrev pub sory_by_init_block : Archivo → Archivo → Bool
sory_by_init_block f g = elim g.bloque_inicial [
  | none ↦ false
  | some j ↦ elim f.bloque_inicial [ none ↦ true | some i ↦ ltb i j ]
]

-- `realocate_data`; the source is read before the target is written.
unfoldable pub realocate_data : List ℕ → Option ℕ → ℕ → ℕ → Option (List ℕ)
realocate_data buffer none new_pos size = some buffer
realocate_data buffer (some current_pos) new_pos size = elim (copy_from buffer current_pos size) [
  | none ↦ none
  | some block ↦ copy_to buffer new_pos block
]

module _ (B : BitArray) where
  open B use {Bits, max_bit}

  -- `realocate_compactacion`, in a bitmap and in blocks, given the run that was found; without one it is fatal unless
  -- the run is empty.
  unfoldable pub realocar_en :
      ℕ → Archivo → Bits → List ℕ → ℕ → ℕ → Option ℕ → Option (Archivo × Bits × List ℕ)
  unfolding resize_up realocate_data
  realocar_en bloques_size f b bloques new_size bit_size none =
      if bit_size == 0 then some (record f { bloque_inicial = none }, b, bloques) else none
  realocar_en bloques_size f b bloques new_size bit_size (some new_block) =
      elim (realocate_data bloques
        (elim f.bloque_inicial [ none ↦ none | some i ↦ some (i * bloques_size) ])
        (new_block * bloques_size) f.tamanio_archivo) [
          | none ↦ none
          | some bloques' ↦ some (
            record f {
              bloque_inicial = some new_block;
              tamanio_archivo =
                  if new_size == 0 then f.tamanio_archivo else new_size * bloques_size;
            },
            resize_up B b new_block (new_block + bit_size),
            bloques',
          )
        ]

  unfoldable pub realocate_compactacion :
      ℕ → Archivo → Bits → List ℕ → ℕ → Option (Archivo × Bits × List ℕ)
  unfolding get_init_block_file realocar_en
  realocate_compactacion bloques_size f b bloques new_size =
      let bit_size =
        if new_size == 0 then en_bloques f.tamanio_archivo bloques_size else new_size in
      realocar_en bloques_size f b bloques new_size bit_size (get_init_block_file B b bit_size)

  -- The loop over the files but the one of `path`.
  unfoldable pub compactar_uno :
      ℕ → Archivo → Bits → List ℕ → Bool → Option (Archivo × Bits × List ℕ)
  unfolding realocate_compactacion
  compactar_uno bloques_size f b bloques true = some (f, b, bloques)
  compactar_uno bloques_size f b bloques false = realocate_compactacion bloques_size f b bloques 0

  unfoldable pub compactar_otros :
      ℕ → List ℕ → List Archivo → Bits → List ℕ → Option (List Archivo × Bits × List ℕ)
  unfolding compactar_uno strcmp_eq
  compactar_otros bloques_size path [] b bloques = some ([], b, bloques)
  compactar_otros bloques_size path (f ∷ fs) b bloques =
      elim (compactar_uno bloques_size f b bloques (strcmp_eq path f.path)) [
        | none ↦ none
        | some (f', b', bloques') ↦ elim (compactar_otros bloques_size path fs b' bloques') [
          | none ↦ none
          | some (fs', b2, bloques2) ↦ some (f' ∷ fs', b2, bloques2)
        ]
      ]

  module _ (list_sort : (Archivo → Archivo → Bool) → List Archivo → List Archivo) where
    -- The compaction for a file that gets `new_size` blocks: all blocks are freed, the others are placed from the start
    -- on, and the file behind them.
    unfoldable pub compactar : Disco B → Archivo → ℕ → Option (Disco B × OpCode)
    unfolding compactar_otros realocate_compactacion set_config resize_down
    compactar d f new_size =
        elim (compactar_otros d.bloques_size f.path (list_sort sory_by_init_block d.metadata)
          (resize_down B d.bitmap 0 (max_bit d.bitmap)) d.bloques) [
            | none ↦ none
            | some (metadata, b, bloques) ↦
                elim (realocate_compactacion d.bloques_size f b bloques new_size) [
                  | none ↦ none
                  | some (f', b', bloques') ↦ some (
                    record d {
                      metadata = set_config metadata f.path f';
                      bitmap = b';
                      bloques = bloques';
                    },
                    OpCode.io_success,
                  )
                ]
          ]

    -- The file moved to a run that is long enough.
    unfoldable pub mover : Disco B → Archivo → ℕ → ℕ → ℕ → Option (Disco B × OpCode)
    unfolding realocate_data set_config resize_down resize_up
    mover d f current_size new_size new_init_block =
        elim (realocate_data d.bloques f.bloque_inicial new_init_block
          (current_size * d.bloques_size)) [
            | none ↦ none
            | some bloques ↦ some (
              record d {
                bitmap =
                    resize_up B (bajar B d.bitmap f.bloque_inicial 0 current_size) new_init_block
                      (new_init_block + new_size);
                bloques = bloques;
                metadata = set_config d.metadata f.path (record f {
                  bloque_inicial = some new_init_block;
                  tamanio_archivo = new_size * d.bloques_size;
                });
              },
              OpCode.io_success,
            )
          ]

    -- A file that grows: where it is, in another run, or behind a compaction; each function is given what the test
    -- before it came to.
    unfoldable pub crecer_fuera : Disco B → Archivo → ℕ → ℕ → Option ℕ → Option (Disco B × OpCode)
    unfolding check_space_total mover compactar
    crecer_fuera d f current_size new_size (some new_init_block) =
        mover d f current_size new_size new_init_block
    crecer_fuera d f current_size new_size none =
        if check_space_total B d.bitmap new_size
        then compactar d f new_size
        else some (d, OpCode.io_error)

    unfoldable pub crecer_en : Disco B → Archivo → ℕ → ℕ → Bool → Option (Disco B × OpCode)
    unfolding get_init_block_file set_config resize_up crecer_fuera
    crecer_en d f current_size new_size true = some (
      record d {
        bitmap = subir B d.bitmap f.bloque_inicial current_size new_size;
        metadata =
            set_config d.metadata f.path (record f { tamanio_archivo = new_size * d.bloques_size });
      },
      OpCode.io_success,
    )
    crecer_en d f current_size new_size false =
        crecer_fuera d f current_size new_size (get_init_block_file B d.bitmap new_size)

    unfoldable pub crecer : Disco B → Archivo → ℕ → ℕ → Option (Disco B × OpCode)
    unfolding check_space_contiguo crecer_en
    crecer d f current_size new_size = crecer_en d f current_size new_size (
        check_space_contiguo B d.bitmap (mas f.bloque_inicial current_size)
          (elim f.bloque_inicial [ none ↦ 0 | some i ↦ i + new_size ]))

    -- The sizes are in blocks.
    unfoldable pub truncar : Disco B → ℕ → Option Archivo → Option (Disco B × OpCode)
    unfolding bloques_de set_config resize_down crecer
    truncar d new_size none = some (d, OpCode.io_error)
    truncar d new_size (some f) =
        let current_size = bloques_de f d.bloques_size in
        let f' = record f { tamanio_archivo = new_size * d.bloques_size } in
        let grown = crecer d f current_size new_size in
        if new_size == current_size
        then some (record d { metadata = set_config d.metadata f.path f' }, OpCode.io_success)
        else (if ltb new_size current_size
            then some (
              record d {
                bitmap = bajar B d.bitmap f.bloque_inicial new_size current_size;
                metadata =
                    set_config d.metadata f.path
                      (if new_size == 0 then record f' { bloque_inicial = none } else f');
              },
              OpCode.io_success,
            )
            else grown)

    -- A negative size that the division rounds to no block truncates to nothing. With one of a block below 0 or more the
    -- code clears the bits in front of the file and stores a negative size: that is outside the model, `none`.
    unfoldable pub truncar_negativo : Disco B → ℕ → Option Archivo → Option (Disco B × OpCode)
    unfolding truncar
    truncar_negativo d n none = some (d, OpCode.io_error)
    truncar_negativo d n (some f) =
        let vacio = truncar d 0 (some f) in if ltb n d.bloques_size then vacio else none

    -- A request that does not hold together gives NULL for the path.
    unfoldable pub truncar_pedido :
        Disco B → Option (Option (List ℕ × ℤ)) → Option (Disco B × OpCode)
    unfolding truncar truncar_negativo get_config
    truncar_pedido d none = none
    truncar_pedido d (some none) = some (d, OpCode.io_error)
    truncar_pedido d (some (some (path, pos new_size))) =
        truncar d (en_bloques new_size d.bloques_size) (get_config d.metadata path)
    truncar_pedido d (some (some (path, negsuc n))) =
        truncar_negativo d (n + 1) (get_config d.metadata path)

    unfoldable pub fs_truncate_file : Disco B → Io → List ℕ → Option (Disco B × OpCode)
    unfolding truncar_pedido
    fs_truncate_file d io fs_path = truncar_pedido d (get_io_truncate io fs_path)
