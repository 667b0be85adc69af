-- ===== src/Fs/Tests.antt =====
-- A disk of four blocks of two bytes, with one file in the first.
use so_project_c.Common.{
  ℕ, ◌≤◌, ◌<◌, ◌≡◌, refl, ◌↔◌, Bool, true, false, none, some, [], ◌∷◌, ◌++◌, arith, ◌==◌, stored,
  some_eq,
}
use so_project_c.Common.BitArray.{indexed_bits}
use so_project_c.Common.Text.{strcmp_eq}
use so_project_c.Protocol.Codes.{OpCode, SetInstruction}
use so_project_c.Protocol.Io.{Io}
use so_project_c.Protocol.Io.Trip.{pedido}
use so_project_c.Protocol.Io.Files.{get_io_file_lem}
use so_project_c.Fs.Bitmap.{get_init_block_file, buscar_init, corrida, check_space_contiguo}
use so_project_c.Fs.Bitmap.Ranges.{check_space_contiguo_iff}
use so_project_c.Fs.Files.{Archivo, Disco, get_config, fs_create_file}
use so_project_c.Fs.Dialfs.{Servicios}
use so_project_c.Fs.Ownership.Requests.{fs_create_file-crea}

-- Bit 0 set.
abbrev bits : ℕ × (ℕ → Bool)
bits = (4, λ j. j == 0)

-- "a"
abbrev archivo_a : Archivo
archivo_a = record { path = b'a' ∷ []; bloque_inicial = some 0; tamanio_archivo = 0 }

abbrev disco : Disco indexed_bits
disco = record {
  bitmap = bits;
  bloques = 0 ∷ 0 ∷ 0 ∷ 0 ∷ 0 ∷ 0 ∷ 0 ∷ 0 ∷ [];
  bloques_size = 2;
  metadata = archivo_a ∷ [];
}

-- To create "b".
abbrev crear_b : Io
crear_b = pedido SetInstruction.io_fs_create (stored (b'b' ∷ []))

abbrev servicios : Servicios
servicios = record {
  list_sort = λ antes fs. fs;
  memoria_lee = λ frames. none;
  memoria_escribe = λ buffer frames. false;
}

-- A hole of one block and one of two; the search for two blocks goes past the second.
abbrev huecos : ℕ × (ℕ → Bool)
huecos = (4, λ j. j == 1)

pasa_de_largo : get_init_block_file indexed_bits huecos 2 ≡ none
unfolding get_init_block_file buscar_init corrida
pasa_de_largo = refl

check_space_contiguo_iff_example : (check_space_contiguo indexed_bits bits (some 1) 3 ≡ true) ↔ (
    (init_bit : ℕ) × (some 1 ≡ some init_bit)
    × (init_bit < 3 → 3 ≤ 4)
    × ((j : ℕ) → init_bit ≤ j → j < 3 → (j == 0) ≡ false))
check_space_contiguo_iff_example =
    check_space_contiguo_iff indexed_bits bits (some 1) 3
      (λ i e. let same : 1 ≡ i = some_eq e in omega (arith, same))

nueva_b : get_config disco.metadata (b'b' ∷ []) ≡ none
unfolding get_config strcmp_eq
nueva_b = refl

abbrev archivo_b : ℕ → Archivo
archivo_b i = record { path = b'b' ∷ []; bloque_inicial = some i; tamanio_archivo = 0 }

fs_create_file-crea_example :
    (r : ℕ) × (r ≤ 1)
    × ((r == 0) ≡ false)
    × (fs_create_file indexed_bits disco crear_b []
        ≡ some (
          record disco {
            metadata = disco.metadata ++ (archivo_b r ∷ []);
            bitmap = indexed_bits.set_bit bits r;
          },
          OpCode.io_success,
        ))
fs_create_file-crea_example =
    fs_create_file-crea indexed_bits disco crear_b [] (b'b' ∷ []) 1
      (get_io_file_lem SetInstruction.io_fs_create (b'b' ∷ []) [] (omega arith, tt)) nueva_b
      (omega arith) refl

abbrev hecho :
    (r : ℕ) × (r ≤ 1)
    × ((r == 0) ≡ false)
    × (fs_create_file indexed_bits disco crear_b []
        ≡ some (
          record disco {
            metadata = disco.metadata ++ (archivo_b r ∷ []);
            bitmap = indexed_bits.set_bit bits r;
          },
          OpCode.io_success,
        ))
hecho =
    fs_create_file-crea indexed_bits disco crear_b [] (b'b' ∷ []) 1
      (get_io_file_lem SetInstruction.io_fs_create (b'b' ∷ []) [] (omega arith, tt)) nueva_b
      (omega arith) refl
