-- ===== src/Memory/Scripts.antt =====
-- memoria/src/proceso.c: scripts. What the memory takes from its surroundings is `Entorno`: the contents of
-- the files that `fopen` finds, and `string_split` of so-commons.
pub mod Reading
use so_project_c.Common.{
  ℕ, zero, suc, ◌+◌, ◌-◌, Option, none, some, List, [], ◌∷◌, ◌++◌, ltb, ◌==◌, if◌then◌else◌, length,
  get_elem?, u32_mod, ◌%◌,
}
use so_project_c.Common.Ints.{ℤ, pos, negsuc, a_int}
use so_project_c.Common.BitArray.{BitArray}
use so_project_c.Common.Dict.{get}
use so_project_c.Protocol.Codes.{OpCode}
use so_project_c.Protocol.Packet.{Paquete, crear_paquete}
use so_project_c.Protocol.Io.{agregar_params}
use so_project_c.Memory.State.{Memoria, Proceso, alta}

pub record Entorno : Type 0 where
  pub path_scripts : List ℕ
  pub fopen : List ℕ → Option (List ℕ)
  pub string_split : List ℕ → List ℕ → List (List ℕ)

-- The characters that `fgets` reads into room for `n`: up to a newline, and that too.
pub linea : ℕ → List ℕ → List ℕ × List ℕ
linea zero bs = ([], bs)
linea (suc n) [] = ([], [])
linea (suc n) (c ∷ bs) =
    let (cs, rest) = linea n bs in if c == 10 then (c ∷ [], bs) else (c ∷ cs, rest)

-- `fgets(buffer, size, archivo)`, with the bytes that are left in the file. NULL is `none`: the end of the
-- file before any character. With room for the NUL alone nothing is read, and the end is not met.
pub fgets : ℕ → List ℕ → Option (List ℕ × List ℕ)
unfolding linea
fgets zero bs = none
fgets (suc zero) bs = some ([], bs)
fgets (suc (suc n)) [] = none
fgets (suc (suc n)) (c ∷ bs) = some (linea (suc n) (c ∷ bs))

-- What `string_append` takes from the buffer.
pub antes_de_nul : List ℕ → List ℕ
antes_de_nul [] = []
antes_de_nul (zero ∷ bs) = []
antes_de_nul (suc c ∷ bs) = suc c ∷ antes_de_nul bs

-- `while (fgets(...) != NULL) string_append(...)`; `none` is a loop that has not ended after `fuel` rounds.
pub leer_lineas : ℕ → ℕ → List ℕ → List ℕ → Option (List ℕ)
unfolding fgets antes_de_nul
leer_lineas zero size archivo texto = none
leer_lineas (suc fuel) size archivo texto = elim (fgets size archivo) [
  | none ↦ some texto
  | some (buffer, rest) ↦ leer_lineas fuel size rest (texto ++ antes_de_nul buffer)
]

-- The size of a file is an `int`; `fgets` reads as much with a negative one as with 0.
unfoldable pub get_file_size : List ℕ → ℤ
unfolding a_int
get_file_size archivo = a_int (length archivo % u32_mod)

abbrev pub espacio : ℤ → ℕ
espacio (pos n) = n
espacio (negsuc n) = 0

-- The whole text of a file.
pub leer_texto : List ℕ → Option (List ℕ)
unfolding leer_lineas get_file_size
leer_texto archivo = leer_lineas (length archivo + 1) (espacio (get_file_size archivo)) archivo []

pub open_file : Entorno → List ℕ → Option (List ℕ)
open_file e nombre = e.fopen (e.path_scripts ++ nombre)

-- `none` is a loop that does not end.
unfoldable pub leer_script : Entorno → List ℕ → Option (OpCode × List ℕ)
unfolding open_file
leer_script e nombre_script = elim (open_file e nombre_script) [
  | none ↦ some (OpCode.init_script_error, [])
  | some archivo ↦ elim (leer_texto archivo) [
    | none ↦ none
    | some comandos ↦ some (OpCode.init_script_success, comandos)
  ]
]

module _ {B : BitArray} where
  unfoldable pub leer_archivo : Entorno → Memoria B → ℕ → List ℕ → Option (Memoria B × OpCode)
  unfolding open_file
  leer_archivo e m pid nombre_archivo = elim (open_file e nombre_archivo) [
    | none ↦ some (m, OpCode.init_pid_error)
    | some archivo ↦ elim (leer_texto archivo) [
      | none ↦ none
      | some instructions ↦
          some (alta m pid (e.string_split instructions (10 ∷ [])), OpCode.init_pid_success)
    ]
  ]

  -- The line at `pc`, taken apart at its spaces. Past the last line stands a NULL, which the code follows.
  unfoldable pub get_instruction_pid : Entorno → Memoria B → ℕ → ℕ → Option (List (List ℕ))
  get_instruction_pid e m pid pc = elim (get pid m.memoria_procesos) [
    | none ↦ none
    | some p ↦ elim (get_elem? p.file pc) [
      | none ↦ none
      | some instruccion ↦ some (e.string_split instruccion (b' ' ∷ []))
    ]
  ]

unfoldable pub enviar_instruccion : List (List ℕ) → Paquete
unfolding agregar_params
enviar_instruccion array_instruction =
    agregar_params (crear_paquete OpCode.instruction) array_instruction
