-- ===== src/Cpu/Decode.antt =====
-- cpu/src/auxiliar.c, `mapInstruction`, and cpu/src/cpu.c, `decode`.
use so_project_c.Common.{ℕ, zero, suc, Option, none, some, List, [], ◌∷◌, if◌then◌else◌}
use so_project_c.Protocol.Codes.{
  SetInstruction, set, sum, sub, jnz, mov_in, mov_out, resize, copy_string, wait, signal,
  io_stdin_read, io_stdout_write, io_gen_sleep, io_fs_create, io_fs_delete, io_fs_truncate,
  io_fs_read, io_fs_write, exit, unknown,
}
use so_project_c.Common.Text.{strcmp_eq}

abbrev pub texto : SetInstruction → List ℕ
texto set = b'S' ∷ b'E' ∷ b'T' ∷ []
texto sum = b'S' ∷ b'U' ∷ b'M' ∷ []
texto sub = b'S' ∷ b'U' ∷ b'B' ∷ []
texto jnz = b'J' ∷ b'N' ∷ b'Z' ∷ []
texto mov_in = b'M' ∷ b'O' ∷ b'V' ∷ b'_' ∷ b'I' ∷ b'N' ∷ []
texto mov_out = b'M' ∷ b'O' ∷ b'V' ∷ b'_' ∷ b'O' ∷ b'U' ∷ b'T' ∷ []
texto resize = b'R' ∷ b'E' ∷ b'S' ∷ b'I' ∷ b'Z' ∷ b'E' ∷ []
texto copy_string = b'C' ∷ b'O' ∷ b'P' ∷ b'Y' ∷ b'_' ∷ b'S' ∷ b'T' ∷ b'R' ∷ b'I' ∷ b'N' ∷ b'G' ∷ []
texto wait = b'W' ∷ b'A' ∷ b'I' ∷ b'T' ∷ []
texto signal = b'S' ∷ b'I' ∷ b'G' ∷ b'N' ∷ b'A' ∷ b'L' ∷ []
texto io_stdin_read =
    b'I' ∷ b'O' ∷ b'_' ∷ b'S' ∷ b'T' ∷ b'D' ∷ b'I' ∷ b'N' ∷ b'_' ∷ b'R' ∷ b'E' ∷ b'A' ∷ b'D' ∷ []
texto io_stdout_write =
    b'I' ∷ b'O' ∷ b'_' ∷ b'S' ∷ b'T' ∷ b'D' ∷ b'O' ∷ b'U' ∷ b'T' ∷ b'_' ∷ b'W' ∷ b'R' ∷ b'I' ∷ b'T'
    ∷ b'E' ∷ []
texto io_gen_sleep =
    b'I' ∷ b'O' ∷ b'_' ∷ b'G' ∷ b'E' ∷ b'N' ∷ b'_' ∷ b'S' ∷ b'L' ∷ b'E' ∷ b'E' ∷ b'P' ∷ []
texto io_fs_create =
    b'I' ∷ b'O' ∷ b'_' ∷ b'F' ∷ b'S' ∷ b'_' ∷ b'C' ∷ b'R' ∷ b'E' ∷ b'A' ∷ b'T' ∷ b'E' ∷ []
texto io_fs_delete =
    b'I' ∷ b'O' ∷ b'_' ∷ b'F' ∷ b'S' ∷ b'_' ∷ b'D' ∷ b'E' ∷ b'L' ∷ b'E' ∷ b'T' ∷ b'E' ∷ []
texto io_fs_truncate =
    b'I' ∷ b'O' ∷ b'_' ∷ b'F' ∷ b'S' ∷ b'_' ∷ b'T' ∷ b'R' ∷ b'U' ∷ b'N' ∷ b'C' ∷ b'A' ∷ b'T' ∷ b'E'
    ∷ []
texto io_fs_read = b'I' ∷ b'O' ∷ b'_' ∷ b'F' ∷ b'S' ∷ b'_' ∷ b'R' ∷ b'E' ∷ b'A' ∷ b'D' ∷ []
texto io_fs_write = b'I' ∷ b'O' ∷ b'_' ∷ b'F' ∷ b'S' ∷ b'_' ∷ b'W' ∷ b'R' ∷ b'I' ∷ b'T' ∷ b'E' ∷ []
texto exit = b'E' ∷ b'X' ∷ b'I' ∷ b'T' ∷ []
texto unknown = []

-- The instructions in the order of the tests.
abbrev pub conocidas : List SetInstruction
conocidas =
    set ∷ sum ∷ sub ∷ jnz ∷ mov_in ∷ mov_out ∷ resize ∷ copy_string ∷ wait ∷ signal ∷ io_stdin_read
    ∷ io_stdout_write ∷ io_gen_sleep ∷ io_fs_create ∷ io_fs_delete ∷ io_fs_truncate ∷ io_fs_read
    ∷ io_fs_write ∷ exit ∷ []

primera : List SetInstruction → List ℕ → SetInstruction
unfolding strcmp_eq
primera [] intruction = unknown
primera (i ∷ rest) intruction =
    let later = primera rest intruction in if strcmp_eq intruction (texto i) then i else later

unfoldable pub map_instruction : List ℕ → SetInstruction
unfolding primera
map_instruction intruction = primera conocidas intruction

-- `t_intruction_execute`; `total_params` is the length of `params`.
pub record InstructionExecute : Type 0 where
  pub operation : SetInstruction
  pub params : List (List ℕ)

-- How many parameters `decode` takes for an instruction.
abbrev pub total_params : SetInstruction → ℕ
total_params set = 2
total_params sum = 2
total_params sub = 2
total_params jnz = 2
total_params mov_in = 2
total_params mov_out = 2
total_params resize = 1
total_params copy_string = 1
total_params wait = 1
total_params signal = 1
total_params io_stdin_read = 3
total_params io_stdout_write = 3
total_params io_gen_sleep = 2
total_params io_fs_create = 2
total_params io_fs_delete = 2
total_params io_fs_truncate = 3
total_params io_fs_read = 5
total_params io_fs_write = 5
total_params exit = 0
total_params unknown = 0

-- So many calls of `list_remove(list_instruction, 0)`; one that finds no element leaves a NULL, which the
-- instruction then follows: `none`.
unfoldable pub quitar : ℕ → List (List ℕ) → Option (List (List ℕ))
quitar zero l = some []
quitar (suc n) [] = none
quitar (suc n) (x ∷ l) = elim (quitar n l) [ none ↦ none | some xs ↦ some (x ∷ xs) ]

unfoldable pub con_operacion : SetInstruction → List (List ℕ) → Option InstructionExecute
con_operacion operation list_instruction = elim (quitar (total_params operation) list_instruction) [
  | none ↦ none
  | some params ↦ some (record { operation = operation; params = params })
]

unfoldable pub decode : List (List ℕ) → Option InstructionExecute
decode [] = none
decode (instruction_type ∷ list_instruction) =
    con_operacion (map_instruction instruction_type) list_instruction
