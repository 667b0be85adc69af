-- ===== src/Memory/State.antt =====
-- The state of the memory process, and the operations on it behind the requests: memoria/src/usuario.c,
-- and `liberar_memoria` and `get_pid_page` of memoria.c and proceso.c.
use so_project_c.Common.{
  zero, suc, ℕ, ◌+◌, ◌-◌, ◌/◌, Option, none, some, List, [], ltb, if◌then◌else◌, length, get_elem?,
  suc, ◌∷◌,
}
use so_project_c.Common.BitArray.{BitArray}
use so_project_c.Common.Dict.{get, put, remove}
use so_project_c.Common.Memcpy.{copy_to, copy_from}
use so_project_c.Protocol.Codes.{OpCode}
use so_project_c.Memory.Frames.{resize_up, resize_down}

-- `t_memoria`. A text of the script has no NUL.
pub record Proceso : Type 0 where
  pub pid : ℕ
  pub file : List (List ℕ)
  pub pages : List ℕ

-- `max_pages` is only used to build `bit_map`.
pub record Memoria (B : BitArray) : Type 0 where
  pub page_size : ℕ
  pub bit_map : B.Bits
  pub memoria_usuario : List ℕ
  pub memoria_procesos : List (ℕ × Proceso)

-- `ceil((double) size / page_size)`: the quotient of two `uint32_t` as a `double` is never rounded up to
-- a whole number, so the result is exact.
abbrev pub ceil_div : ℕ → ℕ → ℕ
ceil_div size page_size = (size + (page_size - 1)) / page_size

abbrev pub ceros : ℕ → List ℕ
ceros zero = []
ceros (suc n) = 0 ∷ ceros n

module _ {B : BitArray} where
  -- What main.c sets up: `bits` is the new bit array, and `calloc` clears the user memory.
  abbrev pub inicial : ℕ → ℕ → B.Bits → Memoria B
  inicial mem_size page_size bits = record {
    page_size = page_size;
    bit_map = bits;
    memoria_usuario = ceros mem_size;
    memoria_procesos = [];
  }

  -- `t_memoria` is reached by a pointer, so a change of its pages is a change of the dictionary's entry.
  unfoldable pub con_paginas : Memoria B → Proceso → List ℕ → B.Bits → Memoria B
  con_paginas m p pages bits = record m {
    bit_map = bits;
    memoria_procesos = put p.pid (record p { pages = pages }) m.memoria_procesos;
  }

  unfoldable pub ampliar : Memoria B → Proceso → ℕ → Option (Memoria B × OpCode)
  ampliar m p pages =
      let (code, pages', bits') = resize_up B pages p.pages m.bit_map in
      some (con_paginas m p pages' bits', code)

  unfoldable pub reducir : Memoria B → Proceso → ℕ → Option (Memoria B × OpCode)
  reducir m p pages = elim (resize_down B pages p.pages m.bit_map) [
    | none ↦ none
    | some (pages', bits') ↦ some (con_paginas m p pages' bits', OpCode.mem_success)
  ]

  -- `resize_process` behind the receiving of its request. `pages` of the code is a difference of two `int`s,
  -- and its sign selects the branch. A process that the dictionary lacks is a NULL that the code follows.
  -- A difference that is too large for an `int` is converted to the least one, as on the x86 machines that the program
  -- is built for, and has no opposite: nothing is done.
  unfoldable pub redimensionar : Memoria B → ℕ → ℕ → Option (Memoria B × OpCode)
  unfolding ampliar reducir
  redimensionar m pid new_size = elim (get pid m.memoria_procesos) [
    | none ↦ none
    | some p ↦
        let needed = ceil_div new_size m.page_size in
        let current = length p.pages in
        if ltb current needed
        then (if ltb (needed - current) 0x8000_0000
            then ampliar m p (needed - current)
            else some (m, OpCode.mem_success))
        else if ltb needed current
        then reducir m p (current - needed)
        else some (m, OpCode.mem_success)
  ]

  -- `liberar_memoria`: the entry goes first, and then its frames.
  unfoldable pub liberar : Memoria B → ℕ → Option (Memoria B)
  liberar m pid = elim (get pid m.memoria_procesos) [
    | none ↦ none
    | some p ↦ elim (resize_down B (length p.pages) p.pages m.bit_map) [
      | none ↦ none
      | some (pages', bits') ↦
          some (record m { bit_map = bits'; memoria_procesos = remove pid m.memoria_procesos })
    ]
  ]

  -- `get_pid_page`: `some none` is the answer MEM_ERROR.
  unfoldable pub marco : Memoria B → ℕ → ℕ → Option (Option ℕ)
  marco m pid page = elim (get pid m.memoria_procesos) [
    | none ↦ none
    | some p ↦ some (get_elem? p.pages page)
  ]

  unfoldable pub escribir : Memoria B → ℕ → List ℕ → Option (Memoria B)
  escribir m direccion_fisica value = elim (copy_to m.memoria_usuario direccion_fisica value) [
    | none ↦ none
    | some bytes ↦ some (record m { memoria_usuario = bytes })
  ]

  unfoldable pub leer : Memoria B → ℕ → ℕ → Option (List ℕ)
  leer m direccion_fisica value_size = copy_from m.memoria_usuario direccion_fisica value_size

  -- The end of `leer_archivo`: the new process has the script's lines and no page.
  unfoldable pub alta : Memoria B → ℕ → List (List ℕ) → Memoria B
  alta m pid file = record m {
    memoria_procesos = put pid (record { pid = pid; file = file; pages = [] }) m.memoria_procesos;
  }
