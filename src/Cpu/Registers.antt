-- ===== src/Cpu/Registers.antt =====
-- cpu/src/auxiliar.c, and the instructions of cpu/src/instructions.c that only touch registers. The pointer that
-- `get_register` returns is the register it points to.
pub mod Ranges
use so_project_c.Common.{
  ℕ, ◌+◌, ◌-◌, ◌%◌, List, [], ◌∷◌, Bool, true, false, ◌&&◌, ◌==◌, if◌then◌else◌, u32_mod,
}
use so_project_c.Protocol.Pcb.{Registros}
use so_project_c.Common.Text.{strcmp_eq}

pub data Registro : Type 0 where
  r_pc r_ax r_bx r_cx r_dx r_eax r_ebx r_ecx r_edx r_si r_di : Registro

-- The texts of main.h.
abbrev pub nombre : Registro → List ℕ
nombre r_pc = b'P' ∷ b'C' ∷ []
nombre r_ax = b'A' ∷ b'X' ∷ []
nombre r_bx = b'B' ∷ b'X' ∷ []
nombre r_cx = b'C' ∷ b'X' ∷ []
nombre r_dx = b'D' ∷ b'X' ∷ []
nombre r_eax = b'E' ∷ b'A' ∷ b'X' ∷ []
nombre r_ebx = b'E' ∷ b'B' ∷ b'X' ∷ []
nombre r_ecx = b'E' ∷ b'C' ∷ b'X' ∷ []
nombre r_edx = b'E' ∷ b'D' ∷ b'X' ∷ []
nombre r_si = b'S' ∷ b'I' ∷ []
nombre r_di = b'D' ∷ b'I' ∷ []

-- An unknown name gives `pcb->registers`, the address of the first register, which is `pc`.
buscar : List Registro → List ℕ → Registro
buscar [] registro = r_pc
buscar (r ∷ rs) registro =
    let later = buscar rs registro in if strcmp_eq registro (nombre r) then r else later

abbrev pub registros : List Registro
registros = r_pc ∷ r_ax ∷ r_bx ∷ r_cx ∷ r_dx ∷ r_eax ∷ r_ebx ∷ r_ecx ∷ r_edx ∷ r_si ∷ r_di ∷ []

unfoldable pub get_register : List ℕ → Registro
unfolding buscar strcmp_eq
get_register registro = buscar registros registro

abbrev pub es_char : Registro → Bool
es_char r_ax = true
es_char r_bx = true
es_char r_cx = true
es_char r_dx = true
es_char _ = false

alguno : List Registro → List ℕ → Bool
alguno [] registro = false
alguno (r ∷ rs) registro = if strcmp_eq (nombre r) registro then true else alguno rs registro

unfoldable pub sizeof_register : List ℕ → ℕ
unfolding alguno strcmp_eq
sizeof_register registro = if alguno (r_ax ∷ r_bx ∷ r_cx ∷ r_dx ∷ []) registro then 1 else 4

abbrev pub valor : Registro → Registros → ℕ
valor r_pc r = r.pc
valor r_ax r = r.ax
valor r_bx r = r.bx
valor r_cx r = r.cx
valor r_dx r = r.dx
valor r_eax r = r.eax
valor r_ebx r = r.ebx
valor r_ecx r = r.ecx
valor r_edx r = r.edx
valor r_si r = r.si
valor r_di r = r.di

-- `set_registro_uint8` and `set_registro_uint32`: the register is of the width of the value wherever they are called.
abbrev pub asignar : Registro → ℕ → Registros → Registros
asignar r_pc v r = record r { pc = v }
asignar r_ax v r = record r { ax = v }
asignar r_bx v r = record r { bx = v }
asignar r_cx v r = record r { cx = v }
asignar r_dx v r = record r { dx = v }
asignar r_eax v r = record r { eax = v }
asignar r_ebx v r = record r { ebx = v }
asignar r_ecx v r = record r { ecx = v }
asignar r_edx v r = record r { edx = v }
asignar r_si v r = record r { si = v }
asignar r_di v r = record r { di = v }

-- The register at its own width, as a `uint32_t`.
pub get_normaliced_register : List ℕ → Registros → ℕ
get_normaliced_register regis r = valor (get_register regis) r

pub data CpuOperation : Type 0 where
  suma resta : CpuOperation

-- `a - b` on an unsigned type of `m` values.
abbrev pub operar : CpuOperation → ℕ → ℕ → ℕ → ℕ
operar suma m a b = (a + b) % m
operar resta m a b = (a + (m - b)) % m

-- A byte of a wider register, read through a `uint8_t*`, is its lowest.
operation_register_uint8 : List ℕ → List ℕ → CpuOperation → Registros → Registros
operation_register_uint8 destino origen operation r =
    let d = get_register destino in
    asignar d (operar operation 256 (valor d r) (valor (get_register origen) r % 256)) r

operation_register_uint32 : List ℕ → List ℕ → CpuOperation → Registros → Registros
unfolding get_normaliced_register
operation_register_uint32 destino origen operation r =
    let d = get_register destino in
    asignar d (operar operation u32_mod (valor d r) (get_normaliced_register origen r)) r

-- The branch of `exec` for SUM and SUB.
unfoldable pub operar_registros : List ℕ → List ℕ → CpuOperation → Registros → Registros
unfolding operation_register_uint8 operation_register_uint32
operar_registros destino origen operation r =
    if sizeof_register destino == 1
    then operation_register_uint8 destino origen operation r
    else operation_register_uint32 destino origen operation r

-- The number that `strtoul` found, if `endptr` is at the end of the text.
convertir : ℕ → ℕ × List ℕ → ℕ
convertir m (n, []) = n % m
convertir m (n, _ ∷ _) = 0

-- `strtoul(value, &endptr, 10)`: the number, and the text from `endptr` on.
module _ (strtoul : List ℕ → ℕ × List ℕ) where
  unfoldable pub atouint8 : List ℕ → ℕ
  unfolding convertir
  atouint8 value = convertir 256 (strtoul value)

  unfoldable pub atouint32 : List ℕ → ℕ
  unfolding convertir
  atouint32 value = convertir u32_mod (strtoul value)

  -- The branch of `exec` for SET.
  unfoldable pub poner : List ℕ → List ℕ → Registros → Registros
  poner registro value r =
      if sizeof_register registro == 1
      then asignar (get_register registro) (atouint8 value) r
      else asignar (get_register registro) (atouint32 value) r

  unfoldable pub jnz_register : List ℕ → List ℕ → Registros → Registros
  jnz_register registro next_pc r =
      if valor (get_register registro) r == 0 then r else asignar r_pc (atouint32 next_pc) r
