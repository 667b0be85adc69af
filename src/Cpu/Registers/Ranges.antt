-- ===== src/Cpu/Registers/Ranges.antt =====
-- The registers keep the ranges of their C types: eight bits in AX to DX, 32 bits in the others.
use so_project_c.Common.{
  ℕ, ◌+◌, ◌-◌, ◌<◌, ◌≡◌, refl, sym, ap, ◌∙◌, List, [], ◌∷◌, true, false, ◌==◌, if◌then◌else◌, arith,
  Bool-cases, inl, inr, u32_mod, ◌⊎◌,
}
use native.Mathlib.Nat.{mod-lt}
use so_project_c.Protocol.Pcb.{Registros}
use so_project_c.Common.Text.{strcmp_eq, strcmp_eq-eq}
use so_project_c.Cpu.Registers.{
  Registro, r_pc, r_ax, r_bx, r_cx, r_dx, r_eax, r_ebx, r_ecx, r_edx, r_si, r_di, nombre, buscar,
  registros, get_register, es_char, alguno, sizeof_register, valor, asignar, convertir,
  CpuOperation, suma, resta, operar, atouint8, atouint32, operation_register_uint8,
  operation_register_uint32, get_normaliced_register, poner, operar_registros, jnz_register,
}

-- The width that `sizeof_register` gives is that of the register that `get_register` finds.
of_name :
    (r : Registro)
    → (get_register (nombre r) ≡ r)
      × (alguno (r_ax ∷ r_bx ∷ r_cx ∷ r_dx ∷ []) (nombre r) ≡ es_char r)
unfolding get_register buscar alguno strcmp_eq
of_name r_pc = (refl, refl)
of_name _ = (refl, refl)

char_width :
    (rs : List Registro) (name : List ℕ)
    → alguno rs name ≡ true
    → (r : Registro) × (name ≡ nombre r)
unfolding alguno
char_width [] name h = cc
char_width (r ∷ rs) name h = elim (Bool-cases (strcmp_eq (nombre r) name)) [
  | inl same ↦ (r, sym (strcmp_eq-eq (nombre r) name same))
  | inr other ↦ char_width rs name (rw (other, alguno) at h)
]

found :
    (rs : List Registro) (name : List ℕ)
    → (buscar rs name ≡ r_pc) ⊎ (name ≡ nombre (buscar rs name))
unfolding buscar
found [] name = inl refl
found (r ∷ rs) name = elim (Bool-cases (strcmp_eq name (nombre r))) [
  | inl same ↦ inr (rw (same, buscar) (strcmp_eq-eq name (nombre r) same))
  | inr other ↦ rw (other, buscar) (found rs name)
]

-- `sizeof_register` and `get_register` agree on which registers have eight bits.
alguno-es_char :
    (name : List ℕ) → alguno (r_ax ∷ r_bx ∷ r_cx ∷ r_dx ∷ []) name ≡ es_char (get_register name)
unfolding get_register
alguno-es_char name = elim (Bool-cases (alguno (r_ax ∷ r_bx ∷ r_cx ∷ r_dx ∷ []) name)) [
  | inl char ↦
      let (r, e) = char_width (r_ax ∷ r_bx ∷ r_cx ∷ r_dx ∷ []) name char in
      rw e ((of_name r).1 ∙ sym (ap es_char (of_name r).0))
  | inr wide ↦ elim (found registros name) [
    | inl pc ↦ wide ∙ sym (ap es_char pc)
    | inr e ↦ ap (alguno (r_ax ∷ r_bx ∷ r_cx ∷ r_dx ∷ [])) e ∙ (of_name (buscar registros name)).1
  ]
]

-- How many values a register has.
abbrev pub ancho : Registro → ℕ
ancho r = if es_char r then 256 else u32_mod

abbrev pub IsRegistros : Registros → Type 0
IsRegistros r = (e : Registro) → valor e r < ancho e

asignar-IsRegistros :
    (d e : Registro) (v : ℕ) (r : Registros)
    → v < ancho d
    → valor e r < ancho e
    → valor e (asignar d v r) < ancho e
asignar-IsRegistros r_pc r_pc v r hv h = hv
asignar-IsRegistros r_ax r_ax v r hv h = hv
asignar-IsRegistros r_bx r_bx v r hv h = hv
asignar-IsRegistros r_cx r_cx v r hv h = hv
asignar-IsRegistros r_dx r_dx v r hv h = hv
asignar-IsRegistros r_eax r_eax v r hv h = hv
asignar-IsRegistros r_ebx r_ebx v r hv h = hv
asignar-IsRegistros r_ecx r_ecx v r hv h = hv
asignar-IsRegistros r_edx r_edx v r hv h = hv
asignar-IsRegistros r_si r_si v r hv h = hv
asignar-IsRegistros r_di r_di v r hv h = hv
asignar-IsRegistros _ _ v r hv h = h

convertir-lt : (m : ℕ) (x : ℕ × List ℕ) → 0 < m → convertir m x < m
unfolding convertir
convertir-lt m (n, []) h = mod-lt n h
convertir-lt m (n, c ∷ cs) h = h

operar-lt : (op : CpuOperation) (m a b : ℕ) → 0 < m → operar op m a b < m
operar-lt suma m a b h = mod-lt (a + b) h
operar-lt resta m a b h = mod-lt (a + (m - b)) h

-- The two widths, as the register that a name stands for has them.
narrow :
    (name : List ℕ)
    → alguno (r_ax ∷ r_bx ∷ r_cx ∷ r_dx ∷ []) name ≡ true
    → ancho (get_register name) ≡ 256
narrow name c = ap (λ b. if b then 256 else u32_mod) (sym (alguno-es_char name) ∙ c)

wide :
    (name : List ℕ)
    → alguno (r_ax ∷ r_bx ∷ r_cx ∷ r_dx ∷ []) name ≡ false
    → ancho (get_register name) ≡ u32_mod
wide name c = ap (λ b. if b then 256 else u32_mod) (sym (alguno-es_char name) ∙ c)

por_ancho :
    (name : List ℕ) (v w : ℕ) (r : Registros)
    → v < 256
    → w < u32_mod
    → IsRegistros r
    → IsRegistros (
        if sizeof_register name == 1
        then asignar (get_register name) v r
        else asignar (get_register name) w r)
unfolding sizeof_register
por_ancho name v w r hv hw h e = elim (Bool-cases (alguno (r_ax ∷ r_bx ∷ r_cx ∷ r_dx ∷ []) name)) [
  | inl c ↦ rw c (asignar-IsRegistros (get_register name) e v r (rw (narrow name c) hv) (h e))
  | inr c ↦ rw c (asignar-IsRegistros (get_register name) e w r (rw (wide name c) hw) (h e))
]

-- If all registers are in the ranges of their types, they still are after SET, after SUM and SUB,
-- and after JNZ, whatever the operands are.
pub registros-IsRegistros :
    (strtoul : List ℕ → ℕ × List ℕ) (destino origen : List ℕ) (op : CpuOperation) (r : Registros)
    → IsRegistros r
    → IsRegistros (poner strtoul destino origen r)
      × IsRegistros (operar_registros destino origen op r)
      × IsRegistros (jnz_register strtoul destino origen r)
unfolding poner operar_registros jnz_register operation_register_uint8 operation_register_uint32
    get_normaliced_register atouint8 atouint32
registros-IsRegistros strtoul destino origen op r h = (
  por_ancho destino (atouint8 strtoul origen) (atouint32 strtoul origen) r
      (convertir-lt 256 (strtoul origen) (omega arith))
      (convertir-lt u32_mod (strtoul origen) (omega arith)) h,
  por_ancho destino _ _ r (operar-lt op 256 _ _ (omega arith))
      (operar-lt op u32_mod _ _ (omega arith)) h,
  λ e. elim (Bool-cases (valor (get_register destino) r == 0)) [
    | inl z ↦ rw z (h e)
    | inr nz ↦ rw nz (
        asignar-IsRegistros r_pc e (atouint32 strtoul origen) r
          (convertir-lt u32_mod (strtoul origen) (omega arith)) (h e))
  ],
)
