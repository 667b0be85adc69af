-- ===== src/Fs/Ownership.antt =====
-- entradasalida/src: the bitmap has a bit set for each block of a file, and for no other.
pub mod Runs
pub mod Growth
pub mod Truncated
pub mod Compact
pub mod Compacted
pub mod Requests
use so_project_c.Common.{
  ℕ, zero, suc, ◌+◌, ◌-◌, ◌*◌, ◌/◌, ◌≤◌, ◌<◌, ◌≡◌, refl, sym, ap, ◌∙◌, arith, Bool, true, false,
  ◌&&◌, Option, none, some, List, [], ◌∷◌, ◌++◌, ◌==◌, ltb, leb, if◌then◌else◌, Bool-cases, inl,
  inr, some_eq, All,
}
use mathlib.Core.Path.{subst}
use so_project_c.Common.BitArray.{BitArray, bit}
use so_project_c.Common.Text.{strcmp_eq, strcmp_eq-eq, strcmp_eq_comm, strcmp_eq_refl}
use so_project_c.Fs.Files.{
  Archivo, Disco, get_config, remove_config, set_config, en_bloques, bloques_de,
}

-- How often a file has the block `j`: at most once.
abbrev pub cubre_de : ℕ → Option ℕ → ℕ → ℕ
cubre_de j none n = 0
cubre_de j (some i) n = if leb i j && ltb j (i + n) then 1 else 0

abbrev pub cubre : ℕ → ℕ → Archivo → ℕ
cubre bs j f = cubre_de j f.bloque_inicial (bloques_de f bs)

unfoldable pub sumar : (Archivo → ℕ) → List Archivo → ℕ
sumar m [] = 0
sumar m (f ∷ fs) = m f + sumar m fs

abbrev pub cubiertos : ℕ → ℕ → List Archivo → ℕ
cubiertos bs j fs = sumar (cubre bs j) fs

-- Whether a file has the path.
abbrev pub tiene : List ℕ → Archivo → ℕ
tiene path f = if strcmp_eq path f.path then 1 else 0

-- A sort that keeps the sum of any measure of the files, as one that only changes their order does.
abbrev pub Reordena : ((Archivo → Archivo → Bool) → List Archivo → List Archivo) → Type 0
Reordena list_sort =
    (antes : Archivo → Archivo → Bool) (m : Archivo → ℕ) (fs : List Archivo)
    → sumar m (list_sort antes fs) ≡ sumar m fs

-- The run of a file ends inside the bitmap; a file without one is empty.
abbrev pub DentroDe : ℕ → Option ℕ → ℕ → ℕ → Type 0
DentroDe max none n tamanio = tamanio ≡ 0
DentroDe max (some i) n tamanio = i + n ≤ max

abbrev pub Dentro : ℕ → ℕ → Archivo → Type 0
Dentro bs max f = DentroDe max f.bloque_inicial (bloques_de f bs) f.tamanio_archivo

pub record IsDisco {B : BitArray} (d : Disco B) : Type 0 where
  pub exact :
      (j : ℕ) → j < B.max_bit d.bitmap → bit B d.bitmap j ≡ cubiertos d.bloques_size j d.metadata
  pub inside : All (Dentro d.bloques_size (B.max_bit d.bitmap)) d.metadata
  pub block_pos : 0 < d.bloques_size
  pub unicos : (path : List ℕ) → sumar (tiene path) d.metadata ≤ 1

pub en_bloques_exact : (n b : ℕ) → 0 < b → en_bloques (n * b) b ≡ n
en_bloques_exact n b h = grind arith

pub en_bloques_cero : (b : ℕ) → 0 < b → en_bloques 0 b ≡ 0
en_bloques_cero b h = grind arith

module _ (m : Archivo → ℕ) where
  pub sumar-append : (fs gs : List Archivo) → sumar m (fs ++ gs) ≡ sumar m fs + sumar m gs
  unfolding sumar
  sumar-append [] gs = omega arith
  sumar-append (f ∷ fs) gs = omega (arith, sumar-append fs gs)

  pub sumar-remove_config :
      (fs : List Archivo) (path : List ℕ) (f : Archivo)
      → get_config fs path ≡ some f
      → sumar m (remove_config fs path) + m f ≡ sumar m fs
  unfolding get_config remove_config sumar
  sumar-remove_config [] path f e = cc
  sumar-remove_config (g ∷ fs) path f e = elim (Bool-cases (strcmp_eq g.path path)) [
    | inl same ↦ let here : g ≡ f = some_eq (rw (same) at e) in rw (same) (omega (arith, ap m here))
    | inr other ↦
        let rest = sumar-remove_config fs path f (rw (other) at e) in
        rw (other) (omega (arith, rest))
  ]

  pub sumar-set_config :
      (fs : List Archivo) (path : List ℕ) (f f' : Archivo)
      → get_config fs path ≡ some f
      → sumar m (set_config fs path f') + m f ≡ sumar m fs + m f'
  unfolding get_config set_config sumar
  sumar-set_config [] path f f' e = cc
  sumar-set_config (g ∷ fs) path f f' e = elim (Bool-cases (strcmp_eq g.path path)) [
    | inl same ↦ let here : g ≡ f = some_eq (rw (same) at e) in rw (same) (omega (arith, ap m here))
    | inr other ↦
        let rest = sumar-set_config fs path f f' (rw (other) at e) in
        rw (other) (omega (arith, rest))
  ]

module _ {κ} (P : Archivo → Type κ) where
  pub All-get_config :
      (fs : List Archivo) (path : List ℕ) {f : Archivo}
      → All P fs
      → get_config fs path ≡ some f
      → P f
  unfolding get_config
  All-get_config [] path t e = absurd (ground (arith, e))
  All-get_config (g ∷ fs) path t e = elim (Bool-cases (strcmp_eq g.path path)) [
    | inl same ↦ subst P (some_eq (rw (same) at e)) t.0
    | inr other ↦ All-get_config fs path t.1 (rw (other) at e)
  ]

  pub All-remove_config :
      (fs : List Archivo) (path : List ℕ) → All P fs → All P (remove_config fs path)
  unfolding remove_config
  All-remove_config [] path t = tt
  All-remove_config (g ∷ fs) path t = elim (Bool-cases (strcmp_eq g.path path)) [
    | inl same ↦ rw (same) t.1
    | inr other ↦ rw (other) (t.0, All-remove_config fs path t.1)
  ]

  pub All-set_config :
      (fs : List Archivo) (path : List ℕ) (f : Archivo)
      → All P fs
      → P f
      → All P (set_config fs path f)
  unfolding set_config
  All-set_config [] path f t h = tt
  All-set_config (g ∷ fs) path f t h = elim (Bool-cases (strcmp_eq g.path path)) [
    | inl same ↦ rw (same) (h, t.1)
    | inr other ↦ rw (other) (t.0, All-set_config fs path f t.1 h)
  ]

pub get_config-path :
    (fs : List Archivo) (path : List ℕ) {f : Archivo} → get_config fs path ≡ some f → f.path ≡ path
unfolding get_config
get_config-path [] path e = absurd (ground (arith, e))
get_config-path (g ∷ fs) path e = elim (Bool-cases (strcmp_eq g.path path)) [
  | inl same ↦ ap (λ x. x.path) (sym (some_eq (rw (same) at e))) ∙ strcmp_eq-eq g.path path same
  | inr other ↦ get_config-path fs path (rw (other) at e)
]

-- A file takes the place of one of its path.
pub veces-set_config :
    (fs : List Archivo) (path q : List ℕ) (f' : Archivo)
    → f'.path ≡ path
    → sumar (tiene q) (set_config fs path f') ≡ sumar (tiene q) fs
unfolding set_config sumar
veces-set_config [] path q f' e = refl
veces-set_config (g ∷ fs) path q f' e = elim (Bool-cases (strcmp_eq g.path path)) [
  | inl same ↦
      let here : f'.path ≡ g.path = e ∙ sym (strcmp_eq-eq g.path path same) in
      rw (same) (ap (λ x. (if strcmp_eq q x then 1 else 0) + sumar (tiene q) fs) here)
  | inr other ↦ let rest = veces-set_config fs path q f' e in rw (other) (omega (arith, rest))
]

-- A path that is not found is not there, and one that is found is.
pub veces_ninguna :
    (fs : List Archivo) (path : List ℕ) → get_config fs path ≡ none → sumar (tiene path) fs ≡ 0
unfolding get_config sumar
veces_ninguna [] path e = refl
veces_ninguna (g ∷ fs) path e = elim (Bool-cases (strcmp_eq g.path path)) [
  | inl same ↦ absurd (ground (arith, e, same))
  | inr other ↦
      let rest = veces_ninguna fs path (rw (other) at e) in
      ground (arith, rest, strcmp_eq_comm g.path path, other)
]

pub veces_alguna :
    (fs : List Archivo) (path : List ℕ) {f : Archivo}
    → get_config fs path ≡ some f
    → 0 < sumar (tiene path) fs
veces_alguna fs path {f} e =
    let here : strcmp_eq path f.path ≡ true =
      ap (strcmp_eq path) (get_config-path fs path e) ∙ strcmp_eq_refl path in
    let sums = sumar-remove_config (tiene path) fs path f e in ground (arith, sums, here)
