-- ===== src/Fs/Ownership/Runs.antt =====
-- entradasalida/src/dialfs.c: a creation and a deletion keep the bitmap to the files.
use so_project_c.Common.{
  ◌++◌, ◌⊎◌, ℕ, zero, suc, ◌+◌, ◌-◌, ◌*◌, ◌≤◌, ◌<◌, ◌≡◌, refl, sym, ap, ◌∙◌, arith, ◌&&◌, Option,
  none, some, List, [], ◌∷◌, ◌==◌, ltb, leb, if◌then◌else◌, All-append, true, ◌⊎◌, false, inl, inr,
  Bool-cases,
}
use mathlib.Core.Path.{subst}
use so_project_c.Common.Text.{strcmp_eq, strcmp_eq-eq}
use so_project_c.Common.BitArray.{BitArray, bit}
use so_project_c.Fs.Bitmap.{limpiar, marcar, resize_down, get_init_block_file}
use so_project_c.Fs.Bitmap.Ranges.{max_bit-limpiar, limpiar_bit, marcar_bit}
use so_project_c.Fs.Bitmap.Search.{get_init_block_file-libre}
use so_project_c.Fs.Files.{
  Archivo, Disco, get_config, remove_config, en_bloques, bloques_de, bajar, create_file, ocupar,
  crear, borrar,
}
use so_project_c.Fs.Ownership.{
  cubre, Dentro, IsDisco, en_bloques_exact, en_bloques_cero, sumar-append, sumar, tiene,
  veces_ninguna, sumar-remove_config, All-get_config, All-remove_config, cubre_de, DentroDe,
}

-- Whether `j` is one of `n` blocks from `i` on.
abbrev pub tramo : ℕ → ℕ → ℕ → ℕ
tramo i n j = if leb i j && ltb j (i + n) then 1 else 0

pub cubre-tramo :
    (bs j : ℕ) (f : Archivo) {i n : ℕ}
    → f.bloque_inicial ≡ some i
    → bloques_de f bs ≡ n
    → cubre bs j f ≡ tramo i n j
cubre-tramo bs j f {i} e h = ap (λ o. cubre_de j o (bloques_de f bs)) e ∙ ap (cubre_de j (some i)) h

pub cubre_nada : (bs j : ℕ) (f : Archivo) → f.bloque_inicial ≡ none → cubre bs j f ≡ 0
cubre_nada bs j f e = ap (λ o. cubre_de j o (bloques_de f bs)) e

pub Dentro-tramo :
    (bs max : ℕ) (f : Archivo) {i n : ℕ}
    → f.bloque_inicial ≡ some i
    → bloques_de f bs ≡ n
    → i + n ≤ max
    → Dentro bs max f
Dentro-tramo bs max f {i} {n} e h le =
    subst (λ o. DentroDe max o (bloques_de f bs) f.tamanio_archivo) (sym e) (omega (arith, h, le))

-- The other way round.
pub Dentro-inv :
    (bs max : ℕ) (f : Archivo) {i : ℕ}
    → f.bloque_inicial ≡ some i
    → Dentro bs max f
    → i + bloques_de f bs ≤ max
Dentro-inv bs max f e h = subst (λ o. DentroDe max o (bloques_de f bs) f.tamanio_archivo) e h

-- A file of `n` whole blocks, one at least.
pub bloques_de-exact :
    (f : Archivo) (bs i n : ℕ)
    → 0 < bs
    → f.bloque_inicial ≡ some i
    → f.tamanio_archivo ≡ n * bs
    → 0 < n
    → bloques_de f bs ≡ n
unfolding bloques_de
bloques_de-exact f bs i n hb e size pos = rw (e, size, en_bloques_exact n bs hb) (ground arith)

pub bloques_de_vacio :
    (f : Archivo) (bs i : ℕ)
    → 0 < bs
    → f.bloque_inicial ≡ some i
    → f.tamanio_archivo ≡ 0
    → bloques_de f bs ≡ 1
unfolding bloques_de
bloques_de_vacio f bs i hb e size = rw (e, size, en_bloques_cero bs hb) refl

-- A file without a run has no block.
pub bloques_de_nada :
    (f : Archivo) (bs max : ℕ)
    → 0 < bs
    → f.bloque_inicial ≡ none
    → Dentro bs max f
    → bloques_de f bs ≡ 0
unfolding bloques_de
bloques_de_nada f bs max hb e h =
    let empty : f.tamanio_archivo ≡ 0 =
      subst (λ o. DentroDe max o (bloques_de f bs) f.tamanio_archivo) e h in
    rw (e, empty, en_bloques_cero bs hb) refl

pub bloques_de_pos :
    (f : Archivo) (bs : ℕ) {i : ℕ} → f.bloque_inicial ≡ some i → 0 < bloques_de f bs
unfolding bloques_de
bloques_de_pos f bs e = rw (e) (pos_or_one (en_bloques f.tamanio_archivo bs))
  where
    pos_or_one : (n : ℕ) → 0 < (if n == 0 then 1 else n)
    pos_or_one zero = omega arith
    pos_or_one (suc n) = ground arith

sumar_solo : (m : Archivo → ℕ) (f : Archivo) → sumar m (f ∷ []) ≡ m f
unfolding sumar
sumar_solo m f = omega arith

module _ (B : BitArray) where
  open B use {Bits, max_bit, test_bit, set_bit, clean_bit, max_bit-set, test_bit-set}

  -- The bits of a run that is freed, and of one that is taken.
  pub bit-limpiar :
      (b : Bits) (i n j : ℕ)
      → i + n ≤ max_bit b
      → j < max_bit b
      → bit B (limpiar B n i b) j ≡ (if leb i j && ltb j (i + n) then 0 else bit B b j)
  bit-limpiar b i n j h hj = ground (arith, limpiar_bit B n i b j)

  pub bit-marcar :
      (b : Bits) (i n j : ℕ)
      → i + n ≤ max_bit b
      → j < max_bit b
      → bit B (marcar B n i b) j ≡ (if leb i j && ltb j (i + n) then 1 else bit B b j)
  bit-marcar b i n j h hj = ground (arith, marcar_bit B n i b j)

  -- A file that is added with the first block that is free.
  ocupar-IsDisco :
      (d : Disco B) (path : List ℕ) (r : ℕ) (o : Option Archivo)
      → IsDisco d
      → get_config d.metadata path ≡ o
      → get_init_block_file B d.bitmap 1 ≡ some r
      → IsDisco (ocupar B r (create_file B d path r o)).0
  unfolding ocupar create_file
  ocupar-IsDisco d path r (some f) v there e = v
  ocupar-IsDisco d path r none v fresh e =
      let f : Archivo = record { path = path; bloque_inicial = some r; tamanio_archivo = 0 } in
      let (room, free) = get_init_block_file-libre B d.bitmap 1 r r e (omega arith) (omega arith) in
      let one : bloques_de f d.bloques_size ≡ 1 =
        bloques_de_vacio f d.bloques_size r v.block_pos refl refl in
      record {
        exact = λ j hj.
            let hj' : j < max_bit d.bitmap = omega (arith, hj, max_bit-set d.bitmap r) in
            ground (
              arith,
              v.exact j hj',
              test_bit-set d.bitmap r j (omega (arith, room)) hj',
              sumar-append (cubre d.bloques_size j) d.metadata (f ∷ []),
              sumar_solo (cubre d.bloques_size j) f,
              cubre-tramo d.bloques_size j f refl one,
              free,
            );
        inside = rw (max_bit-set d.bitmap r) (
            All-append (Dentro d.bloques_size (max_bit d.bitmap)) d.metadata (f ∷ []) v.inside
              (omega (arith, one, room), tt));
        block_pos = v.block_pos;
        unicos = λ q. uno_mas q (Bool-cases (strcmp_eq q path));
      }
    where
      uno_mas :
          (q : List ℕ)
          → (strcmp_eq q path ≡ true) ⊎ (strcmp_eq q path ≡ false)
          → sumar (tiene q) (
              d.metadata
              ++ (record { path = path; bloque_inicial = some r; tamanio_archivo = 0 } ∷ []))
            ≤ 1
      uno_mas q (inl same) =
          let f : Archivo = record { path = path; bloque_inicial = some r; tamanio_archivo = 0 } in
          let gone : sumar (tiene q) d.metadata ≡ 0 =
            ap (λ x. sumar (tiene x) d.metadata) (strcmp_eq-eq q path same)
            ∙ veces_ninguna d.metadata path fresh in
          ground
            (arith, gone, same, sumar-append (tiene q) d.metadata (f ∷ []), sumar_solo (tiene q) f)
      uno_mas q (inr other) =
          let f : Archivo = record { path = path; bloque_inicial = some r; tamanio_archivo = 0 } in
          ground (
            arith,
            v.unicos q,
            other,
            sumar-append (tiene q) d.metadata (f ∷ []),
            sumar_solo (tiene q) f,
          )

  pub crear-IsDisco :
      (d : Disco B) (path : List ℕ) (o : Option ℕ)
      → IsDisco d
      → get_init_block_file B d.bitmap 1 ≡ o
      → IsDisco (crear B d path o).0
  unfolding crear
  crear-IsDisco d path none v e = v
  crear-IsDisco d path (some r) v e = ocupar-IsDisco d path r (get_config d.metadata path) v refl e

  -- What a file has, nobody else has.
  borrar_run-IsDisco :
      (d : Disco B) (path : List ℕ) (f : Archivo) (o : Option ℕ)
      → IsDisco d
      → get_config d.metadata path ≡ some f
      → f.bloque_inicial ≡ o
      → IsDisco (record d {
        metadata = remove_config d.metadata path;
        bitmap = bajar B d.bitmap o 0 (bloques_de f d.bloques_size);
      })
  unfolding resize_down
  borrar_run-IsDisco d path f none v e empty = record {
    exact = λ j hj. omega (
      arith,
      v.exact j hj,
      sumar-remove_config (cubre d.bloques_size j) d.metadata path f e,
      cubre_nada d.bloques_size j f empty,
    );
    inside = All-remove_config _ d.metadata path v.inside;
    block_pos = v.block_pos;
    unicos = λ q. omega (arith, v.unicos q, sumar-remove_config (tiene q) d.metadata path f e);
  }
  borrar_run-IsDisco d path f (some i) v e at_i =
      let n = bloques_de f d.bloques_size in
      let fits =
        Dentro-inv d.bloques_size (max_bit d.bitmap) f at_i
          (All-get_config _ d.metadata path v.inside e) in
      let same = max_bit-limpiar B (i + n - (i + 0)) (i + 0) d.bitmap in
      record {
        exact = λ j hj.
            let hj' : j < max_bit d.bitmap = omega (arith, hj, same) in
            ground (
              arith,
              v.exact j hj',
              bit-limpiar d.bitmap (i + 0) (i + n - (i + 0)) j (omega (arith, fits)) hj',
              sumar-remove_config (cubre d.bloques_size j) d.metadata path f e,
              cubre-tramo d.bloques_size j f at_i refl,
            );
        inside = rw (same) (All-remove_config _ d.metadata path v.inside);
        block_pos = v.block_pos;
        unicos = λ q. omega (arith, v.unicos q, sumar-remove_config (tiene q) d.metadata path f e);
      }

  pub borrar-IsDisco :
      (d : Disco B) (path : List ℕ) (o : Option Archivo)
      → IsDisco d
      → get_config d.metadata path ≡ o
      → IsDisco (borrar B d path o).0
  unfolding borrar
  borrar-IsDisco d path none v e = v
  borrar-IsDisco d path (some f) v e = borrar_run-IsDisco d path f f.bloque_inicial v e refl
