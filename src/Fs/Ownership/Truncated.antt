-- ===== src/Fs/Ownership/Truncated.antt =====
-- entradasalida/src/dialfs.c: `fs_truncate_file` as a whole.
use so_project_c.Common.{
  ℕ, ◌+◌, ◌*◌, ◌<◌, ◌≡◌, refl, sym, ap, ◌∙◌, arith, Bool, true, false, Option, none, some, List,
  ◌==◌, ltb, if◌then◌else◌, Bool-cases, inl, inr, some_eq, bind_inv, ==_iff,
}
use mathlib.Core.Path.{subst}
use so_project_c.Common.BitArray.{BitArray}
use so_project_c.Protocol.Codes.{OpCode}
use so_project_c.Fs.Bitmap.{get_init_block_file, check_space_contiguo, check_space_total}
use so_project_c.Fs.Files.{Archivo, Disco, get_config, set_config, bloques_de, bajar, subir, mas}
use so_project_c.Fs.Truncate.{mover, crecer, crecer_en, crecer_fuera, truncar, realocate_data}
use so_project_c.Fs.Ownership.Compacted.{compactar-IsDisco}
use so_project_c.Fs.Ownership.{DentroDe, IsDisco, All-get_config, get_config-path, Reordena}
use so_project_c.Fs.Ownership.Runs.{
  cubre-tramo, cubre_nada, Dentro-tramo, Dentro-inv, bloques_de-exact, bloques_de_nada,
  bloques_de_pos,
}
use so_project_c.Fs.Ownership.Growth.{
  cambiar-IsDisco, reducir-IsDisco, ampliar-IsDisco, trasladar-IsDisco,
}

por_cero : (n b : ℕ) → n ≡ 0 → n * b ≡ 0
por_cero n b h = rw (h) (grind arith)

module _ (B : BitArray) where
  open B use {Bits, max_bit, test_bit}

  abbrev con_tamanio : Archivo → ℕ → ℕ → Archivo
  con_tamanio f new_size bs = record f { tamanio_archivo = new_size * bs }

  -- The size of a file that has as many blocks as before.
  redondear-IsDisco :
      (d : Disco B) (f : Archivo) (o : Option ℕ) (new_size : ℕ)
      → IsDisco d
      → get_config d.metadata f.path ≡ some f
      → f.bloque_inicial ≡ o
      → new_size ≡ bloques_de f d.bloques_size
      → IsDisco (record d {
        metadata = set_config d.metadata f.path (con_tamanio f new_size d.bloques_size);
      })
  redondear-IsDisco d f none new_size v e at_none same =
      let f' = con_tamanio f new_size d.bloques_size in
      let zero_blocks =
        bloques_de_nada f d.bloques_size (max_bit d.bitmap) v.block_pos at_none
          (All-get_config _ d.metadata f.path v.inside e) in
      let empty = por_cero new_size d.bloques_size (omega (arith, same, zero_blocks)) in
      cambiar-IsDisco B d f f' d.bitmap d.bloques v e refl
        (λ j hj.
          omega
            (arith, cubre_nada d.bloques_size j f at_none, cubre_nada d.bloques_size j f' at_none))
        (subst
          (λ o. DentroDe (max_bit d.bitmap) o (bloques_de f' d.bloques_size) f'.tamanio_archivo)
          (sym at_none) empty)
        refl
  redondear-IsDisco d f (some i) new_size v e at_i same =
      let f' = con_tamanio f new_size d.bloques_size in
      let fits =
        Dentro-inv d.bloques_size (max_bit d.bitmap) f at_i
          (All-get_config _ d.metadata f.path v.inside e) in
      let pos = bloques_de_pos f d.bloques_size at_i in
      let size =
        bloques_de-exact f' d.bloques_size i new_size v.block_pos at_i refl
          (omega (arith, same, pos)) in
      cambiar-IsDisco B d f f' d.bitmap d.bloques v e refl
        (λ j hj. ground (
          arith,
          same,
          cubre-tramo d.bloques_size j f at_i refl,
          cubre-tramo d.bloques_size j f' at_i size,
        ))
        (Dentro-tramo d.bloques_size (max_bit d.bitmap) f' at_i size (omega (arith, same, fits)))
        refl

  -- Fewer blocks, or none.
  menos-IsDisco :
      (d : Disco B) (f : Archivo) (o : Option ℕ) (new_size : ℕ)
      → IsDisco d
      → get_config d.metadata f.path ≡ some f
      → f.bloque_inicial ≡ o
      → new_size < bloques_de f d.bloques_size
      → (b : Bool) → (new_size == 0) ≡ b
      → IsDisco (record d {
        bitmap = bajar B d.bitmap o new_size (bloques_de f d.bloques_size);
        metadata = set_config d.metadata f.path (
            if b
            then record (con_tamanio f new_size d.bloques_size) { bloque_inicial = none }
            else con_tamanio f new_size d.bloques_size);
      })
  menos-IsDisco d f o new_size v e at_o less true is_zero =
      let f' = record (con_tamanio f new_size d.bloques_size) { bloque_inicial = none } in
      let nil = (==_iff new_size 0).0 is_zero in
      reducir-IsDisco B d f f' o new_size v e at_o less (λ i j _. ground (arith, nil))
        (por_cero new_size d.bloques_size nil) refl
  menos-IsDisco d f none new_size v e at_none less false some_left = absurd (
      omega (
        arith,
        less,
        bloques_de_nada f d.bloques_size (max_bit d.bitmap) v.block_pos at_none
            (All-get_config _ d.metadata f.path v.inside e),
      ))
  menos-IsDisco d f (some i) new_size v e at_i less false some_left =
      let f' = con_tamanio f new_size d.bloques_size in
      let fits =
        Dentro-inv d.bloques_size (max_bit d.bitmap) f at_i
          (All-get_config _ d.metadata f.path v.inside e) in
      let size =
        bloques_de-exact f' d.bloques_size i new_size v.block_pos at_i refl
          (ground (arith, some_left)) in
      reducir-IsDisco B d f f' (some i) new_size v e at_i less
        (λ k j same. rw (← some_eq same) (cubre-tramo d.bloques_size j f' at_i size))
        (Dentro-tramo d.bloques_size (max_bit d.bitmap) f' at_i size (omega (arith, less, fits)))
        refl

  module _ (list_sort : (Archivo → Archivo → Bool) → List Archivo → List Archivo) where
    mover-IsDisco :
        (d : Disco B) (f : Archivo) (new_size r : ℕ) {x : Disco B × OpCode}
        → IsDisco d
        → get_config d.metadata f.path ≡ some f
        → bloques_de f d.bloques_size < new_size
        → get_init_block_file B d.bitmap new_size ≡ some r
        → mover B list_sort d f (bloques_de f d.bloques_size) new_size r ≡ some x
        → IsDisco x.0
    unfolding mover
    mover-IsDisco d f new_size r v e more found h =
        let f' : Archivo = record f {
          bloque_inicial = some r;
          tamanio_archivo = new_size * d.bloques_size;
        } in
        let pos : 0 < new_size = omega (arith, more) in
        let (bloques, _, h1) =
          bind_inv
            (realocate_data d.bloques f.bloque_inicial r
              (bloques_de f d.bloques_size * d.bloques_size))
            _ h in
        subst (λ y. IsDisco y.0) (some_eq h1)
          (trasladar-IsDisco B d f f' f.bloque_inicial r new_size bloques v e refl refl refl
            (bloques_de-exact f' d.bloques_size r new_size v.block_pos refl refl pos) pos found)

    -- Without a run that is long enough the disk is compacted, if it has the space.
    crecer_fuera-IsDisco :
        (d : Disco B) (f : Archivo) (new_size : ℕ) (o : Option ℕ) {x : Disco B × OpCode}
        → IsDisco d
        → get_config d.metadata f.path ≡ some f
        → bloques_de f d.bloques_size < new_size
        → get_init_block_file B d.bitmap new_size ≡ o
        → Reordena list_sort
        → crecer_fuera B list_sort d f (bloques_de f d.bloques_size) new_size o ≡ some x
        → IsDisco x.0
    unfolding crecer_fuera
    crecer_fuera-IsDisco d f new_size (some r) v e more found sorted h =
        mover-IsDisco d f new_size r v e more found h
    crecer_fuera-IsDisco d f new_size none v e more found sorted h =
        elim (Bool-cases (check_space_total B d.bitmap new_size)) [
          | inl space ↦ compactar-IsDisco B list_sort d f new_size sorted v e (rw (space) at h)
          | inr short ↦ subst (λ y. IsDisco y.0) (some_eq (rw (short) at h)) v
        ]

    crecer_en-IsDisco :
        (d : Disco B) (f : Archivo) (o : Option ℕ) (new_size : ℕ) (b : Bool) {x : Disco B × OpCode}
        → IsDisco d
        → get_config d.metadata f.path ≡ some f
        → f.bloque_inicial ≡ o
        → bloques_de f d.bloques_size < new_size
        → check_space_contiguo B d.bitmap
            (mas o (bloques_de f d.bloques_size))
            (elim o as (λ _. ℕ) [ none ↦ 0 | some i ↦ i + new_size ])
          ≡ b
        → Reordena list_sort
        → crecer_en B list_sort d f (bloques_de f d.bloques_size) new_size b ≡ some x
        → IsDisco x.0
    unfolding crecer_en check_space_contiguo
    crecer_en-IsDisco d f o new_size false v e at_o more free sorted h =
        crecer_fuera-IsDisco d f new_size _ v e more refl sorted h
    crecer_en-IsDisco d f none new_size true v e at_o more free sorted h = cc
    crecer_en-IsDisco d f (some i) new_size true v e at_i more free sorted h =
        let f' = con_tamanio f new_size d.bloques_size in
        let size =
          bloques_de-exact f' d.bloques_size i new_size v.block_pos at_i refl
            (omega (arith, more)) in
        let grown = ampliar-IsDisco B d f f' i new_size v e at_i at_i refl size more free in
        subst (λ y. IsDisco y.0)
          (ap
              (λ z. (
                record d {
                  bitmap = subir B d.bitmap z (bloques_de f d.bloques_size) new_size;
                  metadata = set_config d.metadata f.path f';
                },
                OpCode.io_success,
              ))
              (sym at_i)
            ∙ some_eq h)
          grown

    -- A truncation that is answered keeps a bit set for each block of a file and for no other.
    pub truncar-IsDisco :
        (d : Disco B) (path : List ℕ) (new_size : ℕ) (o : Option Archivo) {x : Disco B × OpCode}
        → IsDisco d
        → get_config d.metadata path ≡ o
        → Reordena list_sort
        → truncar B list_sort d new_size o ≡ some x
        → IsDisco x.0
    unfolding truncar crecer
    truncar-IsDisco d path new_size none v e sorted h = subst (λ y. IsDisco y.0) (some_eq h) v
    truncar-IsDisco d path new_size (some f) v e sorted h =
        let e' : get_config d.metadata f.path ≡ some f =
          subst (λ p. get_config d.metadata p ≡ some f) (sym (get_config-path d.metadata path e))
            e in
        let n = bloques_de f d.bloques_size in
        elim (Bool-cases (new_size == n)) [
          | inl same ↦
              subst (λ y. IsDisco y.0) (some_eq (rw (same) at h))
                (redondear-IsDisco d f f.bloque_inicial new_size v e' refl
                  ((==_iff new_size n).0 same))
          | inr other ↦ elim (Bool-cases (ltb new_size n)) [
            | inl less ↦
                subst (λ y. IsDisco y.0) (some_eq (rw (other, less) at h))
                  (menos-IsDisco d f f.bloque_inicial new_size v e' refl (ground (arith, less))
                    (new_size == 0) refl)
            | inr more ↦
                crecer_en-IsDisco d f f.bloque_inicial new_size _ v e' refl
                  (ground (arith, other, more)) refl sorted (rw (other, more) at h)
          ]
        ]
