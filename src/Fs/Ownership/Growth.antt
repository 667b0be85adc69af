-- ===== src/Fs/Ownership/Growth.antt =====
-- entradasalida/src/dialfs.c: a truncation keeps the bitmap to the files.
use so_project_c.Common.{
  ℕ, ◌+◌, ◌-◌, ◌≤◌, ◌<◌, ◌≡◌, refl, ◌∙◌, arith, true, Option, none, some, List, [],
}
use so_project_c.Common.BitArray.{BitArray, bit}
use so_project_c.Fs.Bitmap.{
  limpiar, resize_down, resize_up, get_init_block_file, check_space_contiguo,
}
use so_project_c.Fs.Bitmap.Ranges.{max_bit-limpiar, max_bit-marcar, contiguo_libre, contiguo_dentro}
use so_project_c.Fs.Bitmap.Search.{get_init_block_file-libre}
use so_project_c.Fs.Files.{Archivo, Disco, get_config, set_config, bloques_de, bajar, subir}
use so_project_c.Fs.Ownership.{
  cubre, Dentro, IsDisco, sumar-set_config, veces-set_config, All-get_config, All-set_config,
}
use so_project_c.Fs.Ownership.Runs.{
  tramo, cubre-tramo, cubre_nada, Dentro-tramo, Dentro-inv, bloques_de_nada, bit-limpiar,
  bit-marcar,
}

module _ (B : BitArray) where
  open B use {Bits, max_bit, test_bit}

  -- The other files have no block of this one.
  posee :
      (d : Disco B) (f : Archivo) (j : ℕ)
      → IsDisco d
      → get_config d.metadata f.path ≡ some f
      → j < max_bit d.bitmap
      → cubre d.bloques_size j f ≤ bit B d.bitmap j
  posee d f j v e hj =
      let vacio : Archivo = record { path = []; bloque_inicial = none; tamanio_archivo = 0 } in
      omega
        (arith, v.exact j hj, sumar-set_config (cubre d.bloques_size j) d.metadata f.path f vacio e)

  -- A file takes another run, and the bitmap changes by the two.
  pub cambiar-IsDisco :
      (d : Disco B) (f f' : Archivo) (b : Bits) (bloques : List ℕ)
      → IsDisco d
      → get_config d.metadata f.path ≡ some f
      → max_bit b ≡ max_bit d.bitmap
      → ((j : ℕ)
          → j < max_bit d.bitmap
          → bit B b j + cubre d.bloques_size j f ≡ bit B d.bitmap j + cubre d.bloques_size j f')
      → Dentro d.bloques_size (max_bit d.bitmap) f'
      → f'.path ≡ f.path
      → IsDisco
          (record d { bitmap = b; bloques = bloques; metadata = set_config d.metadata f.path f' })
  cambiar-IsDisco d f f' b bloques v e same moved room named = record {
    exact = λ j hj.
        let hj' : j < max_bit d.bitmap = omega (arith, hj, same) in
        omega (
          arith,
          v.exact j hj',
          moved j hj',
          sumar-set_config (cubre d.bloques_size j) d.metadata f.path f f' e,
        );
    inside = rw (same) (All-set_config _ d.metadata f.path f' v.inside room);
    block_pos = v.block_pos;
    unicos = λ q. omega (arith, v.unicos q, veces-set_config d.metadata f.path q f' named);
  }

  -- The file that is given fewer blocks.
  pub reducir-IsDisco :
      (d : Disco B) (f f' : Archivo) (o : Option ℕ) (new_size : ℕ)
      → IsDisco d
      → get_config d.metadata f.path ≡ some f
      → f.bloque_inicial ≡ o
      → new_size < bloques_de f d.bloques_size
      → ((i j : ℕ) → o ≡ some i → cubre d.bloques_size j f' ≡ tramo i new_size j)
      → Dentro d.bloques_size (max_bit d.bitmap) f'
      → f'.path ≡ f.path
      → IsDisco (record d {
        bitmap = bajar B d.bitmap o new_size (bloques_de f d.bloques_size);
        metadata = set_config d.metadata f.path f';
      })
  unfolding resize_down bloques_de
  reducir-IsDisco d f f' none new_size v e at_none less rest room named = absurd (
      omega (
        arith,
        less,
        bloques_de_nada f d.bloques_size (max_bit d.bitmap) v.block_pos at_none
            (All-get_config _ d.metadata f.path v.inside e),
      ))
  reducir-IsDisco d f f' (some i) new_size v e at_i less rest room named =
      let n = bloques_de f d.bloques_size in
      let fits =
        Dentro-inv d.bloques_size (max_bit d.bitmap) f at_i
          (All-get_config _ d.metadata f.path v.inside e) in
      let k = i + n - (i + new_size) in
      cambiar-IsDisco d f f' _ d.bloques v e (max_bit-limpiar B k (i + new_size) d.bitmap)
        (λ j hj. ground (
          arith,
          bit-limpiar B d.bitmap (i + new_size) k j (omega (arith, fits)) hj,
          posee d f j v e hj,
          cubre-tramo d.bloques_size j f at_i refl,
          rest i j refl,
        ))
        room named

  -- The file that grows where it is.
  pub ampliar-IsDisco :
      (d : Disco B) (f f' : Archivo) (i new_size : ℕ)
      → IsDisco d
      → get_config d.metadata f.path ≡ some f
      → f.bloque_inicial ≡ some i
      → f'.bloque_inicial ≡ some i
      → f'.path ≡ f.path
      → bloques_de f' d.bloques_size ≡ new_size
      → bloques_de f d.bloques_size < new_size
      → check_space_contiguo B d.bitmap (some (i + bloques_de f d.bloques_size)) (i + new_size)
        ≡ true
      → IsDisco (record d {
        bitmap = subir B d.bitmap (some i) (bloques_de f d.bloques_size) new_size;
        metadata = set_config d.metadata f.path f';
      })
  unfolding resize_up check_space_contiguo
  ampliar-IsDisco d f f' i new_size v e at_i at_i' named size more free =
      let n = bloques_de f d.bloques_size in
      let fits =
        Dentro-inv d.bloques_size (max_bit d.bitmap) f at_i
          (All-get_config _ d.metadata f.path v.inside e) in
      let k = i + new_size - (i + n) in
      let room = contiguo_dentro B k (i + n) d.bitmap free fits in
      cambiar-IsDisco d f f' _ d.bloques v e (max_bit-marcar B k (i + n) d.bitmap)
        (λ j hj. ground (
          arith,
          bit-marcar B d.bitmap (i + n) k j room hj,
          contiguo_libre B k (i + n) d.bitmap j free,
          cubre-tramo d.bloques_size j f at_i refl,
          cubre-tramo d.bloques_size j f' at_i' size,
        ))
        (Dentro-tramo d.bloques_size (max_bit d.bitmap) f' at_i' size (omega (arith, more, room)))
        named

  -- The file that is moved to a run that is free.
  pub trasladar-IsDisco :
      (d : Disco B) (f f' : Archivo) (o : Option ℕ) (r new_size : ℕ) (bloques : List ℕ)
      → IsDisco d
      → get_config d.metadata f.path ≡ some f
      → f.bloque_inicial ≡ o
      → f'.bloque_inicial ≡ some r
      → f'.path ≡ f.path
      → bloques_de f' d.bloques_size ≡ new_size
      → 0 < new_size
      → get_init_block_file B d.bitmap new_size ≡ some r
      → IsDisco (record d {
        bitmap = resize_up B (bajar B d.bitmap o 0 (bloques_de f d.bloques_size)) r (r + new_size);
        bloques = bloques;
        metadata = set_config d.metadata f.path f';
      })
  unfolding resize_up resize_down
  trasladar-IsDisco d f f' none r new_size bloques v e at_none at_r named size pos found =
      let (room, _) =
        get_init_block_file-libre B d.bitmap new_size r r found (omega arith)
          (omega (arith, pos)) in
      let k = r + new_size - r in
      cambiar-IsDisco d f f' _ bloques v e (max_bit-marcar B k r d.bitmap)
        (λ j hj. ground (
          arith,
          bit-marcar B d.bitmap r k j (omega (arith, room)) hj,
          get_init_block_file-libre B d.bitmap new_size r j found,
          cubre_nada d.bloques_size j f at_none,
          cubre-tramo d.bloques_size j f' at_r size,
        ))
        (Dentro-tramo d.bloques_size (max_bit d.bitmap) f' at_r size room) named
  trasladar-IsDisco d f f' (some i) r new_size bloques v e at_i at_r named size pos found =
      let n = bloques_de f d.bloques_size in
      let fits =
        Dentro-inv d.bloques_size (max_bit d.bitmap) f at_i
          (All-get_config _ d.metadata f.path v.inside e) in
      let (room, _) =
        get_init_block_file-libre B d.bitmap new_size r r found (omega arith)
          (omega (arith, pos)) in
      let k = r + new_size - r in
      let m = i + n - (i + 0) in
      let b1 = limpiar B m (i + 0) d.bitmap in
      let same = max_bit-limpiar B m (i + 0) d.bitmap in
      cambiar-IsDisco d f f' _ bloques v e (max_bit-marcar B k r b1 ∙ same)
        (λ j hj. ground (
          arith,
          bit-marcar B b1 r k j (omega (arith, room, same)) (omega (arith, hj, same)),
          bit-limpiar B d.bitmap (i + 0) m j (omega (arith, fits)) hj,
          posee d f j v e hj,
          get_init_block_file-libre B d.bitmap new_size r j found,
          cubre-tramo d.bloques_size j f at_i refl,
          cubre-tramo d.bloques_size j f' at_r size,
        ))
        (Dentro-tramo d.bloques_size (max_bit d.bitmap) f' at_r size room) named
