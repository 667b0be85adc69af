-- ===== src/Fs/Ownership/Compact.antt =====
-- entradasalida/src/auxiliar.c: the placement of one file by the compaction.
use so_project_c.Common.{
  ℕ, zero, suc, ◌+◌, ◌-◌, ◌*◌, ◌<◌, ◌≡◌, refl, sym, ◌∙◌, arith, Bool, true, false, Option, none,
  some, List, ◌==◌, if◌then◌else◌, Bool-cases, inl, inr, some_eq, bind_inv,
}
use mathlib.Core.Path.{subst}
use so_project_c.Common.BitArray.{BitArray, bit}
use so_project_c.Fs.Bitmap.{get_init_block_file, resize_up}
use so_project_c.Fs.Bitmap.Ranges.{max_bit-marcar}
use so_project_c.Fs.Bitmap.Search.{get_init_block_file-libre, get_init_block_file_cero}
use so_project_c.Fs.Files.{Archivo, en_bloques, bloques_de}
use so_project_c.Fs.Truncate.{realocar_en, realocate_compactacion, realocate_data}
use so_project_c.Fs.Ownership.{cubre, Dentro}
use so_project_c.Fs.Ownership.Runs.{
  cubre-tramo, cubre_nada, Dentro-tramo, bloques_de-exact, bit-marcar,
}

en_bloques_inv : (n b : ℕ) → 0 < b → en_bloques n b ≡ 0 → n ≡ 0
en_bloques_inv n b h e = grind arith

-- A file that is not empty holds the blocks of its size.
bloques_de_lleno :
    (f : Archivo) (bs i n : ℕ)
    → f.bloque_inicial ≡ some i
    → en_bloques f.tamanio_archivo bs ≡ n
    → 0 < n
    → bloques_de f bs ≡ n
unfolding bloques_de
bloques_de_lleno f bs i n e size pos = rw (e, size) (ground arith)

module _ (B : BitArray) where
  open B use {Bits, max_bit, test_bit}

  -- The file that is placed is the old one elsewhere, and the bitmap has its blocks besides the old ones.
  pub record Colocado (bs : ℕ) (f : Archivo) (b : Bits) (f' : Archivo) (b' : Bits) : Type 0 where
    pub path : f'.path ≡ f.path
    pub same : max_bit b' ≡ max_bit b
    pub exact : (j : ℕ) → j < max_bit b → bit B b' j ≡ bit B b j + cubre bs j f'
    pub room : Dentro bs (max_bit b) f'

  -- The size in blocks of a file that is placed.
  colocado_bloques :
      (bs : ℕ) (f : Archivo) (new_size bit_size i : ℕ) (cero : Bool)
      → 0 < bs
      → (new_size == 0) ≡ cero
      → bit_size ≡ (if cero then en_bloques f.tamanio_archivo bs else new_size)
      → 0 < bit_size
      → bloques_de
          (record f {
            bloque_inicial = some i;
            tamanio_archivo = if cero then f.tamanio_archivo else new_size * bs;
          })
          bs
        ≡ bit_size
  colocado_bloques bs f new_size bit_size i true hb z size pos =
      bloques_de_lleno _ bs i bit_size refl (sym size) pos
  colocado_bloques bs f new_size bit_size i false hb z size pos =
      bloques_de-exact _ bs i new_size hb refl refl (omega (arith, size, pos)) ∙ sym size

  libre_pos :
      (b : Bits) (bit_size : ℕ) {i : ℕ} → get_init_block_file B b bit_size ≡ some i → 0 < bit_size
  libre_pos b zero e = absurd (none_some (sym (get_init_block_file_cero B b) ∙ e))
    where
      none_some : {i : ℕ} → none ≡ some i → ⊥
      none_some h = cc
  libre_pos b (suc n) e = omega arith

  realocar_en-Colocado :
      (bs : ℕ) (f : Archivo) (b : Bits) (bloques : List ℕ) (new_size bit_size : ℕ) (o : Option ℕ)
      {r : Archivo × Bits × List ℕ}
      → 0 < bs
      → bit_size ≡ (if new_size == 0 then en_bloques f.tamanio_archivo bs else new_size)
      → get_init_block_file B b bit_size ≡ o
      → realocar_en B bs f b bloques new_size bit_size o ≡ some r
      → Colocado bs f b r.0 r.1
  unfolding realocar_en resize_up
  realocar_en-Colocado bs f b bloques new_size bit_size none hb size e h =
      elim (Bool-cases (bit_size == 0)) [
        | inr more ↦ absurd (ground (arith, more))
        | inl nil ↦
            let f' : Archivo = record f { bloque_inicial = none } in
            subst (λ x. Colocado bs f b x.0 x.1) (some_eq (rw (nil) at h))
              (record {
                path = refl;
                same = refl;
                exact = λ j hj. omega (arith, cubre_nada bs j f' refl);
                room = en_bloques_inv f.tamanio_archivo bs hb (ground (arith, size, nil));
              })
      ]
  realocar_en-Colocado bs f b bloques new_size bit_size (some i) hb size e h =
      let pos = libre_pos b bit_size e in
      let (bloques', _, h1) =
        bind_inv
          (realocate_data bloques
            (elim f.bloque_inicial as (λ _. Option ℕ) [ none ↦ none | some c ↦ some (c * bs) ])
            (i * bs) f.tamanio_archivo)
          _ h in
      let f' : Archivo = record f {
        bloque_inicial = some i;
        tamanio_archivo = if new_size == 0 then f.tamanio_archivo else new_size * bs;
      } in
      let blocks : bloques_de f' bs ≡ bit_size =
        colocado_bloques bs f new_size bit_size i (new_size == 0) hb refl size pos in
      let (room, _) =
        get_init_block_file-libre B b bit_size i i e (omega arith) (omega (arith, pos)) in
      let k = i + bit_size - i in
      subst (λ x. Colocado bs f b x.0 x.1) (some_eq h1)
        (record {
          path = refl;
          same = max_bit-marcar B k i b;
          exact = λ j hj. ground (
            arith,
            bit-marcar B b i k j (omega (arith, room)) hj,
            get_init_block_file-libre B b bit_size i j e,
            cubre-tramo bs j f' refl blocks,
          );
          room = Dentro-tramo bs (max_bit b) f' refl blocks room;
        })

  pub realocate_compactacion-Colocado :
      (bs : ℕ) (f : Archivo) (b : Bits) (bloques : List ℕ) (new_size : ℕ)
      {r : Archivo × Bits × List ℕ}
      → 0 < bs
      → realocate_compactacion B bs f b bloques new_size ≡ some r
      → Colocado bs f b r.0 r.1
  unfolding realocate_compactacion
  realocate_compactacion-Colocado bs f b bloques new_size hb h =
      realocar_en-Colocado bs f b bloques new_size _ _ hb refl refl h
