-- ===== src/Fs/Ownership/Compacted.antt =====
-- entradasalida/src/dialfs.c: the compaction as a whole.
use so_project_c.Common.{
  ℕ, ◌+◌, ◌-◌, ◌<◌, ◌≡◌, refl, sym, ap, ◌∙◌, arith, Bool, true, false, some, List, [], ◌∷◌,
  if◌then◌else◌, Bool-cases, inl, inr, some_eq, bind_inv, All,
}
use mathlib.Core.Path.{subst}
use so_project_c.Common.BitArray.{BitArray, bit}
use so_project_c.Common.Text.{strcmp_eq, strcmp_eq_comm}
use so_project_c.Protocol.Codes.{OpCode}
use so_project_c.Fs.Bitmap.{limpiar, resize_down}
use so_project_c.Fs.Bitmap.Ranges.{max_bit-limpiar}
use so_project_c.Fs.Files.{Archivo, Disco, get_config, set_config}
use so_project_c.Fs.Truncate.{
  sory_by_init_block, realocate_compactacion, compactar_uno, compactar_otros, compactar,
}
use so_project_c.Fs.Ownership.{
  sumar, tiene, cubre, Dentro, IsDisco, veces-set_config, veces_alguna, Reordena,
}
use so_project_c.Fs.Ownership.Runs.{bit-limpiar}
use so_project_c.Fs.Ownership.Compact.{realocate_compactacion-Colocado}

-- What a file counts for where the one of `path` does not.
abbrev ajeno : List ℕ → (Archivo → ℕ) → Archivo → ℕ
ajeno path m f = if strcmp_eq path f.path then 0 else m f

abbrev DentroAjeno : List ℕ → ℕ → ℕ → Archivo → Type 0
DentroAjeno path bs max f = strcmp_eq path f.path ≡ false → Dentro bs max f

-- Where no file has the path, all count.
ajeno_todos :
    (path : List ℕ) (m : Archivo → ℕ) (fs : List Archivo)
    → sumar (tiene path) fs ≡ 0
    → sumar (ajeno path m) fs ≡ sumar m fs
unfolding sumar
ajeno_todos path m [] e = refl
ajeno_todos path m (g ∷ fs) e = elim (Bool-cases (strcmp_eq path g.path)) [
  | inl same ↦ absurd (ground (arith, e, same))
  | inr other ↦
      let rest = ajeno_todos path m fs (ground (arith, e, other)) in ground (arith, rest, other)
]

sin_path-Dentro :
    (path : List ℕ) (bs max : ℕ) (fs : List Archivo)
    → sumar (tiene path) fs ≡ 0
    → All (DentroAjeno path bs max) fs
    → All (Dentro bs max) fs
unfolding sumar
sin_path-Dentro path bs max [] e t = tt
sin_path-Dentro path bs max (g ∷ fs) e t = elim (Bool-cases (strcmp_eq path g.path)) [
  | inl same ↦ absurd (ground (arith, e, same))
  | inr other ↦ (t.0 other, sin_path-Dentro path bs max fs (ground (arith, e, other)) t.1)
]

-- A file that takes the place of the one of its path counts with the others.
ajeno-set_config :
    (path : List ℕ) (m : Archivo → ℕ) (fs : List Archivo) (f' : Archivo)
    → sumar (tiene path) fs ≡ 1
    → sumar m (set_config fs path f') ≡ sumar (ajeno path m) fs + m f'
unfolding sumar set_config
ajeno-set_config path m [] f' e = absurd (omega (arith, e))
ajeno-set_config path m (g ∷ fs) f' e = elim (Bool-cases (strcmp_eq g.path path)) [
  | inl same ↦
      let here = strcmp_eq_comm path g.path ∙ same in
      let rest = ajeno_todos path m fs (ground (arith, e, here)) in
      rw (same, here) (omega (arith, rest))
  | inr other ↦
      let here = strcmp_eq_comm path g.path ∙ other in
      let rest = ajeno-set_config path m fs f' (ground (arith, e, here)) in
      rw (other, here) (omega (arith, rest))
]

set_config-Dentro :
    (path : List ℕ) (bs max : ℕ) (fs : List Archivo) (f' : Archivo)
    → sumar (tiene path) fs ≡ 1
    → All (DentroAjeno path bs max) fs
    → Dentro bs max f'
    → All (Dentro bs max) (set_config fs path f')
unfolding sumar set_config
set_config-Dentro path bs max [] f' e t h = tt
set_config-Dentro path bs max (g ∷ fs) f' e t h = elim (Bool-cases (strcmp_eq g.path path)) [
  | inl same ↦
      let here = strcmp_eq_comm path g.path ∙ same in
      rw (same) (h, sin_path-Dentro path bs max fs (ground (arith, e, here)) t.1)
  | inr other ↦
      let here = strcmp_eq_comm path g.path ∙ other in
      rw (other) (t.0 here, set_config-Dentro path bs max fs f' (ground (arith, e, here)) t.1 h)
]

module _ (B : BitArray) where
  open B use {Bits, max_bit, test_bit}

  record Puesto (bs : ℕ) (path : List ℕ) (f : Archivo) (b : Bits) (f' : Archivo) (b' : Bits)
      : Type 0 where
    name : f'.path ≡ f.path
    same : max_bit b' ≡ max_bit b
    exact : (j : ℕ) → j < max_bit b → bit B b' j ≡ bit B b j + ajeno path (cubre bs j) f'
    room : DentroAjeno path bs (max_bit b) f'

  compactar_uno-Puesto :
      (bs : ℕ) (path : List ℕ) (f : Archivo) (b : Bits) (bloques : List ℕ) (t : Bool)
      {r : Archivo × Bits × List ℕ}
      → 0 < bs
      → strcmp_eq path f.path ≡ t
      → compactar_uno B bs f b bloques t ≡ some r
      → Puesto bs path f b r.0 r.1
  unfolding compactar_uno
  compactar_uno-Puesto bs path f b bloques true hb e h =
      subst (λ x. Puesto bs path f b x.0 x.1) (some_eq h)
        (record {
          name = refl;
          same = refl;
          exact = λ j hj. ground (arith, e);
          room = λ other. absurd (ground (arith, e, other));
        })
  compactar_uno-Puesto bs path f b bloques false {r} hb e h =
      let c = realocate_compactacion-Colocado B bs f b bloques 0 hb h in
      let other : strcmp_eq path ((r.0).path) ≡ false = ap (strcmp_eq path) c.path ∙ e in
      record {
        name = c.path;
        same = c.same;
        exact = λ j hj. ground (arith, other, c.exact j hj);
        room = λ _. c.room;
      }

  record Puestos (bs : ℕ) (path : List ℕ) (fs : List Archivo) (b : Bits) (fs' : List Archivo)
      (b' : Bits) : Type 0 where
    same : max_bit b' ≡ max_bit b
    exact : (j : ℕ) → j < max_bit b → bit B b' j ≡ bit B b j + sumar (ajeno path (cubre bs j)) fs'
    veces : (q : List ℕ) → sumar (tiene q) fs' ≡ sumar (tiene q) fs
    room : All (DentroAjeno path bs (max_bit b)) fs'

  compactar_otros-Puestos :
      (bs : ℕ) (path : List ℕ) (fs : List Archivo) (b : Bits) (bloques : List ℕ)
      {r : List Archivo × Bits × List ℕ}
      → 0 < bs
      → compactar_otros B bs path fs b bloques ≡ some r
      → Puestos bs path fs b r.0 r.1
  unfolding compactar_otros sumar
  compactar_otros-Puestos bs path [] b bloques hb h =
      subst (λ x. Puestos bs path [] b x.0 x.1) (some_eq h)
        (record { same = refl; exact = λ j hj. omega arith; veces = λ q. refl; room = tt })
  compactar_otros-Puestos bs path (f ∷ fs) b bloques hb h =
      let (one, h1, h2) = bind_inv (compactar_uno B bs f b bloques (strcmp_eq path f.path)) _ h in
      let (more, h3, h4) = bind_inv (compactar_otros B bs path fs one.1 one.2) _ h2 in
      let p = compactar_uno-Puesto bs path f b bloques _ hb refl h1 in
      let q = compactar_otros-Puestos bs path fs one.1 one.2 hb h3 in
      subst (λ x. Puestos bs path (f ∷ fs) b x.0 x.1) (some_eq h4)
        (record {
          same = q.same ∙ p.same;
          exact = λ j hj. omega (arith, p.exact j hj, q.exact j (omega (arith, hj, p.same)));
          veces = λ n.
              ap (λ x. (if strcmp_eq n x then 1 else 0) + sumar (tiene n) more.0) p.name
              ∙ ap (λ x. tiene n f + x) (q.veces n);
          room = (p.room, subst (λ x. All (DentroAjeno path bs x) more.0) p.same q.room);
        })

  module _ (list_sort : (Archivo → Archivo → Bool) → List Archivo → List Archivo) where
    -- Behind the compaction the bitmap has a bit set for each block of a file, and for no other.
    pub compactar-IsDisco :
        (d : Disco B) (f : Archivo) (new_size : ℕ) {x : Disco B × OpCode}
        → Reordena list_sort
        → IsDisco d
        → get_config d.metadata f.path ≡ some f
        → compactar B list_sort d f new_size ≡ some x
        → IsDisco x.0
    unfolding compactar resize_down
    compactar-IsDisco d f new_size sorted v e h =
        let b0 = limpiar B (max_bit d.bitmap - 0) 0 d.bitmap in
        let same0 = max_bit-limpiar B (max_bit d.bitmap - 0) 0 d.bitmap in
        let (otros, h1, h2) =
          bind_inv
            (compactar_otros B d.bloques_size f.path (list_sort sory_by_init_block d.metadata) b0
              d.bloques)
            _ h in
        let (uno, h3, h4) =
          bind_inv (realocate_compactacion B d.bloques_size f otros.1 otros.2 new_size) _ h2 in
        let p = compactar_otros-Puestos d.bloques_size f.path _ b0 d.bloques v.block_pos h1 in
        let c =
          realocate_compactacion-Colocado B d.bloques_size f otros.1 otros.2 new_size v.block_pos
            h3 in
        let veces : (q : List ℕ) → sumar (tiene q) otros.0 ≡ sumar (tiene q) d.metadata =
          λ q. p.veces q ∙ sorted sory_by_init_block (tiene q) d.metadata in
        let once : sumar (tiene f.path) otros.0 ≡ 1 =
          omega (arith, veces f.path, v.unicos f.path, veces_alguna d.metadata f.path e) in
        let same1 : max_bit otros.1 ≡ max_bit d.bitmap = p.same ∙ same0 in
        let same : max_bit uno.1 ≡ max_bit d.bitmap = c.same ∙ same1 in
        subst (λ y. IsDisco y.0) (some_eq h4)
          (record {
            exact = λ j hj.
                let hj' : j < max_bit d.bitmap = omega (arith, hj, same) in
                let cleared : bit B b0 j ≡ 0 =
                  ground
                    (arith, bit-limpiar B d.bitmap 0 (max_bit d.bitmap - 0) j (omega arith) hj') in
                omega (
                  arith,
                  cleared,
                  p.exact j (omega (arith, hj', same0)),
                  c.exact j (omega (arith, hj', same1)),
                  ajeno-set_config f.path (cubre d.bloques_size j) otros.0 uno.0 once,
                );
            inside =
                subst (λ n. All (Dentro d.bloques_size n) (set_config otros.0 f.path uno.0))
                  (sym c.same)
                  (set_config-Dentro f.path d.bloques_size (max_bit otros.1) otros.0 uno.0 once
                    (subst (λ n. All (DentroAjeno f.path d.bloques_size n) otros.0) (sym p.same)
                      p.room)
                    c.room);
            block_pos = v.block_pos;
            unicos = λ q.
                omega (arith, veces-set_config otros.0 f.path q uno.0 c.path, veces q, v.unicos q);
          })
