-- ===== src/Memory/Ownership/Addresses.antt =====
-- Pages lie in frames of their own, inside the user memory: a process that writes to its page succeeds,
-- reads back what it wrote, and changes no other page.
use so_project_c.Common.{
  ℕ, zero, suc, ◌+◌, ◌-◌, ◌*◌, ◌≤◌, ◌<◌, ◌≡◌, refl, ◌≢◌, ◌⊎◌, some, List, [], ◌∷◌, arith, length,
  All, Option-cases, inl, inr, get_elem?,
}
use native.Mathlib.Decide.{ℕ_discrete, dec_lt}
use so_project_c.Common.BitArray.{BitArray}
use so_project_c.Common.Dict.{get}
use so_project_c.Common.Counts.{count}
use so_project_c.Common.Memcpy.{copy_to, copy_to_lem, copy_to-fits, copy_from-copy_to}
use so_project_c.Memory.State.{Memoria, Proceso, escribir, leer, marco}
use so_project_c.Memory.Ownership.{IsValid, total, All-get}

count_pos : (l : List ℕ) (i f : ℕ) → get_elem? l i ≡ some f → 1 ≤ count f l
count_pos [] i f e = absurd (ground arith)
count_pos (x ∷ l) zero f e = ground arith
count_pos (x ∷ l) (suc i) f e = ground (arith, count_pos l i f e)

count_two :
    (l : List ℕ) (i j f : ℕ)
    → get_elem? l i ≡ some f
    → get_elem? l j ≡ some f
    → i ≢ j
    → 2 ≤ count f l
count_two [] i j f e e' n = absurd (ground arith)
count_two (x ∷ l) zero zero f e e' n = absurd (n refl)
count_two (x ∷ l) zero (suc j) f e e' n = ground (arith, count_pos l j f e')
count_two (x ∷ l) (suc i) zero f e e' n = ground (arith, count_pos l i f e)
count_two (x ∷ l) (suc i) (suc j) f e e' n = ground (arith, count_two l i j f e e')

count-le-total :
    (f k : ℕ) (p : Proceso) (d : List (ℕ × Proceso))
    → get k d ≡ some p
    → count f p.pages ≤ total f d
unfolding get
count-le-total f k p [] e = cc
count-le-total f k p ((i, r) ∷ d) e = ground (arith, count-le-total f k p d)

two-le-total :
    (f k j : ℕ) (p q : Proceso) (d : List (ℕ × Proceso))
    → get k d ≡ some p
    → get j d ≡ some q
    → k ≢ j
    → count f p.pages + count f q.pages ≤ total f d
unfolding get
two-le-total f k j p q [] e e' n = cc
two-le-total f k j p q ((i, r) ∷ d) e e' n =
    ground (arith, two-le-total f k j p q d, count-le-total f k p d, count-le-total f j q d)

get_elem?-All : (l : List ℕ) (i f n : ℕ) → All (λ x. x < n) l → get_elem? l i ≡ some f → f < n
get_elem?-All [] i f n h e = absurd (ground arith)
get_elem?-All (x ∷ l) zero f n h e = ground arith
get_elem?-All (x ∷ l) (suc i) f n h e = get_elem?-All l i f n h.1 e

page_end : (f n s l : ℕ) → f < n → n * s ≤ l → f * s + s ≤ l
page_end f n s l h h' = grind arith

page_apart : (f g s o a : ℕ) → g ≢ f → o < s → a < s → g * s + o ≢ f * s + a
page_apart f g s o a n ho ha e = elim (dec_lt f g) [
  | yes up ↦ omega (arith, page_end f g s (g * s) up le_self)
  | no down ↦ omega (arith, page_end g f s (f * s) (omega arith) le_self)
]
  where
    le_self : {n : ℕ} → n ≤ n
    le_self = omega arith

module _ {B : BitArray} where
  open B use {max_bit}

  marco_inv :
      (m : Memoria B) (pid i f : ℕ)
      → marco m pid i ≡ some (some f)
      → (p : Proceso) × (get pid m.memoria_procesos ≡ some p) × (get_elem? p.pages i ≡ some f)
  unfolding marco
  marco_inv m pid i f e = elim (Option-cases (get pid m.memoria_procesos)) [
    | inl missing ↦ absurd (ground (arith, missing))
    | inr (p, found) ↦ (p, found, ground (arith, found))
  ]

  -- A frame that a process has lies inside the bitmap, and one page has it.
  marco_bounds :
      (m : Memoria B) (pid i f : ℕ)
      → IsValid m
      → marco m pid i ≡ some (some f)
      → (f < max_bit m.bit_map) × (total f m.memoria_procesos ≤ 1)
  marco_bounds m pid i f v e =
      let (p, found, at) = marco_inv m pid i f e in
      let inside =
        get_elem?-All p.pages i f (max_bit m.bit_map)
          (All-get (λ e. All (λ x. x < max_bit m.bit_map) (e.1).pages) pid p m.memoria_procesos
            found v.inside)
          at in
      (inside, ground (arith, v.exact f inside))

  -- In a valid memory, two pages that differ in their process or in their number, and have frames,
  -- have different ones.
  pub marcos_distintos :
      (m : Memoria B) (pid qid i j f g : ℕ)
      → IsValid m
      → marco m pid i ≡ some (some f)
      → marco m qid j ≡ some (some g)
      → (pid ≢ qid) ⊎ (i ≢ j)
      → f ≢ g
  marcos_distintos m pid qid i j f g v e e' n same =
      let (p, found, at) = marco_inv m pid i f e in
      let (q, found', at') = marco_inv m qid j g e' in
      let one = (marco_bounds m pid i f v e).1 in
      elim (ℕ_discrete pid qid) [
        | yes eq ↦ absurd (
            ground
              (arith, count_two p.pages i j f at, count-le-total f pid p m.memoria_procesos found))
        | no ne ↦ absurd (
            ground (
              arith,
              two-le-total f pid qid p q m.memoria_procesos found found' ne,
              count_pos p.pages i f at,
              count_pos q.pages j f,
            ))
      ]

  -- What a write of `value` at an address does: it succeeds, and the bytes are read back.
  pub record Escrita (m : Memoria B) (direccion : ℕ) (value : List ℕ) : Type 0 where
    pub next : Memoria B
    pub returns : escribir m direccion value ≡ some next
    pub valid : IsValid next
    pub read_back : leer next direccion (length value) ≡ some value

  -- In a valid memory, a write that lies inside a page of a process succeeds and leaves a valid
  -- memory, from which the same bytes are read back at that address.
  pub escribir-Escrita :
      (m : Memoria B) (pid i f off : ℕ) (value : List ℕ)
      → IsValid m
      → marco m pid i ≡ some (some f)
      → off + length value ≤ m.page_size
      → Escrita m (f * m.page_size + off) value
  unfolding escribir leer
  escribir-Escrita m pid i f off value v e fits =
      let end =
        page_end f (max_bit m.bit_map) m.page_size (length m.memoria_usuario)
          (marco_bounds m pid i f v e).0 v.room in
      let (bytes, done) =
        copy_to-fits m.memoria_usuario (f * m.page_size + off) value (omega arith) in
      let size : length bytes ≡ length m.memoria_usuario =
        (copy_to_lem m.memoria_usuario (f * m.page_size + off) value bytes 0 done).0 in
      record {
        next = record m { memoria_usuario = bytes };
        returns = rw (done, escribir);
        valid = record {
          exact = v.exact;
          inside = v.inside;
          keyed = v.keyed;
          room = rw size v.room;
          page_pos = v.page_pos;
        };
        read_back = copy_from-copy_to m.memoria_usuario (f * m.page_size + off) value bytes done;
      }

  -- In a valid memory, a write that lies inside a page of a process changes no byte of any other
  -- page, of the same process or of another.
  pub escribir_aislada :
      (m m' : Memoria B) (pid i f off : ℕ) (value : List ℕ) (qid j g o : ℕ)
      → IsValid m
      → marco m pid i ≡ some (some f)
      → off + length value ≤ m.page_size
      → escribir m (f * m.page_size + off) value ≡ some m'
      → marco m qid j ≡ some (some g)
      → (pid ≢ qid) ⊎ (i ≢ j)
      → o < m.page_size
      → get_elem? m'.memoria_usuario (g * m.page_size + o)
        ≡ get_elem? m.memoria_usuario (g * m.page_size + o)
  unfolding escribir
  escribir_aislada m m' pid i f off value qid j g o v e fits w e' n ho =
      elim (Option-cases (copy_to m.memoria_usuario (f * m.page_size + off) value)) [
        | inl fault ↦ absurd (ground (arith, fault))
        | inr (bytes, done) ↦ ground (
          arith,
          done,
          marcos_distintos m pid qid i j f g v e e' n,
          (copy_to_lem m.memoria_usuario (f * m.page_size + off) value bytes (g * m.page_size + o)
              done).1,
          page_apart f g m.page_size o (g * m.page_size + o - f * m.page_size),
        )
      ]
