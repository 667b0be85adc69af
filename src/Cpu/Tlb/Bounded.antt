-- ===== src/Cpu/Tlb/Bounded.antt =====
-- The TLB never has more entries than the configuration allows, and a page that was added is met.
use so_project_c.Common.{
  ℕ, suc, ◌+◌, ◌≤◌, ◌<◌, ◌≡◌, none, some, List, [], ◌∷◌, ◌++◌, true, length, arith, length-append,
  Option-cases, inl, inr,
}
use mathlib.Core.Path.{subst}
use native.Mathlib.Decide.{ℕ_discrete}
use so_project_c.Common.{ap, sym}
use so_project_c.Cpu.Tlb.{Entrada, Config, Tlb, page_finder, list_find, find_tlb, add_tlb}

-- The counter counts the entries, and does not pass the limit.
pub record IsBounded (c : Config) (t : Tlb) : Type 0 where
  pub counted : length t.entries ≡ t.fill_counter
  pub limit : t.fill_counter ≤ c.numero_entradas

list_find-length :
    (pid pagina : ℕ) (entries : List Entrada) {r : Entrada × List Entrada}
    → list_find pid pagina entries ≡ some r
    → length entries ≡ suc (length r.1)
unfolding list_find
list_find-length pid pagina [] e = cc
list_find-length pid pagina (x ∷ entries) {r} e =
    elim (Option-cases (list_find pid pagina entries)) [
      | inl later ↦ ground (arith, later)
      | inr (q, later) ↦ ground (arith, later, list_find-length pid pagina entries later)
    ]

pub find_tlb-IsBounded :
    (c : Config) (t : Tlb) (pid pagina : ℕ)
    → IsBounded c t
    → IsBounded c (find_tlb c t pid pagina).1
unfolding find_tlb
find_tlb-IsBounded c t pid pagina h = elim (Option-cases (list_find pid pagina t.entries)) [
  | inl miss ↦ subst (λ u. IsBounded c u) (ground (arith, miss)) h
  | inr (q, hit) ↦ record {
    counted =
        ground
          (arith, hit, list_find-length pid pagina t.entries hit, length-append q.1 (q.0 ∷ []));
    limit = ground (arith, hit);
  }
]

list_find-append :
    (pid pagina : ℕ) (entries : List Entrada) (x : Entrada)
    → page_finder pid pagina x ≡ true
    → list_find pid pagina entries ≡ none
    → list_find pid pagina (entries ++ (x ∷ [])) ≡ some (x, entries)
unfolding list_find
list_find-append pid pagina [] x hx e = ground arith
list_find-append pid pagina (y ∷ entries) x hx e =
    ground (arith, list_find-append pid pagina entries x hx)

tail-miss :
    (pid pagina : ℕ) (y : Entrada) (entries : List Entrada)
    → list_find pid pagina (y ∷ entries) ≡ none
    → list_find pid pagina entries ≡ none
unfolding list_find
tail-miss pid pagina y entries e = elim (Option-cases (list_find pid pagina entries)) [
  | inl later ↦ later
  | inr (q, later) ↦ absurd (ground (arith, later))
]

abbrev pub nueva : ℕ → ℕ → ℕ → Entrada
nueva pid pagina frame = record { pid = pid; page = pagina; frame = frame; valid = true }

nueva-hit : (pid pagina frame : ℕ) → page_finder pid pagina (nueva pid pagina frame) ≡ true
nueva-hit pid pagina frame = ground arith

-- What `add_tlb` leaves behind a miss.
pub record Added (c : Config) (t : Tlb) (pid pagina frame : ℕ) : Type 0 where
  pub next : Tlb
  pub returns : add_tlb c t pid pagina frame ≡ some next
  pub bounded : IsBounded c next
  pub hit : (find_tlb c next pid pagina).0 ≡ some frame

miss-list_find :
    (c : Config) (t : Tlb) (pid pagina : ℕ)
    → 1 ≤ c.numero_entradas
    → (find_tlb c t pid pagina).0 ≡ none
    → list_find pid pagina t.entries ≡ none
unfolding find_tlb
miss-list_find c t pid pagina h e = elim (Option-cases (list_find pid pagina t.entries)) [
  | inl miss ↦ miss
  | inr (q, hit) ↦ absurd (ground (arith, hit))
]

found-last :
    (c : Config) (n : ℕ) (l : List Entrada) (pid pagina frame : ℕ)
    → 1 ≤ c.numero_entradas
    → list_find pid pagina l ≡ none
    → (find_tlb c
        (record { entries = l ++ (nueva pid pagina frame ∷ []); fill_counter = n })
        pid
        pagina).0
      ≡ some frame
unfolding find_tlb
found-last c n l pid pagina frame h e =
    ground
      (arith, list_find-append pid pagina l (nueva pid pagina frame) (nueva-hit pid pagina frame) e)

full-case :
    (c : Config) (l : List Entrada) (pid pagina frame : ℕ)
    → 1 ≤ c.numero_entradas
    → length l ≡ c.numero_entradas
    → list_find pid pagina l ≡ none
    → Added c (record { entries = l; fill_counter = c.numero_entradas }) pid pagina frame
unfolding add_tlb
full-case c [] pid pagina frame h n e = absurd (omega arith)
full-case c (y ∷ l) pid pagina frame h n e = record {
  next = record { entries = l ++ (nueva pid pagina frame ∷ []); fill_counter = c.numero_entradas };
  returns = ground arith;
  bounded = record {
    counted = omega (arith, length-append l (nueva pid pagina frame ∷ []));
    limit = omega arith;
  };
  hit = found-last c c.numero_entradas l pid pagina frame h (tail-miss pid pagina y l e);
}

room-case :
    (c : Config) (t : Tlb) (pid pagina frame : ℕ)
    → 1 ≤ c.numero_entradas
    → IsBounded c t
    → t.fill_counter < c.numero_entradas
    → list_find pid pagina t.entries ≡ none
    → Added c t pid pagina frame
unfolding add_tlb
room-case c t pid pagina frame h b n e = record {
  next = record {
    entries = t.entries ++ (nueva pid pagina frame ∷ []);
    fill_counter = t.fill_counter + 1;
  };
  returns = ground arith;
  bounded = record {
    counted = omega (arith, b.counted, length-append t.entries (nueva pid pagina frame ∷ []));
    limit = omega arith;
  };
  hit = found-last c (t.fill_counter + 1) t.entries pid pagina frame h e;
}

-- If there is a TLB, it is within its bounds and a page is not found in it, then adding the page
-- returns a TLB within its bounds, in which the page is found with its frame.
pub add_tlb-Added :
    (c : Config) (t : Tlb) (pid pagina frame : ℕ)
    → IsBounded c t
    → 1 ≤ c.numero_entradas
    → (find_tlb c t pid pagina).0 ≡ none
    → Added c t pid pagina frame
add_tlb-Added c t pid pagina frame b h e =
    let miss = miss-list_find c t pid pagina h e in
    elim (ℕ_discrete t.fill_counter c.numero_entradas) [
      | yes full ↦
          let same : record { entries = t.entries; fill_counter = c.numero_entradas } ≡ t =
            ap (λ n. record { entries = t.entries; fill_counter = n }) (sym full) in
          subst (λ u. Added c u pid pagina frame) same
            (full-case c t.entries pid pagina frame h (omega (arith, b.counted)) miss)
      | no spare ↦ room-case c t pid pagina frame h b (omega (arith, b.limit)) miss
    ]
