-- ===== src/Cpu/Tlb/Coherence.antt =====
-- The valid entries of the TLB agree with the page tables of the memory: look-ups and additions keep that,
-- and so does a RESIZE, which changes the tables.
use so_project_c.Common.{
  ℕ, ◌+◌, ◌≡◌, Option, none, some, List, [], ◌∷◌, ◌++◌, true, false, ◌&&◌, ltb, leb, ◌==◌, map,
  arith, Option-cases, Bool-cases, inl, inr, All, All-append, some_eq,
}
use mathlib.Core.Path.{subst}
use so_project_c.Cpu.Tlb.{
  Entrada, Config, Tlb, page_finder, list_find, find_tlb, reemplazar, add_tlb, entry_to_modify,
}

page_finder-inv :
    (pid pagina : ℕ) (x : Entrada)
    → page_finder pid pagina x ≡ true
    → (x.pid ≡ pid) × (x.page ≡ pagina) × (x.valid ≡ true)
page_finder-inv pid pagina x h = (ground arith, ground arith, ground arith)

miss_queue :
    (c : Config) (t : Tlb) (pid pagina : ℕ)
    → list_find pid pagina t.entries ≡ none
    → t ≡ (find_tlb c t pid pagina).1
unfolding find_tlb
miss_queue c t pid pagina miss = ground (arith, miss)

pub find_tlb-miss :
    (c : Config) (t : Tlb) (pid pagina : ℕ)
    → (find_tlb c t pid pagina).0 ≡ none
    → find_tlb c t pid pagina ≡ (none, t)
unfolding find_tlb
find_tlb-miss c t pid pagina e = elim (Option-cases (list_find pid pagina t.entries)) [
  | inl miss ↦ ground (arith, miss)
  | inr (q, hit) ↦ elim (Bool-cases (ltb c.numero_entradas 1)) [
    | inl off ↦ ground (arith, off)
    | inr on ↦ absurd (ground (arith, hit, on))
  ]
]

module _ (tabla : ℕ → ℕ → Option ℕ) where
  abbrev pub Agrees : Entrada → Type 0
  Agrees entry = entry.valid ≡ true → tabla entry.pid entry.page ≡ some entry.frame

  abbrev pub Coherent : Tlb → Type 0
  Coherent t = All Agrees t.entries

  list_find-Agrees :
      (pid pagina : ℕ) (entries : List Entrada) {r : Entrada × List Entrada}
      → All Agrees entries
      → list_find pid pagina entries ≡ some r
      → (page_finder pid pagina r.0 ≡ true) × Agrees r.0 × All Agrees r.1
  unfolding list_find
  list_find-Agrees pid pagina [] h e = cc
  list_find-Agrees pid pagina (x ∷ entries) {r} h e = elim (Bool-cases (page_finder pid pagina x)) [
    | inl here ↦
        let same : (x, entries) ≡ r = some_eq (rw here at e) in
        subst (λ q. (page_finder pid pagina q.0 ≡ true) × Agrees q.0 × All Agrees q.1) same
          (here, h.0, h.1)
    | inr not_here ↦ elim (Option-cases (list_find pid pagina entries)) [
      | inl miss ↦ absurd (ground (arith, miss, not_here))
      | inr (q, later) ↦
          let rest = list_find-Agrees pid pagina entries h.1 later in
          let same : (q.0, x ∷ q.1) ≡ r = ground (arith, not_here, later) in
          subst (λ q. (page_finder pid pagina q.0 ≡ true) × Agrees q.0 × All Agrees q.1) same
            (rest.0, rest.1, (h.0, rest.2))
    ]
  ]

  reemplazar-Agrees :
      (x : Entrada) (entries : List Entrada) {r : List Entrada}
      → Agrees x
      → All Agrees entries
      → reemplazar x entries ≡ some r
      → All Agrees r
  unfolding reemplazar
  reemplazar-Agrees x [] hx h e = cc
  reemplazar-Agrees x (y ∷ entries) hx h e =
      subst (λ l. All Agrees l) (some_eq e) (All-append Agrees entries (x ∷ []) h.1 (hx, tt))

  -- What a look-up returns: a frame of the tables or none, and a queue that agrees with them.
  pub find_tlb-Coherent :
      (c : Config) (t : Tlb) (pid pagina : ℕ)
      → Coherent t
      → Coherent (find_tlb c t pid pagina).1
        × ((frame : ℕ) → (find_tlb c t pid pagina).0 ≡ some frame → tabla pid pagina ≡ some frame)
  unfolding find_tlb
  find_tlb-Coherent c t pid pagina h = elim (Option-cases (list_find pid pagina t.entries)) [
    | inl miss ↦ (
      subst (λ u. Coherent u) {x = t} {y = (find_tlb c t pid pagina).1}
          (miss_queue c t pid pagina miss) h,
      λ frame e. absurd (ground (arith, miss)),
    )
    | inr (q, hit) ↦
        let (finds, agrees, rest) = list_find-Agrees pid pagina t.entries h hit in
        (
          rw (hit, find_tlb)
              (elim (Bool-cases (ltb c.numero_entradas 1)) [
                | inl off ↦ rw off h
                | inr on ↦ rw on (elim (Bool-cases c.is_lru) [
                  | inl lru ↦ rw lru (All-append Agrees q.1 (q.0 ∷ []) rest (agrees, tt))
                  | inr fifo ↦ rw fifo h
                ])
              ]),
          λ frame e.
              let (p1, p2, p3) = page_finder-inv pid pagina q.0 finds in
              ground (arith, hit, agrees p3, p1, p2),
        )
  ]

  pub add_tlb-Coherent :
      (c : Config) (t : Tlb) (pid pagina frame : ℕ) {next : Tlb}
      → Coherent t
      → tabla pid pagina ≡ some frame
      → add_tlb c t pid pagina frame ≡ some next
      → Coherent next
  unfolding add_tlb
  add_tlb-Coherent c t pid pagina frame {next} h e r = elim (Bool-cases (ltb c.numero_entradas 1)) [
    | inl off ↦
        let same : t ≡ next = ground (arith, off) in subst (λ u. Coherent u) {y = next} same h
    | inr on ↦ elim (Bool-cases (t.fill_counter == c.numero_entradas)) [
      | inl full ↦ elim (Option-cases (reemplazar n t.entries)) [
        | inl empty ↦ absurd (ground (arith, on, full, empty))
        | inr (l, done) ↦
            let same : record t { entries = l } ≡ next = ground (arith, on, full, done) in
            subst (λ u. Coherent u) {y = next} same (reemplazar-Agrees n t.entries (λ v. e) h done)
      ]
      | inr spare ↦
          let same : record t { entries = t.entries ++ (n ∷ []); fill_counter = t.fill_counter + 1 }
              ≡ next =
            ground (arith, on, spare) in
          subst (λ u. Coherent u) {y = next} same
            (All-append Agrees t.entries (n ∷ []) h (λ v. e, tt))
    ]
  ]
    where
      n : Entrada
      n = record { pid = pid; page = pagina; frame = frame; valid = true }

-- Which answers of the tables a change of `pid` to `max_page` pages must keep.
abbrev pub Keeps : (ℕ → ℕ → Option ℕ) → (ℕ → ℕ → Option ℕ) → ℕ → ℕ → Type 0
Keeps tabla tabla' pid max_page =
    (q j frame : ℕ)
    → tabla q j ≡ some frame
    → ((q == pid) && (ltb j 0x8000_0000 && leb max_page j)) ≡ false
    → tabla' q j ≡ some frame

modified-Agrees :
    (tabla tabla' : ℕ → ℕ → Option ℕ) (pid max_page : ℕ) (x : Entrada)
    → Keeps tabla tabla' pid max_page
    → Agrees tabla x
    → Agrees tabla' (entry_to_modify pid max_page x)
modified-Agrees tabla tabla' pid max_page x k h =
    elim (Bool-cases ((x.pid == pid) && (ltb x.page 0x8000_0000 && leb max_page x.page))) [
      | inl gone ↦ rw gone (λ v. absurd (ground arith))
      | inr kept ↦ rw kept (λ v. k x.pid x.page x.frame (h v) kept)
    ]

pub modify-Agrees :
    (tabla tabla' : ℕ → ℕ → Option ℕ) (pid max_page : ℕ) (entries : List Entrada)
    → Keeps tabla tabla' pid max_page
    → All (Agrees tabla) entries
    → All (Agrees tabla') (map (entry_to_modify pid max_page) entries)
modify-Agrees tabla tabla' pid max_page [] k h = tt
modify-Agrees tabla tabla' pid max_page (x ∷ entries) k h = (
  modified-Agrees tabla tabla' pid max_page x k h.0,
  modify-Agrees tabla tabla' pid max_page entries k h.1,
)
