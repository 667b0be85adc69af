-- ===== src/Cpu/Tlb.antt =====
-- cpu/src/mmu.c: the TLB. `tlb_queue` holds pointers to the entries, and no pointer twice, so that
-- `list_remove_element` takes out the entry that `list_find` met.
pub mod Bounded
pub mod Coherence
pub mod Resize
use so_project_c.Common.{
  ℕ, zero, suc, ◌+◌, Option, none, some, List, [], ◌∷◌, ◌++◌, Bool, true, false, ◌&&◌, ltb, leb,
  ◌==◌, if◌then◌else◌, map,
}
use so_project_c.Memory.State.{ceil_div}

-- `t_tlb_entry`
pub record Entrada : Type 0 where
  pub pid : ℕ
  pub page : ℕ
  pub frame : ℕ
  pub valid : Bool

-- What the configuration fixes. `numero_entradas` is an `int`; below one, whatever it is, there is no TLB.
pub record Config : Type 0 where
  pub numero_entradas : ℕ
  pub is_lru : Bool

-- The queue, and the static counter of `add_tlb`.
pub record Tlb : Type 0 where
  pub entries : List Entrada
  pub fill_counter : ℕ

abbrev pub page_finder : ℕ → ℕ → Entrada → Bool
page_finder pid pagina entry = (entry.pid == pid) && ((entry.page == pagina) && entry.valid)

-- `list_find`: the first entry that is met, and the others in their order.
unfoldable pub list_find : ℕ → ℕ → List Entrada → Option (Entrada × List Entrada)
list_find pid pagina [] = none
list_find pid pagina (entry ∷ entries) =
    let later : Option (Entrada × List Entrada) = elim (list_find pid pagina entries) [
      | none ↦ none
      | some (hit, others) ↦ some (hit, entry ∷ others)
    ] in
    if page_finder pid pagina entry then some (entry, entries) else later

-- The frame, if there is a hit, and the queue; under LRU the entry that was met goes to its end.
unfoldable pub find_tlb : Config → Tlb → ℕ → ℕ → Option ℕ × Tlb
find_tlb c t pid pagina =
    if ltb c.numero_entradas 1 then (none, t) else elim (list_find pid pagina t.entries) [
      | none ↦ (none, t)
      | some (hit, others) ↦
          (some hit.frame, if c.is_lru then record t { entries = others ++ (hit ∷ []) } else t)
    ]

-- `none` is a pop of an empty queue, whose NULL the code follows.
pub reemplazar : Entrada → List Entrada → Option (List Entrada)
reemplazar nueva [] = none
reemplazar nueva (entry ∷ entries) = some (entries ++ (nueva ∷ []))

unfoldable pub add_tlb : Config → Tlb → ℕ → ℕ → ℕ → Option Tlb
unfolding reemplazar
add_tlb c t pid pagina frame =
    let nueva : Entrada = record { pid = pid; page = pagina; frame = frame; valid = true } in
    if ltb c.numero_entradas 1
    then some t
    else if t.fill_counter == c.numero_entradas
    then elim (reemplazar nueva t.entries) [
      | none ↦ none
      | some entries ↦ some (record t { entries = entries })
    ]
    else some (record t { entries = t.entries ++ (nueva ∷ []); fill_counter = t.fill_counter + 1 })

-- `(int) entry->page > max_page - 1`, for a `max_page` that an `int` can hold: a page from 2^31 on turns negative.
abbrev pub entry_to_modify : ℕ → ℕ → Entrada → Entrada
entry_to_modify pid max_page entry =
    if (entry.pid == pid) && (ltb entry.page 0x8000_0000 && leb max_page entry.page)
    then record entry { valid = false }
    else entry

pub modify_tlb_on_resize : Config → ℕ → Tlb → ℕ → ℕ → Tlb
modify_tlb_on_resize c page_size t new_size pid =
    if ltb c.numero_entradas 1
    then t
    else record t { entries = map (entry_to_modify pid (ceil_div new_size page_size)) t.entries }
