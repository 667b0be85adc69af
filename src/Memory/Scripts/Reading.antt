-- ===== src/Memory/Scripts/Reading.antt =====
-- The reading loops end, and yield the text of the file; except on a file of one byte, where they never end.
use so_project_c.Common.{
  ℕ, zero, suc, ◌+◌, ◌≤◌, ◌<◌, ◌≡◌, refl, sym, ◌∙◌, ap, none, some, List, [], ◌∷◌, ◌++◌, arith,
  length, IsText, All-append_inv, length-append, ◌≢◌, u32_mod, ◌%◌,
}
use so_project_c.Common.Ints.{pos, a_int, a_int_small}
use mathlib.Core.Path.{subst}
use mathlib.Core.List.{append-nil, append_assoc}
use so_project_c.Memory.Scripts.{
  linea, antes_de_nul, leer_lineas, leer_texto, get_file_size, espacio,
}

linea_parts : (n : ℕ) (bs : List ℕ) → (linea n bs).0 ++ (linea n bs).1 ≡ bs
unfolding linea
linea_parts zero bs = refl
linea_parts (suc n) [] = refl
linea_parts (suc n) (c ∷ bs) = ground (arith, linea_parts n bs)

antes_de_nul-IsText : (s : List ℕ) → IsText s → antes_de_nul s ≡ s
unfolding antes_de_nul
antes_de_nul-IsText [] h = refl
antes_de_nul-IsText (zero ∷ s) h = absurd (omega arith)
antes_de_nul-IsText (suc c ∷ s) h = ap (◌∷◌ (suc c)) (antes_de_nul-IsText s h.1)

linea_shorter : (n c : ℕ) (bs : List ℕ) → length (linea (suc n) (c ∷ bs)).1 ≤ length bs
unfolding linea
linea_shorter n c bs = ground (arith, linea_parts n bs, length-append (linea n bs).0 (linea n bs).1)

leer_lineas_lem :
    (fuel n : ℕ) (archivo texto : List ℕ)
    → length archivo < fuel
    → IsText archivo
    → leer_lineas fuel (suc (suc n)) archivo texto ≡ some (texto ++ archivo)
unfolding leer_lineas
leer_lineas_lem zero n archivo texto h t = absurd (omega arith)
leer_lineas_lem (suc fuel) n [] texto h t = ap some (sym (append-nil texto))
leer_lineas_lem (suc fuel) n (c ∷ bs) texto h t =
    ap (λ b. leer_lineas fuel (suc (suc n)) rest (texto ++ b)) (antes_de_nul-IsText buffer texts.0)
    ∙ leer_lineas_lem fuel n rest (texto ++ buffer) (omega (arith, linea_shorter n c bs)) texts.1
    ∙ ap some (append_assoc texto buffer rest ∙ ap (◌++◌ texto) whole)
  where
    buffer : List ℕ
    buffer = (linea (suc n) (c ∷ bs)).0

    rest : List ℕ
    rest = (linea (suc n) (c ∷ bs)).1

    whole : buffer ++ rest ≡ c ∷ bs
    whole = linea_parts (suc n) (c ∷ bs)

    texts : IsText buffer × IsText rest
    texts = All-append_inv (λ x. (0 < x) × (x < 256)) buffer rest (subst IsText (sym whole) t)

-- The text as the size of the file lets it be read.
entero :
    (archivo : List ℕ)
    → IsText archivo
    → length archivo ≢ 1
    → leer_lineas (length archivo + 1) (length archivo) archivo [] ≡ some archivo
unfolding leer_lineas
entero [] t h = refl
entero (c ∷ []) t h = absurd (h refl)
entero (c ∷ d ∷ bs) t h =
    leer_lineas_lem (suc (suc (length bs)) + 1) (length bs) (c ∷ d ∷ bs) [] (omega arith) t

get_file_size-small :
    (archivo : List ℕ) → length archivo < 0x8000_0000 → get_file_size archivo ≡ pos (length archivo)
unfolding get_file_size
get_file_size-small archivo small =
    ap a_int (resto (length archivo) small) ∙ a_int_small (length archivo) small
  where
    resto : (n : ℕ) → n < 0x8000_0000 → n % u32_mod ≡ n
    resto n l = omega arith

-- The reading of a text file of fewer than 2^31 bytes, and not of one, ends and yields the whole
-- text.
pub leer_texto_lem :
    (archivo : List ℕ)
    → IsText archivo
    → length archivo < 0x8000_0000
    → length archivo ≢ 1
    → leer_texto archivo ≡ some archivo
unfolding leer_texto
leer_texto_lem archivo t small h =
    ap (λ n. leer_lineas (length archivo + 1) (espacio n) archivo [])
      (get_file_size-small archivo small)
    ∙ entero archivo t h

-- With a buffer of one byte, as for a file of one byte, the reading loop has not ended after any
-- number of rounds.
pub leer_lineas_stuck :
    (fuel : ℕ) (archivo texto : List ℕ) → leer_lineas fuel 1 archivo texto ≡ none
unfolding leer_lineas
leer_lineas_stuck zero archivo texto = refl
leer_lineas_stuck (suc fuel) archivo texto = leer_lineas_stuck fuel archivo (texto ++ [])
