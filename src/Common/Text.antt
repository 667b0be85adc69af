-- ===== src/Common/Text.antt =====
-- `strcmp`, and `t_dictionary` of the so-commons library where its keys are names: an association list. A `put` on
-- a key that is there takes the place of its value.
use so_project_c.Common.{
  ℕ, ◌+◌, ◌≡◌, refl, Bool, true, false, ◌&&◌, Option, none, some, List, [], ◌∷◌, arith, ◌==◌,
  if◌then◌else◌, Bool-cases, some_eq, inl, inr,
}

-- `strcmp(a, b) == 0`
unfoldable pub strcmp_eq : List ℕ → List ℕ → Bool
strcmp_eq [] [] = true
strcmp_eq (a ∷ xs) (b ∷ ys) = (a == b) && strcmp_eq xs ys
strcmp_eq _ _ = false

pub strcmp_eq-eq : (a b : List ℕ) → strcmp_eq a b ≡ true → a ≡ b
unfolding strcmp_eq
strcmp_eq-eq [] [] h = refl
strcmp_eq-eq [] (y ∷ b) h = cc
strcmp_eq-eq (x ∷ a) [] h = cc
strcmp_eq-eq (x ∷ a) (y ∷ b) h = ground (arith, strcmp_eq-eq a b)

pub strcmp_eq_refl : (a : List ℕ) → strcmp_eq a a ≡ true
unfolding strcmp_eq
strcmp_eq_refl [] = refl
strcmp_eq_refl (x ∷ a) = ground (arith, strcmp_eq_refl a)

pub strcmp_eq_comm : (a b : List ℕ) → strcmp_eq a b ≡ strcmp_eq b a
unfolding strcmp_eq
strcmp_eq_comm [] [] = refl
strcmp_eq_comm [] (y ∷ b) = refl
strcmp_eq_comm (x ∷ a) [] = refl
strcmp_eq_comm (x ∷ a) (y ∷ b) = ground (arith, strcmp_eq_comm a b)

module _ {ℓ} {V : Type ℓ} where
  unfoldable pub get_text : List ℕ → List (List ℕ × V) → Option V
  unfolding strcmp_eq
  get_text k [] = none
  get_text k ((j, v) ∷ d) = if strcmp_eq j k then some v else get_text k d

  unfoldable pub put_text : List ℕ → V → List (List ℕ × V) → List (List ℕ × V)
  unfolding strcmp_eq
  put_text k v [] = (k, v) ∷ []
  put_text k v ((j, w) ∷ d) = if strcmp_eq j k then (k, v) ∷ d else (j, w) ∷ put_text k v d

  unfoldable pub remove_text : List ℕ → List (List ℕ × V) → List (List ℕ × V)
  unfolding strcmp_eq
  remove_text k [] = []
  remove_text k ((j, w) ∷ d) = if strcmp_eq j k then d else (j, w) ∷ remove_text k d

  pub get_text-put_text :
      (k : List ℕ) (v : V) (d : List (List ℕ × V)) → get_text k (put_text k v d) ≡ some v
  unfolding get_text put_text
  get_text-put_text k v [] = rw (strcmp_eq_refl k) refl
  get_text-put_text k v ((j, w) ∷ d) = elim (Bool-cases (strcmp_eq j k)) [
    | inl same ↦ rw (same, strcmp_eq_refl k) refl
    | inr other ↦ rw (other, other) (get_text-put_text k v d)
  ]

  -- A number of each value, added up over a dictionary.
  abbrev pub suma : (V → ℕ) → List (List ℕ × V) → ℕ
  suma m [] = 0
  suma m ((k, v) ∷ d) = m v + suma m d

  pub suma-put_text :
      (m : V → ℕ) (k : List ℕ) (v w : V) (d : List (List ℕ × V))
      → get_text k d ≡ some v
      → suma m (put_text k w d) + m v ≡ suma m d + m w
  unfolding get_text put_text
  suma-put_text m k v w [] h = cc
  suma-put_text m k v w ((j, x) ∷ d) h = elim (Bool-cases (strcmp_eq j k)) [
    | inl same ↦ let e : x ≡ v = some_eq (rw (same) at h) in rw (same, e) (omega arith)
    | inr other ↦
        let h' : get_text k d ≡ some v = rw (other) at h in
        let rest = suma-put_text m k v w d h' in rw (other) (omega arith)
  ]

  pub suma-remove_text :
      (m : V → ℕ) (k : List ℕ) (v : V) (d : List (List ℕ × V))
      → get_text k d ≡ some v
      → suma m (remove_text k d) + m v ≡ suma m d
  unfolding get_text remove_text
  suma-remove_text m k v [] h = cc
  suma-remove_text m k v ((j, x) ∷ d) h = elim (Bool-cases (strcmp_eq j k)) [
    | inl same ↦ let e : x ≡ v = some_eq (rw (same) at h) in rw (same, e) (omega arith)
    | inr other ↦
        let h' : get_text k d ≡ some v = rw (other) at h in
        let rest = suma-remove_text m k v d h' in rw (other) (omega arith)
  ]

  pub suma-put_text_new :
      (m : V → ℕ) (k : List ℕ) (w : V) (d : List (List ℕ × V))
      → get_text k d ≡ none
      → suma m (put_text k w d) ≡ suma m d + m w
  unfolding get_text put_text
  suma-put_text_new m k w [] h = omega arith
  suma-put_text_new m k w ((j, x) ∷ d) h = elim (Bool-cases (strcmp_eq j k)) [
    | inl same ↦ absurd (ground (arith, same))
    | inr other ↦
        let h' : get_text k d ≡ none = rw (other) at h in
        let rest = suma-put_text_new m k w d h' in rw (other) (omega arith)
  ]

  module _ {κ} (P : V → Type κ) where
    -- A predicate on every value of a dictionary.
    abbrev pub Todos : List (List ℕ × V) → Type κ
    Todos [] = Unit {κ}
    Todos ((k, v) ∷ d) = P v × Todos d

    pub Todos-get_text :
        (k : List ℕ) (v : V) (d : List (List ℕ × V)) → Todos d → get_text k d ≡ some v → P v
    unfolding get_text
    Todos-get_text k v [] t h = absurd (ground (arith, h))
    Todos-get_text k v ((j, x) ∷ d) t h = elim (Bool-cases (strcmp_eq j k)) [
      | inl same ↦ let e : x ≡ v = some_eq (rw (same) at h) in rw (e) at t.0
      | inr other ↦ Todos-get_text k v d t.1 (rw (other) at h)
    ]

    pub Todos-put_text :
        (k : List ℕ) (v : V) (d : List (List ℕ × V)) → Todos d → P v → Todos (put_text k v d)
    unfolding put_text
    Todos-put_text k v [] t h = (h, tt)
    Todos-put_text k v ((j, x) ∷ d) t h = elim (Bool-cases (strcmp_eq j k)) [
      | inl same ↦ rw (same) (h, t.1)
      | inr other ↦ rw (other) (t.0, Todos-put_text k v d t.1 h)
    ]

    pub Todos-remove_text : (k : List ℕ) (d : List (List ℕ × V)) → Todos d → Todos (remove_text k d)
    unfolding remove_text
    Todos-remove_text k [] t = tt
    Todos-remove_text k ((j, x) ∷ d) t = elim (Bool-cases (strcmp_eq j k)) [
      | inl same ↦ rw (same) t.1
      | inr other ↦ rw (other) (t.0, Todos-remove_text k d t.1)
    ]
