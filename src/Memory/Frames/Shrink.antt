-- ===== src/Memory/Frames/Shrink.antt =====
-- `resize_down` gives back the last pages, and keeps every frame with one owner.
use so_project_c.Common.{
  ℕ, zero, suc, ◌-◌, ◌<◌, ◌≡◌, refl, Option, some, List, [], ◌∷◌, ◌++◌, arith, ◌==◌, length, take,
  All, false, split_last, length-append, take-append_left, take_all, All-append_inv, Bool-cases,
  inl, inr, sym, ◌≢◌, ◌∙◌,
}
use so_project_c.Common.BitArray.{BitArray}
use so_project_c.Common.Counts.{count-append}
use so_project_c.Memory.Frames.{resize_down_loop, resize_down, list_remove}
use so_project_c.Memory.Frames.Conserve.{Owns}

list_remove-last {ℓ} :
    {A : Type ℓ} (xs : List A) (x : A) → list_remove (xs ++ (x ∷ [])) (length xs) ≡ some (x, xs)
unfolding list_remove
list_remove-last [] x = refl
list_remove-last (y ∷ xs) x = rw (list_remove-last xs x)

module _ (B : BitArray) where
  open B use {
    Bits, max_bit, test_bit, set_bit, clean_bit, max_bit-set, max_bit-clean, test_bit-set,
    test_bit-clean,
  }

  -- One page given back.
  clean-Owns :
      (others : ℕ → ℕ) (l : List ℕ) (f : ℕ) (b : Bits)
      → Owns B others (l ++ (f ∷ [])) b
      → Owns B others l (clean_bit b f)
  clean-Owns others l f b h = record {
    exact = λ j hj.
        let hj' : j < max_bit b = rw (max_bit-clean b f) at hj in
        ground (arith, test_bit-clean b f j, h.exact j hj', count-append j l (f ∷ []), parts.1);
    inside = rw (max_bit-clean b f) parts.0;
  }
    where
      parts : All (λ f. f < max_bit b) l × All (λ f. f < max_bit b) (f ∷ [])
      parts = All-append_inv (λ f. f < max_bit b) l (f ∷ []) h.inside

  -- What `resize_down_loop` returns: all but the last `pages` pages, and a bitmap that is right for them.
  pub record Shrunk (others : ℕ → ℕ) (pages : ℕ) (l : List ℕ) (b : Bits)
      (r : Option (List ℕ × Bits)) : Type 0 where
    pub kept : List ℕ
    pub bits : Bits
    pub returns : r ≡ some (kept, bits)
    pub front : kept ≡ take (length l - pages) l
    pub same_size : max_bit bits ≡ max_bit b
    pub owned : Owns B others kept bits

  take_none : (pages : ℕ) (l : List ℕ) → pages ≡ 0 → l ≡ take (length l - pages) l
  take_none pages l e =
      let e' : length l - pages ≡ length l = omega arith in sym (rw e' (take_all l))

  take-snoc :
      (pages x : ℕ) (front : List ℕ)
      → pages ≢ 0
      → take (length front - (pages - 1)) front
        ≡ take (length (front ++ (x ∷ [])) - pages) (front ++ (x ∷ []))
  take-snoc pages x front h =
      let e : length (front ++ (x ∷ [])) - pages ≡ length front - (pages - 1) =
        omega (arith, length-append front (x ∷ [])) in
      rw e (sym (take-append_left (length front - (pages - 1)) front (x ∷ []) (omega arith)))

  down_step :
      (n pages x : ℕ) (front : List ℕ) (b : Bits)
      → (pages == 0) ≡ false
      → length front ≡ n
      → resize_down_loop B (suc n) pages (front ++ (x ∷ [])) b
        ≡ resize_down_loop B n (pages - 1) front (clean_bit b x)
  unfolding resize_down_loop
  down_step n pages x front b t le =
      let last : list_remove (front ++ (x ∷ [])) n ≡ some (x, front) =
        rw le at (list_remove-last front x) in
      rw (t, last)

  down-snoc :
      (others : ℕ → ℕ) (n pages x : ℕ) (front : List ℕ) (b : Bits)
      → (pages == 0) ≡ false
      → length front ≡ n
      → Shrunk others
          (pages - 1)
          front
          (clean_bit b x)
          (resize_down_loop B n (pages - 1) front (clean_bit b x))
      → Shrunk others pages
          (front ++ (x ∷ []))
          b
          (resize_down_loop B (suc n) pages (front ++ (x ∷ [])) b)
  down-snoc others n pages x front b t le s = record {
    kept = s.kept;
    bits = s.bits;
    returns = down_step n pages x front b t le ∙ s.returns;
    front = s.front ∙ take-snoc pages x front (ground arith);
    same_size = s.same_size ∙ max_bit-clean b x;
    owned = s.owned;
  }

  resize_down_loop-Shrunk :
      (others : ℕ → ℕ) (n pages : ℕ) (l : List ℕ) (b : Bits)
      → length l ≡ n
      → Owns B others l b
      → Shrunk others pages l b (resize_down_loop B n pages l b)
  unfolding resize_down_loop
  resize_down_loop-Shrunk others zero pages [] b e h = record {
    kept = [];
    bits = b;
    returns = refl;
    front = ground arith;
    same_size = refl;
    owned = h;
  }
  resize_down_loop-Shrunk others zero pages (x ∷ l) b e h = absurd (omega arith)
  resize_down_loop-Shrunk others (suc n) pages l b e h = elim (Bool-cases (pages == 0)) [
    | inl t ↦ record {
      kept = l;
      bits = b;
      returns = rw t;
      front = take_none pages l (ground arith);
      same_size = refl;
      owned = h;
    }
    | inr t ↦
        let (front, x, el, le) = split_last n l e in
        rw el (
          down-snoc others n pages x front b t le (
            resize_down_loop-Shrunk others n (pages - 1) front (clean_bit b x) le
              (clean-Owns others front x b (rw el at h))))
  ]

  pub resize_down-Shrunk :
      (others : ℕ → ℕ) (pages : ℕ) (l : List ℕ) (b : Bits)
      → Owns B others l b
      → Shrunk others pages l b (resize_down B pages l b)
  unfolding resize_down
  resize_down-Shrunk others pages l b h = resize_down_loop-Shrunk others (length l) pages l b refl h
