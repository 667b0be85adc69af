-- ===== src/Common/Memcpy.antt =====
-- `memcpy` into and out of a block of bytes. A copy that would leave the block is undefined in C: `none`.
use so_project_c.Common.{
  take_append, drop_append, ℕ, zero, suc, ◌+◌, ◌-◌, ◌≤◌, ◌<◌, ◌≡◌, refl, ap, Option, none, some,
  ◌&&◌, List, [], ◌∷◌, ◌++◌, arith, ltb, leb, if◌then◌else◌, length, take, drop, get_elem?,
  length-append, length-take, length-drop,
}

-- `memcpy(block + at, value, strlen(value))`
unfoldable pub copy_to : List ℕ → ℕ → List ℕ → Option (List ℕ)
copy_to block at value =
    if ltb (length block) (at + length value)
    then none
    else some (take at block ++ (value ++ drop (at + length value) block))

-- `memcpy(value, block + at, size)`
pub copy_from : List ℕ → ℕ → ℕ → Option (List ℕ)
copy_from block at size =
    if ltb (length block) (at + size) then none else some (take size (drop at block))

get_elem?-append :
    (xs ys : List ℕ) (i : ℕ)
    → get_elem? (xs ++ ys) i
      ≡ (if ltb i (length xs) then get_elem? xs i else get_elem? ys (i - length xs))
get_elem?-append [] ys i = ground arith
get_elem?-append (x ∷ xs) ys zero = ground arith
get_elem?-append (x ∷ xs) ys (suc i) = ground (arith, get_elem?-append xs ys i)

get_elem?-take : (n : ℕ) (xs : List ℕ) (i : ℕ) → i < n → get_elem? (take n xs) i ≡ get_elem? xs i
get_elem?-take zero xs i h = absurd (omega arith)
get_elem?-take (suc n) [] i h = refl
get_elem?-take (suc n) (x ∷ xs) zero h = refl
get_elem?-take (suc n) (x ∷ xs) (suc i) h = get_elem?-take n xs i (omega arith)

get_elem?-drop : (n : ℕ) (xs : List ℕ) (i : ℕ) → get_elem? (drop n xs) i ≡ get_elem? xs (n + i)
get_elem?-drop zero xs i = ap (get_elem? xs) (omega arith)
get_elem?-drop (suc n) [] i = refl
get_elem?-drop (suc n) (x ∷ xs) i =
    let e : suc n + i ≡ suc (n + i) = omega arith in rw (e, get_elem?-drop n xs i)

abbrev written : List ℕ → ℕ → List ℕ → List ℕ
written block at value = take at block ++ (value ++ drop (at + length value) block)

length-written :
    (block : List ℕ) (at : ℕ) (value : List ℕ)
    → at + length value ≤ length block
    → length (written block at value) ≡ length block
length-written block at value h = omega (
  arith,
  length-append (take at block) (value ++ drop (at + length value) block),
  length-append value (drop (at + length value) block),
  length-take at block,
  length-drop (at + length value) block,
)

get_elem?-written :
    (block : List ℕ) (at : ℕ) (value : List ℕ) (a : ℕ)
    → at + length value ≤ length block
    → get_elem? (written block at value) a ≡ (
        if leb at a && ltb a (at + length value)
        then get_elem? value (a - at)
        else get_elem? block a)
get_elem?-written block at value a h =
    let past : at + length value + (a - at - length value)
        ≡ (if ltb a (at + length value) then at + length value + (a - at - length value) else a) =
      ground arith in
    ground (
      arith,
      get_elem?-append (take at block) (value ++ drop (at + length value) block) a,
      get_elem?-append value (drop (at + length value) block) (a - at),
      length-take at block,
      get_elem?-take at block a,
      get_elem?-drop (at + length value) block (a - at - length value),
      past,
    )

-- After a copy into the block: its size, and the byte at each address.
pub copy_to_lem :
    (block : List ℕ) (at : ℕ) (value block' : List ℕ) (a : ℕ)
    → copy_to block at value ≡ some block'
    → (length block' ≡ length block)
      × (get_elem? block' a ≡ (
          if leb at a && ltb a (at + length value)
          then get_elem? value (a - at)
          else get_elem? block a))
unfolding copy_to
copy_to_lem block at value block' a e =
    ground (arith, length-written block at value, get_elem?-written block at value a)

-- A copy inside the block succeeds.
pub copy_to-fits :
    (block : List ℕ) (at : ℕ) (value : List ℕ)
    → at + length value ≤ length block
    → (block' : List ℕ) × (copy_to block at value ≡ some block')
unfolding copy_to
copy_to-fits block at value h =
    (take at block ++ (value ++ drop (at + length value) block), ground arith)

-- What was copied to an address is read back from it.
pub copy_from-copy_to :
    (block : List ℕ) (at : ℕ) (value block' : List ℕ)
    → copy_to block at value ≡ some block'
    → copy_from block' at (length value) ≡ some value
unfolding copy_to copy_from
copy_from-copy_to block at value block' e = ground (
  arith,
  length-written block at value,
  drop-written,
  take_append value (drop (at + length value) block),
)
  where
    drop-written :
        at ≤ length block
        → drop at (written block at value) ≡ value ++ drop (at + length value) block
    drop-written h =
        let n : length (take at block) ≡ at = omega (arith, length-take at block) in
        rw n at (drop_append (take at block) (value ++ drop (at + length value) block))
