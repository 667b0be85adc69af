-- ===== src/Common/Words.antt =====
-- `uint32_t` and `uint8_t`, their bytes in memory (little endian, as on the x86 machines the program
-- is built for), and the reads by which the code takes a received buffer apart.
use Prim.Native.Nat.{ℕ, zero, suc, ◌+◌, ◌*◌, ◌/◌, ◌%◌, ◌<◌}
use mathlib.Core.Path.{◌≡◌, refl, ap}
use mathlib.Core.List.{List, [], ◌∷◌, ◌++◌}
use mathlib.Core.Bool.{false}
use mathlib.Core.Option.{Option, none, some}
use native.Mathlib.Omega.{arith}
use so_project_c.Common.Lists.{
  All, length, take, drop, take_append, drop_append, length-append, length-take, length-drop,
}
use mathlib.Core.List.{append-nil}
use so_project_c.Common.Tests.{ltb, if◌then◌else◌}

abbrev pub u32_mod : ℕ
u32_mod = 0x1_0000_0000

abbrev pub IsU32 : ℕ → Type 0
IsU32 w = w < 0x1_0000_0000

abbrev pub IsByte : ℕ → Type 0
IsByte b = b < 256

-- The four bytes of a `uint32_t` or of an `int`, lowest first.
abbrev pub bytes_u32 : ℕ → List ℕ
bytes_u32 w = (w % 256) ∷ (w / 256 % 256) ∷ (w / 65536 % 256) ∷ (w / 16777216 % 256) ∷ []

abbrev pub word : ℕ → ℕ → ℕ → ℕ → ℕ
word a b c d = a + 256 * b + 65536 * c + 16777216 * d

pub word-bytes :
    (w : ℕ) → IsU32 w → word (w % 256) (w / 256 % 256) (w / 65536 % 256) (w / 16777216 % 256) ≡ w
word-bytes w h = omega arith

-- A read of the buffer from `buffer + desplazamiento` on: the value and the bytes after it. `none`
-- is a read past the end of the buffer, which is undefined in C.
abbrev pub Read : Type 0 → Type 0
Read A = List ℕ → Option (A × List ℕ)

infixl 5 ◌>>=◌ ◌>>◌
abbrev pub ◌>>=◌ : {A B : Type 0} → Read A → (A → Read B) → Read B
◌>>=◌ m f bs = elim (m bs) [ none ↦ none | some (a, rest) ↦ f a rest ]

abbrev pub ◌>>◌ : {B : Type 0} → Read (Unit {0}) → Read B → Read B
m >> k = m >>= λ _. k

abbrev pub pure : {A : Type 0} → A → Read A
pure a bs = some (a, bs)

-- `memcpy(&x, buffer + desplazamiento, sizeof(uint32_t)); desplazamiento += sizeof(uint32_t);`
unfoldable pub read_u32 : Read ℕ
read_u32 (a ∷ b ∷ c ∷ d ∷ rest) = some (word a b c d, rest)
read_u32 _ = none

-- The same with `sizeof(uint8_t)`.
unfoldable pub read_u8 : Read ℕ
read_u8 [] = none
read_u8 (a ∷ rest) = some (a, rest)

-- The same with a size of `n` bytes.
unfoldable pub read_bytes : ℕ → Read (List ℕ)
read_bytes n bs = if ltb (length bs) n then none else some (take n bs, drop n bs)

pub read_u32_lem :
    (w : ℕ) (rest : List ℕ) → IsU32 w → read_u32 (bytes_u32 w ++ rest) ≡ some (w, rest)
unfolding read_u32
read_u32_lem w rest h = ap (λ v. some (v, rest)) (word-bytes w h)

pub read_bytes_lem : (xs rest : List ℕ) → read_bytes (length xs) (xs ++ rest) ≡ some (xs, rest)
unfolding read_bytes
read_bytes_lem xs rest = rw (not_short, take_append xs rest, drop_append xs rest)
  where
    not_short : ltb (length (xs ++ rest)) (length xs) ≡ false
    not_short = ground (arith, length-append xs rest)

-- A C string is the list of its characters; in memory a NUL follows them.
abbrev pub stored : List ℕ → List ℕ
stored s = s ++ (0 ∷ [])

-- The string that starts where the bytes start; `none` if no NUL ends it.
unfoldable pub c_string : List ℕ → Option (List ℕ)
c_string [] = none
c_string (zero ∷ bs) = some []
c_string (suc c ∷ bs) = elim (c_string bs) [ none ↦ none | some s ↦ some (suc c ∷ s) ]

abbrev pub IsText : List ℕ → Type 0
IsText = All λ c. (0 < c) × (c < 256)

pub c_string-stored : (s rest : List ℕ) → IsText s → c_string (stored s ++ rest) ≡ some s
unfolding c_string
c_string-stored [] rest h = refl
c_string-stored (zero ∷ s) rest h = absurd (omega arith)
c_string-stored (suc c ∷ s) rest h = rw (c_string-stored s rest h.1)

pub c_string-stored_self : (s : List ℕ) → IsText s → c_string (stored s) ≡ some s
c_string-stored_self s h = rw append-nil at (c_string-stored s [] h)

pub read_u32-length :
    (bs : List ℕ) (w : ℕ) (rest : List ℕ)
    → read_u32 bs ≡ some (w, rest)
    → length bs ≡ length rest + 4
unfolding read_u32
read_u32-length [] w rest e = cc
read_u32-length (a ∷ []) w rest e = cc
read_u32-length (a ∷ b ∷ []) w rest e = cc
read_u32-length (a ∷ b ∷ c ∷ []) w rest e = cc
read_u32-length (a ∷ b ∷ c ∷ d ∷ bs) w rest e = ground arith

pub read_bytes-length :
    (n : ℕ) (bs xs rest : List ℕ)
    → read_bytes n bs ≡ some (xs, rest)
    → (length bs ≡ length rest + n) × (length xs ≡ n)
unfolding read_bytes
read_bytes-length n bs xs rest e = ground (arith, length-take n bs, length-drop n bs)

-- A read that succeeds hands its value on.
pub >>=-some :
    {A B : Type 0} (m : Read A) (f : A → Read B) {bs rest : List ℕ} {a : A}
    → m bs ≡ some (a, rest)
    → (m >>= f) bs ≡ f a rest
>>=-some m f e = rw (e, ◌>>=◌)
