-- ===== src/Protocol/Fields.antt =====
-- The fields of a message beyond plain words, and one lemma for each that takes a read past the field
-- that was written.
use so_project_c.Common.{
  ℕ, ◌≡◌, refl, none, some, List, [], ◌∷◌, ◌++◌, arith, length, Read, ◌>>=◌, >>=-some, read_u32,
  read_u8, read_bytes, read_u32_lem, read_bytes_lem, bytes_u32, stored, c_string, IsText, IsU32,
  c_string-stored_self,
}
use mathlib.Core.List.{append-nil}
use so_project_c.Protocol.Codes.{
  PidStatus, status_value, status_of, status_of-status_value, status_value-lt, SetInstruction,
  instruction_value, instruction_of, instruction_of-instruction_value, instruction_value-lt,
}

-- A status that no enumerator names, and a `recursos` with no NUL in it, are `none`: the code would
-- go on with a value that its own sender never sends.
pub read_status : Read PidStatus
read_status = do n ← read_u32; λ rest. elim (status_of n) [ none ↦ none | some s ↦ some (s, rest) ]

pub read_text : ℕ → Read (List ℕ)
read_text n = do
  bs ← read_bytes n
  λ rest. elim (c_string bs) [ none ↦ none | some s ↦ some (s, rest) ]

pub read_instruction : Read SetInstruction
read_instruction = do
  n ← read_u32
  λ rest. elim (instruction_of n) [ none ↦ none | some i ↦ some (i, rest) ]

-- One field more: the read of a word, a byte or a text, in front of the other reads.
pub next_u32 :
    {A : Type 0} (w : ℕ) (f : ℕ → Read A) {rest : List ℕ}
    → IsU32 w
    → (read_u32 >>= f) (bytes_u32 w ++ rest) ≡ f w rest
next_u32 w f {rest} h = >>=-some read_u32 f (read_u32_lem w rest h)

pub next_u8 :
    {A : Type 0} (b : ℕ) (f : ℕ → Read A) {rest : List ℕ} → (read_u8 >>= f) (b ∷ rest) ≡ f b rest
unfolding read_u8
next_u8 b f = refl

pub next_status :
    {A : Type 0} (s : PidStatus) (f : PidStatus → Read A) {rest : List ℕ}
    → (read_status >>= f) (bytes_u32 (status_value s) ++ rest) ≡ f s rest
unfolding read_status
next_status s f {rest} = >>=-some read_status f (
    rw (
      read_u32_lem (status_value s) rest (omega (arith, status_value-lt s)),
      ◌>>=◌,
      status_of-status_value s,
    ))

pub read_text_lem :
    (s : List ℕ) → IsText s → read_text (length (stored s)) (stored s) ≡ some (s, [])
unfolding read_text
read_text_lem s t = rw (whole, ◌>>=◌, c_string-stored_self s t)
  where
    whole : read_bytes (length (stored s)) (stored s) ≡ some (stored s, [])
    whole = rw append-nil at (read_bytes_lem (stored s) [])

pub next_instruction :
    {A : Type 0} (i : SetInstruction) (f : SetInstruction → Read A) {rest : List ℕ}
    → (read_instruction >>= f) (bytes_u32 (instruction_value i) ++ rest) ≡ f i rest
unfolding read_instruction
next_instruction i f {rest} = >>=-some read_instruction f (
    rw (
      read_u32_lem (instruction_value i) rest (omega (arith, instruction_value-lt i)),
      ◌>>=◌,
      instruction_of-instruction_value i,
    ))

pub next_bytes :
    {A : Type 0} (xs : List ℕ) (f : List ℕ → Read A) {rest : List ℕ}
    → (read_bytes (length xs) >>= f) (xs ++ rest) ≡ f xs rest
next_bytes xs f {rest} = >>=-some (read_bytes (length xs)) f (read_bytes_lem xs rest)

pub next_text :
    {A : Type 0} (s : List ℕ) (f : List ℕ → Read A) {rest : List ℕ}
    → IsText s
    → (read_text (length (stored s)) >>= f) (stored s ++ rest) ≡ f s rest
unfolding read_text
next_text s f {rest} t =
    >>=-some (read_text (length (stored s))) f
      (rw (read_bytes_lem (stored s) rest, ◌>>=◌, c_string-stored_self s t))
