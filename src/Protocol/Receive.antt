-- ===== src/Protocol/Receive.antt =====
-- utils/src/utils/general_protocol.c: the receiving side. A connection is the list of the bytes that
-- are still to be received on it; it ends where the peer closed it.
use so_project_c.Common.{
  >>=-some, pure, word-bytes, All, length-append, c_string-stored_self, ℕ, zero, suc, ◌≤◌, ◌<◌, ◌≡◌,
  refl, ◌∙◌, ap, Option, none, some, List, [], ◌∷◌, ◌++◌, arith, length, ltb, if◌then◌else◌, Read,
  ◌>>=◌, read_u32, read_bytes, read_u32_lem, read_bytes_lem, bytes_u32, stored, c_string, IsText,
  word, ◌==◌,
}
use so_project_c.Protocol.Codes.{op_value-lt, OpCode, op_value}
use so_project_c.Protocol.Packet.{wire}

-- What `recibir_operacion` returns: a code, or -1 when the peer has closed the connection.
pub data Operacion : Type 0 where
  llega : ℕ → Operacion
  desconectado : Operacion

-- The code 2^32 - 1 is the `int` -1 too.
abbrev codigo : ℕ → Operacion
codigo w = if w == 0xffff_ffff then desconectado else llega w

-- A connection that ends inside the `int` leaves `cod_op` partly unset: `none`.
pub recibir_operacion : Read Operacion
recibir_operacion [] = some (desconectado, [])
recibir_operacion (a ∷ b ∷ c ∷ d ∷ rest) = some (codigo (word a b c d), rest)
recibir_operacion _ = none

-- `size` is an `int`: a negative one asks `malloc` and `recv` for a huge size. A connection that
-- ends too early leaves the buffer partly unset. Both are `none`.
unfoldable pub recibir_buffer : Read (List ℕ)
recibir_buffer = do size ← read_u32; if ltb size 0x8000_0000 then read_bytes size else λ _. none

-- The text up to the first NUL of the buffer.
pub recibir_mensaje : Read (List ℕ)
recibir_mensaje = do
  buffer ← recibir_buffer
  λ rest. elim (c_string buffer) [ none ↦ none | some mensaje ↦ some (mensaje, rest) ]

-- The loop of `recibir_paquete` over a buffer that it has received; every round takes four bytes at
-- least, so as many rounds as there are bytes are enough.
pub recibir_valores : ℕ → List ℕ → Option (List (List ℕ))
recibir_valores fuel [] = some []
recibir_valores zero (b ∷ bs) = none
recibir_valores (suc fuel) (b ∷ bs) = elim (read_u32 (b ∷ bs)) [
  | none ↦ none
  | some (tamanio, valores) ↦ elim (read_bytes tamanio valores) [
    | none ↦ none
    | some (valor, rest) ↦ elim (recibir_valores fuel rest) [
      | none ↦ none
      | some vs ↦ some (valor ∷ vs)
    ]
  ]
]

pub recibir_paquete : Read (List (List ℕ))
recibir_paquete = do
  buffer ← recibir_buffer
  λ rest. elim (recibir_valores (length buffer) buffer) [ none ↦ none | some vs ↦ some (vs, rest) ]

-- The functions that take a whole buffer apart: they receive it, read it from its start, and ignore
-- what the reads leave (the code only logs it).
unfoldable pub from_buffer : {A : Type 0} → Read A → Read A
from_buffer m = do
  buffer ← recibir_buffer
  λ rest. elim (m buffer) [ none ↦ none | some (a, left) ↦ some (a, rest) ]

abbrev pub FitsInt : ℕ → Type 0
FitsInt n = n < 0x8000_0000

pub recibir_operacion_lem :
    (op : ℕ) (rest : List ℕ)
    → op < 0xffff_ffff
    → recibir_operacion (bytes_u32 op ++ rest) ≡ some (llega op, rest)
unfolding recibir_operacion
recibir_operacion_lem op rest h =
    let other : codigo op ≡ llega op = ground (arith, h) in
    ap (λ v. some (codigo v, rest)) (word-bytes op (omega arith)) ∙ ap (λ v. some (v, rest)) other

recibir_buffer_lem :
    (bs rest : List ℕ)
    → FitsInt (length bs)
    → recibir_buffer (bytes_u32 (length bs) ++ (bs ++ rest)) ≡ some (bs, rest)
unfolding recibir_buffer
recibir_buffer_lem bs rest h =
    ground (arith, read_u32_lem (length bs) (bs ++ rest), read_bytes_lem bs rest)

from_buffer_lem :
    {A : Type 0} (m : Read A) (a : A) (bs rest left : List ℕ)
    → FitsInt (length bs)
    → m bs ≡ some (a, left)
    → from_buffer m (bytes_u32 (length bs) ++ (bs ++ rest)) ≡ some (a, rest)
unfolding from_buffer
from_buffer_lem m a bs rest left h e = rw (recibir_buffer_lem bs rest h, ◌>>=◌, e)

-- A text arrives as it was sent.
recibir_mensaje_lem :
    (s rest : List ℕ)
    → IsText s
    → FitsInt (length (stored s))
    → recibir_mensaje (bytes_u32 (length (stored s)) ++ (stored s ++ rest)) ≡ some (s, rest)
unfolding recibir_mensaje
recibir_mensaje_lem s rest t h =
    rw (recibir_buffer_lem (stored s) rest h, ◌>>=◌, c_string-stored_self s t)

-- The values of a packet, each behind its size.
abbrev pub values_bytes : List (List ℕ) → List ℕ
values_bytes [] = []
values_bytes (v ∷ vs) = bytes_u32 (length v) ++ (v ++ values_bytes vs)

recibir_valores_lem :
    (fuel : ℕ) (vs : List (List ℕ))
    → length (values_bytes vs) ≤ fuel
    → All (λ v. FitsInt (length v)) vs
    → recibir_valores fuel (values_bytes vs) ≡ some vs
unfolding recibir_valores
recibir_valores_lem zero [] h fits = refl
recibir_valores_lem (suc fuel) [] h fits = refl
recibir_valores_lem zero (v ∷ vs) h fits = absurd (omega arith)
recibir_valores_lem (suc fuel) (v ∷ vs) h (f, fits) = ground (
  arith,
  read_u32_lem (length v) (v ++ values_bytes vs),
  read_bytes_lem v (values_bytes vs),
  recibir_valores_lem fuel vs,
  length-append v (values_bytes vs),
)

-- An operation code, and then what `m` receives.
abbrev pub tras_operacion : {A : Type 0} → Read A → Read (Operacion × A)
tras_operacion m = do operacion ← recibir_operacion; a ← m; pure (operacion, a)

pub tras_operacion-wire :
    {A : Type 0} (op : OpCode) (m : Read A) (a : A) (bs left rest : List ℕ)
    → FitsInt (length bs)
    → m bs ≡ some (a, left)
    → tras_operacion (from_buffer m) (wire op bs ++ rest) ≡ some ((llega (op_value op), a), rest)
tras_operacion-wire op m a bs left rest h e =
    >>=-some recibir_operacion _ (
      recibir_operacion_lem (op_value op) (bytes_u32 (length bs) ++ (bs ++ rest))
        (omega (arith, op_value-lt op)))
    ∙ >>=-some (from_buffer m) _ (from_buffer_lem m a bs rest left h e)

-- The values of a packet arrive in order, each whole.
pub recibir_paquete_lem :
    (vs : List (List ℕ)) (rest : List ℕ)
    → FitsInt (length (values_bytes vs))
    → All (λ v. FitsInt (length v)) vs
    → recibir_paquete (bytes_u32 (length (values_bytes vs)) ++ (values_bytes vs ++ rest))
      ≡ some (vs, rest)
unfolding recibir_paquete
recibir_paquete_lem vs rest h fits = rw (
  recibir_buffer_lem (values_bytes vs) rest h,
  ◌>>=◌,
  recibir_valores_lem (length (values_bytes vs)) vs (omega arith) fits,
)
