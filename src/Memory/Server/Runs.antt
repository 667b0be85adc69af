-- ===== src/Memory/Server/Runs.antt =====
-- memoria/src/main.c: the memory from its start on, under any sequence of requests. Every client has a thread of its
-- own, so a sequence may take its requests from several connections.
use so_project_c.Common.{
  ℕ, zero, suc, ◌*◌, ◌/◌, ◌≤◌, ◌<◌, ◌≡◌, refl, Option, some, List, arith, length, false,
}
use native.Mathlib.Nat.{div-mul-le_self}
use so_project_c.Common.BitArray.{BitArray}
use so_project_c.Protocol.Codes.{OpCode}
use so_project_c.Memory.State.{Memoria, inicial, ceros}
use so_project_c.Memory.Scripts.{Entorno}
use so_project_c.Memory.Ownership.{IsValid}
use so_project_c.Memory.Server.{atender}
use so_project_c.Memory.Server.Invariant.{Admisible, atender-IsValid}

length-ceros : (n : ℕ) → length (ceros n) ≡ n
length-ceros zero = refl
length-ceros (suc n) = omega (arith, length-ceros n)

frames_fit :
    (mem_size page_size bits : ℕ)
    → bits ≡ mem_size / page_size / 8 * 8
    → bits * page_size ≤ mem_size
frames_fit mem_size page_size bits e =
    let whole : mem_size / page_size * page_size ≤ mem_size = div-mul-le_self mem_size page_size in
    let fewer : bits ≤ mem_size / page_size = omega arith in grind (arith, whole, fewer)

module _ {B : BitArray} (e : Entorno) where
  -- The second memory comes about from the first by requests that are answered, one after another.
  pub data Alcanza : Memoria B → Memoria B → Type 0 where
    fin : (m : Memoria B) → Alcanza m m
    paso :
        (op : Option OpCode) (m : Memoria B) (bs : List ℕ) (r : Memoria B × List ℕ × List ℕ)
        (m' : Memoria B)
        → Admisible op m bs
        → atender e op m bs ≡ some r
        → Alcanza r.0 m'
        → Alcanza m m'

  Alcanza-IsValid : {m m' : Memoria B} → IsValid m → Alcanza m m' → IsValid m'
  Alcanza-IsValid v (fin m) = v
  Alcanza-IsValid v (paso op m bs r m' ok served rest) =
      Alcanza-IsValid (atender-IsValid e op m bs v ok served) rest

  inicial-IsValid :
      (mem_size page_size : ℕ) (bits : B.Bits)
      → 0 < page_size
      → B.max_bit bits ≡ mem_size / page_size / 8 * 8
      → ((j : ℕ) → j < B.max_bit bits → B.test_bit bits j ≡ false)
      → IsValid (inicial {B = B} mem_size page_size bits)
  inicial-IsValid mem_size page_size bits hp hb clear = record {
    exact = λ j hj. rw (clear j hj);
    inside = tt;
    keyed = tt;
    room = rw (length-ceros mem_size) (frames_fit mem_size page_size (B.max_bit bits) hb);
    page_pos = hp;
  }

  -- If the page size is positive and the bit array has a clear bit for each of the pages that
  -- main.c makes room for, then every memory that comes about from the start by answered requests,
  -- in any number and order and of any connections, each start naming a process that does not
  -- exist yet, is valid.
  pub alcanzable-IsValid :
      (mem_size page_size : ℕ) (bits : B.Bits) (m : Memoria B)
      → 0 < page_size
      → B.max_bit bits ≡ mem_size / page_size / 8 * 8
      → ((j : ℕ) → j < B.max_bit bits → B.test_bit bits j ≡ false)
      → Alcanza (inicial {B = B} mem_size page_size bits) m
      → IsValid m
  alcanzable-IsValid mem_size page_size bits m hp hb clear run =
      Alcanza-IsValid (inicial-IsValid mem_size page_size bits hp hb clear) run
