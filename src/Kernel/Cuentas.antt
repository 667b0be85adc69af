-- ===== src/Kernel/Cuentas.antt =====
-- kernel/src: where the processes are. A count takes the processes that a test asks for: one pid, or all of them.
use so_project_c.Common.{
  ℕ, zero, suc, ◌+◌, ◌≡◌, refl, Bool, true, Option, none, some, List, [], ◌∷◌, ◌++◌, arith, length,
  if◌then◌else◌,
}
use so_project_c.Common.Text.{suma, Todos}
use so_project_c.Common.Counts.{mem}
use so_project_c.Kernel.State.{Consola, pos, negsuc, Recurso, IoClient, Kernel}
use so_project_c.Kernel.Largo.{quitar}
use so_project_c.Kernel.Interfaces.{pids_io}

abbrev pub siempre : ℕ → Bool
siempre p = true

abbrev pub uno : Bool → ℕ
uno b = if b then 1 else 0

abbrev pub cuantos : (ℕ → Bool) → List ℕ → ℕ
cuantos f [] = 0
cuantos f (x ∷ xs) = uno (f x) + cuantos f xs

abbrev pub cuanto : (ℕ → Bool) → Option ℕ → ℕ
cuanto f none = 0
cuanto f (some p) = uno (f p)

abbrev pub en_recurso : (ℕ → Bool) → Recurso → ℕ
en_recurso f r = cuantos f r.queue_waiting

abbrev pub en_cliente : (ℕ → Bool) → IoClient → ℕ
en_cliente f c = cuantos f (pids_io c.queue_io) + cuanto f c.en_curso + cuantos f c.salientes

-- The processes that hold a place of the multiprogramming degree, less the one on the CPU.
abbrev pub activos : (ℕ → Bool) → Kernel → ℕ
activos f k =
    cuantos f k.queue_ready
    + cuantos f k.queue_priority_ready
    + suma (en_recurso f) k.dict_recursos
    + suma (en_cliente f) k.dict_io_clients
    + cuantos f k.abandonados

abbrev pub total : (ℕ → Bool) → Kernel → ℕ
total f k = cuantos f k.queue_new + activos f k + cuantos f k.salida + cuantos f k.terminados

-- The pids below `n`.
abbrev pub creados : (ℕ → Bool) → ℕ → ℕ
creados f zero = 0
creados f (suc n) = uno (f n) + creados f n

-- Somebody waits only for a resource without an instance, and the instances that are missing are those that wait.
abbrev pub IsRecurso : Recurso → Type 0
IsRecurso r = elim r.cant_instancias [
  | pos n ↦ length r.queue_waiting ≡ 0
  | negsuc n ↦ length r.queue_waiting ≡ suc n
]

abbrev pub IsCliente : IoClient → Type 0
IsCliente c = c.hay_io + c.tiene_io ≡ length c.queue_io + length c.salientes

-- The wait for a ready process that the console has yet to make.
abbrev pub debe : Consola → ℕ
debe Consola.espera_ready = 1
debe _ = 0

-- The state between two steps of a thread that has the processes `h` in its hands.
pub record IsConsistent (h : List ℕ) (k : Kernel) : Type 0 where
  pub cuenta : (f : ℕ → Bool) → total f k + cuantos f h ≡ creados f k.next_pid
  pub plazas :
      k.cont_multi + k.tiene_multi + (activos siempre k + cuantos siempre h)
      ≡ k.multiprogramacion + k.reducciones
  pub listos :
      k.hay_ready + k.tiene_ready
      ≡ length k.queue_ready + length k.queue_priority_ready + debe k.consola
  pub nuevos : k.hay_new + k.tiene_new ≡ length k.queue_new
  pub recursos : Todos IsRecurso k.dict_recursos
  pub clientes : Todos IsCliente k.dict_io_clients

pub cuantos-append :
    (f : ℕ → Bool) (xs ys : List ℕ) → cuantos f (xs ++ ys) ≡ cuantos f xs + cuantos f ys
cuantos-append f [] ys = omega arith
cuantos-append f (x ∷ xs) ys = omega (arith, cuantos-append f xs ys)

pub cuantos_push :
    (f : ℕ → Bool) (xs : List ℕ) (p : ℕ) → cuantos f (xs ++ (p ∷ [])) ≡ cuantos f xs + uno (f p)
cuantos_push f xs p = omega (arith, cuantos-append f xs (p ∷ []))

pub length_push : (xs : List ℕ) (p : ℕ) → length (xs ++ (p ∷ [])) ≡ suc (length xs)
length_push [] p = refl
length_push (x ∷ xs) p = omega (arith, length_push xs p)

pub cuantos-quitar :
    (f : ℕ → Bool) (p : ℕ) (xs : List ℕ)
    → mem p xs ≡ true
    → cuantos f (quitar p xs) + uno (f p) ≡ cuantos f xs
cuantos-quitar f p [] h = cc
cuantos-quitar f p (x ∷ xs) h = ground (arith, cuantos-quitar f p xs)

pub length-quitar : (p : ℕ) (xs : List ℕ) → mem p xs ≡ true → suc (length (quitar p xs)) ≡ length xs
length-quitar p [] h = cc
length-quitar p (x ∷ xs) h = ground (arith, length-quitar p xs)
