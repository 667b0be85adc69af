-- ===== src/Kernel/Semaforo.antt =====
-- kernel/src/corto_plazo.c: a resource is a counting semaphore with a queue, which WAIT and SIGNAL work on.
use so_project_c.Common.{
  ℕ, zero, suc, ◌≡◌, refl, ap, Bool, true, false, Option, none, some, List, [], ◌∷◌, ◌++◌, arith,
  if◌then◌else◌, ltb, ◌⊎◌, inl, inr, Bool-cases,
}
use so_project_c.Common.Text.{get_text, get_text-put_text}
use so_project_c.Protocol.Codes.{PidStatus}
use so_project_c.Protocol.Pcb.{Pcb}
use so_project_c.Kernel.State.{ℤ, pos, negsuc, Recurso, Ajustes, Kernel, guardar, a_ready}
use so_project_c.Kernel.Corto.{
  pide_wait, pide_signal, esperar_cpu, atender_wait, atender_signal, pedir_recurso, sumar_instancia,
  sin_recurso,
}
use so_project_c.Kernel.Cuentas.{IsRecurso, length_push}
use so_project_c.Kernel.Vuelta.{estado, guardar_eq}

-- The contract: free instances, or else a queue that is not empty. A process that waits is served in its turn, and
-- before anybody who asks later.
pub data Semaforo : Type 0 where
  libre : ℕ → Semaforo
  espera : ℕ → List ℕ → Semaforo

-- The semaphore behind a WAIT of `p`, and whether `p` got an instance.
pub adquirir : ℕ → Semaforo → Semaforo × Bool
adquirir p (libre zero) = (espera p [], false)
adquirir p (libre (suc n)) = (libre n, true)
adquirir p (espera q qs) = (espera q (qs ++ (p ∷ [])), false)

-- The semaphore behind a SIGNAL, and who got the instance.
pub devolver : Semaforo → Semaforo × Option ℕ
devolver (libre n) = (libre (suc n), none)
devolver (espera q []) = (libre 0, some q)
devolver (espera q (r ∷ rs)) = (espera r rs, some q)

libres : ℤ → ℕ
libres (pos n) = n
libres (negsuc n) = 0

-- What the count and the queue of the code stand for.
pub abstraccion : Recurso → Semaforo
unfolding libres
abstraccion r = elim r.queue_waiting [
  | [] ↦ libre (libres r.cant_instancias)
  | q ∷ qs ↦ espera q qs
]

-- The resource of the name stands for the semaphore `s`.
abbrev pub Representa : Kernel → List ℕ → Semaforo → Type 0
Representa k nombre s =
    (r : Recurso) × (get_text nombre k.dict_recursos ≡ some r) × IsRecurso r × (abstraccion r ≡ s)

-- The process that was given an instance is the last of one of the ready queues, and nobody else went there.
abbrev pub Despierta : Kernel → Kernel → Option ℕ → Type 0
Despierta k k' none =
    (k'.queue_ready ≡ k.queue_ready) × (k'.queue_priority_ready ≡ k.queue_priority_ready)
Despierta k k' (some q) =
    ((k'.queue_ready ≡ k.queue_ready ++ (q ∷ []))
      × (k'.queue_priority_ready ≡ k.queue_priority_ready))
    ⊎ ((k'.queue_ready ≡ k.queue_ready)
        × (k'.queue_priority_ready ≡ k.queue_priority_ready ++ (q ∷ [])))

pedir-adquirir :
    (k : Kernel) (n : ℤ) (w nombre : List ℕ) (p : ℕ)
    → let r : Recurso = record { cant_instancias = n; queue_waiting = w } in
      let k' = pedir_recurso k r nombre p in
      IsRecurso r
      → Representa k' nombre (adquirir p (abstraccion r)).0
        × (estado k' p ≡ (
            if (adquirir p (abstraccion r)).1 then PidStatus.running else PidStatus.blocked_wait))
unfolding pedir_recurso abstraccion adquirir libres
pedir-adquirir k (pos zero) [] nombre p v = (
  (_, get_text-put_text nombre _ k.dict_recursos, refl, refl),
  ap (λ x. x.status) (guardar_eq k.pcbs p _),
)
pedir-adquirir k (pos (suc n)) [] nombre p v = (
  (_, get_text-put_text nombre _ k.dict_recursos, refl, refl),
  ap (λ x. x.status) (guardar_eq k.pcbs p _),
)
pedir-adquirir k (negsuc n) (q ∷ qs) nombre p v = (
  (_, get_text-put_text nombre _ k.dict_recursos, omega (arith, v, length_push qs p), refl),
  ap (λ x. x.status) (guardar_eq k.pcbs p _),
)
pedir-adquirir k (pos n) (q ∷ qs) nombre p v = absurd (omega arith)
pedir-adquirir k (negsuc n) [] nombre p v = absurd (omega arith)

a_ready-Despierta : (a : Ajustes) (k : Kernel) (q : ℕ) → Despierta k (a_ready a k q) (some q)
unfolding a_ready
a_ready-Despierta a k q = elim (Bool-cases (ltb (k.pcbs q).quantum a.quantum)) [
  | inl rest ↦ inr (rw (rest) refl, rw (rest) refl)
  | inr full ↦ inl (rw (full) refl, rw (full) refl)
]

sumar-devolver :
    (a : Ajustes) (k : Kernel) (n : ℤ) (w nombre : List ℕ)
    → let r : Recurso = record { cant_instancias = n; queue_waiting = w } in
      let k' = sumar_instancia a k nombre r in
      IsRecurso r
      → Representa k' nombre (devolver (abstraccion r)).0
        × Despierta k k' (devolver (abstraccion r)).1
unfolding sumar_instancia abstraccion devolver libres a_ready
sumar-devolver a k (pos n) [] nombre v =
    ((_, get_text-put_text nombre _ k.dict_recursos, refl, refl), (refl, refl))
sumar-devolver a k (negsuc zero) (q ∷ []) nombre v =
    ((_, get_text-put_text nombre _ k.dict_recursos, refl, refl), a_ready-Despierta a k q)
sumar-devolver a k (negsuc (suc n)) (q ∷ r ∷ rs) nombre v = (
  (_, get_text-put_text nombre _ k.dict_recursos, omega (arith, v), refl),
  a_ready-Despierta a k q,
)
sumar-devolver a k (negsuc zero) (q ∷ r ∷ rs) nombre v = absurd (omega arith)
sumar-devolver a k (negsuc (suc n)) (q ∷ []) nombre v = absurd (omega arith)
sumar-devolver a k (pos n) (q ∷ qs) nombre v = absurd (omega arith)
sumar-devolver a k (negsuc n) [] nombre v = absurd (omega arith)

atender_wait-adquirir :
    (k : Kernel) (nombre : List ℕ) (p : ℕ) (o : Option Recurso) (r : Recurso)
    → o ≡ some r
    → IsRecurso r
    → Representa (atender_wait k nombre p o) nombre (adquirir p (abstraccion r)).0
      × (estado (atender_wait k nombre p o) p
          ≡ (if (adquirir p (abstraccion r)).1 then PidStatus.running else PidStatus.blocked_wait))
unfolding atender_wait
atender_wait-adquirir k nombre p o r e v =
    rw (e) (pedir-adquirir k r.cant_instancias r.queue_waiting nombre p v)

atender_signal-devolver :
    (a : Ajustes) (k : Kernel) (nombre : List ℕ) (p : ℕ) (o : Option Recurso) (r : Recurso)
    → o ≡ some r
    → IsRecurso r
    → Representa (atender_signal a k nombre p o) nombre (devolver (abstraccion r)).0
      × Despierta k (atender_signal a k nombre p o) (devolver (abstraccion r)).1
unfolding atender_signal
atender_signal-devolver a k nombre p o r e v =
    let pcb' = record (k.pcbs p) { recursos = sin_recurso a (k.pcbs p).recursos nombre } in
    rw (e) (
      sumar-devolver a (record k { pcbs = guardar k.pcbs p pcb' }) r.cant_instancias r.queue_waiting
        nombre v)

-- On a resource that is there and whose count is in order, WAIT and SIGNAL do what the counting semaphore does that the
-- count and the queue stand for, and leave the count in order. The process of a WAIT runs on when the semaphore gave it
-- an instance and is blocked otherwise; behind a SIGNAL the process that the semaphore serves, and no other, is put at
-- the end of one of the two ready queues.
pub esperar_cpu-refines :
    (a : Ajustes) (k : Kernel) (nombre : List ℕ) (b : Pcb) (r : Recurso)
    → get_text nombre k.dict_recursos ≡ some r
    → IsRecurso r
    → (Representa (esperar_cpu a k (pide_wait nombre b)) nombre (adquirir b.pid (abstraccion r)).0
        × (estado (esperar_cpu a k (pide_wait nombre b)) b.pid ≡ (
            if (adquirir b.pid (abstraccion r)).1
            then PidStatus.running
            else PidStatus.blocked_wait)))
      × (Representa (esperar_cpu a k (pide_signal nombre b)) nombre (devolver (abstraccion r)).0
          × Despierta k (esperar_cpu a k (pide_signal nombre b)) (devolver (abstraccion r)).1)
unfolding esperar_cpu
esperar_cpu-refines a k nombre b r e v = (
  atender_wait-adquirir (record k { pcbs = guardar k.pcbs b.pid b }) nombre b.pid _ r e v,
  atender_signal-devolver a (record k { pcbs = guardar k.pcbs b.pid b }) nombre b.pid _ r e v,
)
