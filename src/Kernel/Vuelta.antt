-- ===== src/Kernel/Vuelta.antt =====
-- kernel/src/corto_plazo.c: a process that comes back from the CPU ends up in one place.
use so_project_c.Common.{
  ℕ, zero, suc, ◌+◌, ◌≤◌, ◌≡◌, refl, sym, ◌∙◌, ap, Bool, true, false, Option, none, some, List, [],
  ◌∷◌, ◌++◌, arith, length, ◌==◌, ◌⊎◌, inl, inr, Bool-cases,
}
use mathlib.Core.Path.{subst}
use so_project_c.Common.Text.{get_text, Todos-get_text}
use so_project_c.Protocol.Codes.{PidStatus}
use so_project_c.Protocol.Io.{Io}
use so_project_c.Protocol.Pcb.{Pcb}
use so_project_c.Kernel.State.{
  ℤ, pos, negsuc, Recurso, IoClient, Ajustes, Kernel, a_ready, guardar, con_estado,
}
use so_project_c.Kernel.Interfaces.{pids_io}
use so_project_c.Kernel.Corto.{
  sumar_instancia, bloquear_io, pedir_recurso, atender_io, atender_wait, atender_signal,
  esperar_cpu, segun_estado, corto_main, Llegada, devuelve, pide_io, pide_wait, pide_signal, pcb_de,
  ajustar_quantum, sin_recurso, resolver,
}
use so_project_c.Kernel.Cuentas.{
  siempre, uno, cuantos, creados, IsRecurso, IsCliente, IsConsistent, cuantos_push, length_push,
}
use so_project_c.Kernel.Conserva.{
  a_ready-IsConsistent, finalizar-IsConsistent, recurso-IsConsistent, cliente-IsConsistent,
  sumar_instancia-IsConsistent, IsRecurso-mas_uno,
}

-- The states that `corto_main` goes on with, and those of a process that waits elsewhere.
abbrev pub atendido : PidStatus → Bool
atendido PidStatus.terminated = true
atendido PidStatus.terminated_user = true
atendido PidStatus.error = true
atendido PidStatus.error_resource = true
atendido PidStatus.error_interface = true
atendido PidStatus.error_memory = true
atendido PidStatus.running = true
atendido PidStatus.running_quantum = true
atendido PidStatus.running_signal = true
atendido _ = false

abbrev pub bloqueado : PidStatus → Bool
bloqueado PidStatus.blocked_io = true
bloqueado PidStatus.blocked_wait = true
bloqueado _ = false

abbrev pub estado : Kernel → ℕ → PidStatus
estado k p = (k.pcbs p).status

pub guardar_eq : (pcbs : ℕ → Pcb) (p : ℕ) (pcb : Pcb) → guardar pcbs p pcb p ≡ pcb
guardar_eq pcbs p pcb = ground arith

-- The process `p` is in the hands of the scheduler still, or it was put in a queue.
abbrev Sigue : List ℕ → ℕ → Kernel → Type 0
Sigue h p k =
    (IsConsistent (p ∷ h) k × (atendido (estado k p) ≡ true))
    ⊎ (IsConsistent h k × (bloqueado (estado k p) ≡ true))

-- Only the store changed.
otro_store :
    {h : List ℕ} (k : Kernel) (pcbs : ℕ → Pcb)
    → IsConsistent h k
    → IsConsistent h (record k { pcbs = pcbs })
otro_store k pcbs c = record {
  cuenta = c.cuenta;
  plazas = c.plazas;
  listos = c.listos;
  nuevos = c.nuevos;
  recursos = c.recursos;
  clientes = c.clientes;
}

bloquear_io-Sigue :
    (k : Kernel) (client : IoClient) (io : Io) (nombre : List ℕ) (p : ℕ) {h : List ℕ}
    → IsConsistent (p ∷ h) k
    → get_text nombre k.dict_io_clients ≡ some client
    → Sigue h p (bloquear_io k client io nombre p)
unfolding bloquear_io
bloquear_io-Sigue k client io nombre p {h} c e =
    let valid = Todos-get_text IsCliente nombre client k.dict_io_clients c.clientes e in
    inr (
      otro_store _ _ (
          cliente-IsConsistent k nombre client _ {h' = h} c e
            (omega (arith, valid, length_cola client.queue_io))
            (λ f. omega (arith, cuantos_cola f client.queue_io))),
      ap (λ x. bloqueado x.status) (guardar_eq k.pcbs p _),
    )
  where
    length_cola : (q : List (ℕ × Io)) → length (q ++ ((p, io) ∷ [])) ≡ suc (length q)
    length_cola [] = refl
    length_cola (x ∷ q) = omega (arith, length_cola q)

    cuantos_cola :
        (f : ℕ → Bool) (q : List (ℕ × Io))
        → cuantos f (pids_io (q ++ ((p, io) ∷ []))) ≡ cuantos f (pids_io q) + uno (f p)
    cuantos_cola f [] = omega arith
    cuantos_cola f ((x, y) ∷ q) = omega (arith, cuantos_cola f q)

pedir_con :
    (k : Kernel) (n : ℤ) (w nombre : List ℕ) (p : ℕ) {h : List ℕ}
    → IsConsistent (p ∷ h) k
    → get_text nombre k.dict_recursos ≡ some (record { cant_instancias = n; queue_waiting = w })
    → Sigue h p (pedir_recurso k (record { cant_instancias = n; queue_waiting = w }) nombre p)
unfolding pedir_recurso
pedir_con k (pos zero) w nombre p {h} c e =
    let valid = Todos-get_text IsRecurso nombre _ k.dict_recursos c.recursos e in
    inr (
      otro_store _ _ (
          recurso-IsConsistent k nombre _ _ {h' = h} c e (omega (arith, valid, length_push w p))
            (λ f. omega (arith, cuantos_push f w p))),
      ap (λ x. bloqueado x.status) (guardar_eq k.pcbs p _),
    )
pedir_con k (pos (suc n)) w nombre p {h} c e =
    let valid = Todos-get_text IsRecurso nombre _ k.dict_recursos c.recursos e in
    inl (
      otro_store _ _ (recurso-IsConsistent k nombre _ _ {h' = p ∷ h} c e valid (λ f. refl)),
      ap (λ x. atendido x.status) (guardar_eq k.pcbs p _),
    )
pedir_con k (negsuc n) w nombre p {h} c e =
    let valid = Todos-get_text IsRecurso nombre _ k.dict_recursos c.recursos e in
    inr (
      otro_store _ _ (
          recurso-IsConsistent k nombre _ _ {h' = h} c e (omega (arith, valid, length_push w p))
            (λ f. omega (arith, cuantos_push f w p))),
      ap (λ x. bloqueado x.status) (guardar_eq k.pcbs p _),
    )

-- The states with which the CPU gives a process back; behind a WAIT or a request to an interface the kernel sets
-- its own.
abbrev pub Devuelto : Llegada → Type 0
Devuelto (devuelve pcb) = atendido pcb.status ≡ true
Devuelto (pide_io io nombre pcb) = Unit {0}
Devuelto (pide_wait nombre pcb) = Unit {0}
Devuelto (pide_signal nombre pcb) = atendido pcb.status ≡ true

creados_una : (p n : ℕ) → creados (λ x. x == p) n ≤ 1
creados_una p n = (creados_hasta p n).0
  where
    creados_hasta :
        (p n : ℕ) → (creados (λ x. x == p) n ≤ 1) × (n ≤ p → creados (λ x. x == p) n ≡ 0)
    creados_hasta p zero = (omega arith, λ _. refl)
    creados_hasta p (suc n) =
        let (one, none_yet) = creados_hasta p n in
        (ground (arith, one, none_yet), λ le. ground (arith, none_yet))

-- Nobody has one process in the hands twice.
pub distintos : {k : Kernel} (q p : ℕ) {h : List ℕ} → IsConsistent (q ∷ p ∷ h) k → (q == p) ≡ false
distintos {k} q p c = ground (arith, c.cuenta (λ x. x == p), creados_una p k.next_pid)

pub guardar_otro :
    (pcbs : ℕ → Pcb) (q p : ℕ) (pcb : Pcb) → (q == p) ≡ false → guardar pcbs q pcb p ≡ pcbs p
guardar_otro pcbs q p pcb e = ground (arith, e)

estado-a_ready :
    (a : Ajustes) (k : Kernel) (q p : ℕ) → (q == p) ≡ false → estado (a_ready a k q) p ≡ estado k p
unfolding a_ready
estado-a_ready a k q p e = ap (λ x. x.status) (guardar_otro k.pcbs q p _ e)

estado-sumar :
    (a : Ajustes) (k : Kernel) (nombre : List ℕ) (n : ℤ) (w : List ℕ) (p : ℕ) {h : List ℕ}
    → IsConsistent (p ∷ h) k
    → get_text nombre k.dict_recursos ≡ some (record { cant_instancias = n; queue_waiting = w })
    → estado (sumar_instancia a k nombre (record { cant_instancias = n; queue_waiting = w })) p
      ≡ estado k p
unfolding sumar_instancia
estado-sumar a k nombre n [] p c e = refl
estado-sumar a k nombre n (q ∷ qs) p {h} c e =
    let valid = Todos-get_text IsRecurso nombre _ k.dict_recursos c.recursos e in
    let held =
      recurso-IsConsistent k nombre _ _ {h' = q ∷ p ∷ h} c e (IsRecurso-mas_uno n q qs valid)
        (λ f. omega arith) in
    estado-a_ready a _ q p (distintos q p held)

atender_io-Sigue :
    (k : Kernel) (io : Io) (nombre : List ℕ) (p : ℕ) (o : Option IoClient) {h : List ℕ}
    → IsConsistent (p ∷ h) k
    → get_text nombre k.dict_io_clients ≡ o
    → Sigue h p (atender_io k io nombre p o)
unfolding atender_io
atender_io-Sigue k io nombre p none c e =
    inl (otro_store k _ c, ap (λ x. atendido x.status) (guardar_eq k.pcbs p _))
atender_io-Sigue k io nombre p (some client) c e = bloquear_io-Sigue k client io nombre p c e

atender_wait-Sigue :
    (k : Kernel) (nombre : List ℕ) (p : ℕ) (o : Option Recurso) {h : List ℕ}
    → IsConsistent (p ∷ h) k
    → get_text nombre k.dict_recursos ≡ o
    → Sigue h p (atender_wait k nombre p o)
unfolding atender_wait
atender_wait-Sigue k nombre p none c e =
    inl (otro_store k _ c, ap (λ x. atendido x.status) (guardar_eq k.pcbs p _))
atender_wait-Sigue k nombre p (some r) c e =
    pedir_con k r.cant_instancias r.queue_waiting nombre p c e

atender_signal-Sigue :
    (a : Ajustes) (k : Kernel) (nombre : List ℕ) (p : ℕ) (o : Option Recurso) {h : List ℕ}
    → IsConsistent (p ∷ h) k
    → get_text nombre k.dict_recursos ≡ o
    → atendido (estado k p) ≡ true
    → Sigue h p (atender_signal a k nombre p o)
unfolding atender_signal
atender_signal-Sigue a k nombre p none c e ok =
    inl (otro_store k _ c, ap (λ x. atendido x.status) (guardar_eq k.pcbs p _))
atender_signal-Sigue a k nombre p (some r) {h} c e ok =
    let c' =
      otro_store k
        (guardar k.pcbs p
          (record (k.pcbs p) { recursos = sin_recurso a (k.pcbs p).recursos nombre }))
        c in
    inl (
      sumar_instancia-IsConsistent a _ nombre r c' e,
      ap atendido (
            estado-sumar a _ nombre r.cant_instancias r.queue_waiting p {h = h} c' e
            ∙ ap (λ x. x.status) (guardar_eq k.pcbs p _))
          ∙ ok,
    )

pub esperar_cpu-Sigue :
    (a : Ajustes) (k : Kernel) (l : Llegada) {h : List ℕ}
    → IsConsistent ((pcb_de l).pid ∷ h) k
    → Devuelto l
    → Sigue h (pcb_de l).pid (esperar_cpu a k l)
unfolding esperar_cpu
esperar_cpu-Sigue a k (devuelve pcb) c ok =
    inl (otro_store k _ c, ap (λ x. atendido x.status) (guardar_eq k.pcbs pcb.pid pcb) ∙ ok)
esperar_cpu-Sigue a k (pide_io io nombre pcb) c ok =
    atender_io-Sigue _ io nombre pcb.pid _ (otro_store k (guardar k.pcbs pcb.pid pcb) c) refl
esperar_cpu-Sigue a k (pide_wait nombre pcb) c ok =
    atender_wait-Sigue _ nombre pcb.pid _ (otro_store k (guardar k.pcbs pcb.pid pcb) c) refl
esperar_cpu-Sigue a k (pide_signal nombre pcb) {h} c ok =
    atender_signal-Sigue a _ nombre pcb.pid _ (otro_store k (guardar k.pcbs pcb.pid pcb) c) refl
      (ap (λ x. atendido x.status) (guardar_eq k.pcbs pcb.pid pcb) ∙ ok)

segun_estado-IsConsistent :
    (a : Ajustes) (k : Kernel) (p : ℕ) (s : PidStatus) {h : List ℕ}
    → IsConsistent (p ∷ h) k
    → atendido s ≡ true
    → IsConsistent h (segun_estado a k p s)
unfolding segun_estado
segun_estado-IsConsistent a k p PidStatus.terminated c ok =
    finalizar-IsConsistent _ p (otro_store k (con_estado k.pcbs p PidStatus.running) c)
segun_estado-IsConsistent a k p PidStatus.terminated_user c ok = finalizar-IsConsistent k p c
segun_estado-IsConsistent a k p PidStatus.error c ok = finalizar-IsConsistent k p c
segun_estado-IsConsistent a k p PidStatus.error_resource c ok = finalizar-IsConsistent k p c
segun_estado-IsConsistent a k p PidStatus.error_interface c ok = finalizar-IsConsistent k p c
segun_estado-IsConsistent a k p PidStatus.error_memory c ok =
    finalizar-IsConsistent _ p (otro_store k (con_estado k.pcbs p PidStatus.running) c)
segun_estado-IsConsistent a k p PidStatus.running c ok = a_ready-IsConsistent a k p c
segun_estado-IsConsistent a k p PidStatus.running_quantum c ok = record {
  cuenta = λ f. omega (arith, c.cuenta f, cuantos_push f k.queue_ready p);
  plazas = omega (arith, c.plazas, cuantos_push siempre k.queue_ready p);
  listos = omega (arith, c.listos, length_push k.queue_ready p);
  nuevos = c.nuevos;
  recursos = c.recursos;
  clientes = c.clientes;
}
segun_estado-IsConsistent a k p PidStatus.running_signal c ok = record {
  cuenta = λ f. omega (arith, c.cuenta f, cuantos_push f k.queue_priority_ready p);
  plazas = omega (arith, c.plazas, cuantos_push siempre k.queue_priority_ready p);
  listos = omega (arith, c.listos, length_push k.queue_priority_ready p);
  nuevos = c.nuevos;
  recursos = c.recursos;
  clientes = c.clientes;
}
segun_estado-IsConsistent a k p _ c ok = cc

segun_estado-bloqueado :
    (a : Ajustes) (k : Kernel) (p : ℕ) (s : PidStatus)
    → bloqueado s ≡ true
    → segun_estado a k p s ≡ k
unfolding segun_estado
segun_estado-bloqueado a k p PidStatus.blocked_io ok = refl
segun_estado-bloqueado a k p PidStatus.blocked_wait ok = refl
segun_estado-bloqueado a k p _ ok = cc

pub estado-ajustar :
    (a : Ajustes) (k : Kernel) (p used : ℕ) → estado (ajustar_quantum a k p used) p ≡ estado k p
estado-ajustar a k p used = elim (Bool-cases a.hay_priority) [
  | inl vrr ↦ rw (vrr) (ap (λ x. x.status) (guardar_eq k.pcbs p _))
  | inr other ↦ rw (other) refl
]

pub ajustar_otros :
    (a : Ajustes) (k : Kernel) (p used : ℕ)
    → record (ajustar_quantum a k p used) { pcbs = k.pcbs } ≡ k
ajustar_otros a k p used = elim (Bool-cases a.hay_priority) [
  | inl vrr ↦ rw (vrr) refl
  | inr other ↦ rw (other) refl
]

ajustar-IsConsistent :
    (a : Ajustes) (k : Kernel) (p used : ℕ) {h : List ℕ}
    → IsConsistent h k
    → IsConsistent h (ajustar_quantum a k p used)
ajustar-IsConsistent a k p used c = elim (Bool-cases a.hay_priority) [
  | inl vrr ↦ rw (vrr) (otro_store k _ c)
  | inr other ↦ rw (other) c
]

-- Only the thread of the quantum and the process on the CPU changed.
pub otro_turno :
    {h : List ℕ} (k : Kernel) (r t : Option ℕ)
    → IsConsistent h k
    → IsConsistent h (record k { running_pid = r; q_thread = t })
otro_turno k r t c = record {
  cuenta = c.cuenta;
  plazas = c.plazas;
  listos = c.listos;
  nuevos = c.nuevos;
  recursos = c.recursos;
  clientes = c.clientes;
}

pub corto_main-IsConsistent :
    (a : Ajustes) (k : Kernel) (l : Llegada) (used : ℕ) {h : List ℕ}
    → IsConsistent ((pcb_de l).pid ∷ h) k
    → Devuelto l
    → IsConsistent h (corto_main a k l used)
unfolding corto_main resolver
corto_main-IsConsistent a k l used {h} c ok =
    let p = (pcb_de l).pid in
    let k0 = esperar_cpu a k l in
    let k1 = ajustar_quantum a k0 p used in
    elim (esperar_cpu-Sigue a k l c ok) [
      | inl (held, goes) ↦ otro_turno _ none _ (
          segun_estado-IsConsistent a _ p (estado k1 p)
            (otro_turno k1 k1.running_pid _ (ajustar-IsConsistent a k0 p used held))
            (ap atendido (estado-ajustar a k0 p used) ∙ goes))
      | inr (left, waits) ↦ otro_turno _ none _ (
          subst (λ x. IsConsistent h x)
            (sym (
              segun_estado-bloqueado a _ p (estado k1 p)
                (ap bloqueado (estado-ajustar a k0 p used) ∙ waits)))
            (otro_turno k1 k1.running_pid _ (ajustar-IsConsistent a k0 p used left)))
    ]
