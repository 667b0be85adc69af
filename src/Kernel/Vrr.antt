-- ===== src/Kernel/Vrr.antt =====
-- kernel/src/corto_plazo.c under virtual round robin: what is left of a quantum, and the queue that goes with it.
use so_project_c.Common.{
  ℕ, suc, ◌-◌, ◌≤◌, ◌<◌, ◌≡◌, refl, sym, ◌∙◌, ap, true, ◌&&◌, Option, some, List, [], ◌∷◌, ◌++◌,
  arith, if◌then◌else◌, ltb, ◌==◌,
}
use mathlib.Core.Path.{subst}
use so_project_c.Common.Text.{get_text}
use so_project_c.Protocol.Codes.{PidStatus}
use so_project_c.Protocol.Pcb.{Pcb}
use so_project_c.Kernel.State.{pos, Recurso, Ajustes, Kernel, guardar, a_ready}
use so_project_c.Kernel.Corto.{
  pide_wait, esperar_cpu, atender_wait, pedir_recurso, segun_estado, nuevo_quantum, ajustar_quantum,
  cancelar_quantum, resolver, corto_main,
}
use so_project_c.Kernel.Vuelta.{estado, guardar_eq, ajustar_otros, estado-ajustar}

-- The process `p` goes to the end of the queue of its quantum `q`, which is what it has left.
pub record Encolado (a : Ajustes) (k k' : Kernel) (p q : ℕ) : Type 0 where
  pub con_quantum : (k'.pcbs p).quantum ≡ q
  pub prioridad :
      k'.queue_priority_ready
      ≡ (if ltb q a.quantum then k.queue_priority_ready ++ (p ∷ []) else k.queue_priority_ready)
  pub comun :
      k'.queue_ready ≡ (if ltb q a.quantum then k.queue_ready else k.queue_ready ++ (p ∷ []))

a_ready-Encolado :
    (a : Ajustes) (k : Kernel) (p : ℕ) {q : ℕ}
    → (k.pcbs p).quantum ≡ q
    → Encolado a k (a_ready a k p) p q
unfolding a_ready
a_ready-Encolado a k p {q} e = record {
  con_quantum = ap (λ x. x.quantum) (guardar_eq k.pcbs p _) ∙ e;
  prioridad =
      ap
        (λ x.
          if ltb x a.quantum then k.queue_priority_ready ++ (p ∷ []) else k.queue_priority_ready)
        e;
  comun = ap (λ x. if ltb x a.quantum then k.queue_ready else k.queue_ready ++ (p ∷ [])) e;
}

-- What a process has left that comes back with the quantum `actual` and ran for `used` milliseconds.
pub resto : ℕ → ℕ → ℕ → ℕ
resto quantum actual used =
    if (actual == quantum) && ltb used quantum then quantum - used else quantum

nuevo_quantum-resto :
    (quantum actual used : ℕ) → nuevo_quantum quantum actual used ≡ resto quantum actual used
unfolding nuevo_quantum resto
nuevo_quantum-resto quantum actual used = ground arith

resto-bounds :
    (quantum actual used : ℕ)
    → 0 < quantum
    → (0 < resto quantum actual used) × (resto quantum actual used ≤ quantum)
unfolding resto
resto-bounds quantum actual used h = ground arith

segun_running-Encolado :
    (a : Ajustes) (k : Kernel) (p : ℕ) (s : PidStatus) {q : ℕ}
    → s ≡ PidStatus.running
    → (k.pcbs p).quantum ≡ q
    → Encolado a k (segun_estado a k p s) p q
unfolding segun_estado
segun_running-Encolado a k p s {q} e h =
    subst (λ x. Encolado a k (segun_estado a k p x) p q) (sym e) (a_ready-Encolado a k p h)

-- What it says of the start is only the two queues.
desde :
    (a : Ajustes) (k k0 k' : Kernel) (p q : ℕ)
    → k.queue_ready ≡ k0.queue_ready
    → k.queue_priority_ready ≡ k0.queue_priority_ready
    → Encolado a k k' p q
    → Encolado a k0 k' p q
desde a k k0 k' p q ready prio c = record {
  con_quantum = c.con_quantum;
  prioridad = c.prioridad ∙ ap (λ x. if ltb q a.quantum then x ++ (p ∷ []) else x) prio;
  comun = c.comun ∙ ap (λ x. if ltb q a.quantum then x else x ++ (p ∷ [])) ready;
}

quantum-ajustar :
    (a : Ajustes) (k : Kernel) (p used : ℕ)
    → a.hay_priority ≡ true
    → ((ajustar_quantum a k p used).pcbs p).quantum ≡ resto a.quantum (k.pcbs p).quantum used
quantum-ajustar a k p used vrr = rw (vrr) (
    ap (λ x. x.quantum) (guardar_eq k.pcbs p _)
    ∙ nuevo_quantum-resto a.quantum (k.pcbs p).quantum used)

resolver-Encolado :
    (a : Ajustes) (k : Kernel) (p used : ℕ) {q : ℕ}
    → a.hay_priority ≡ true
    → estado k p ≡ PidStatus.running
    → (k.pcbs p).quantum ≡ q
    → Encolado a k (resolver a k p used) p (resto a.quantum q used)
unfolding resolver
resolver-Encolado a k p used {q} vrr runs e =
    let k1 = ajustar_quantum a k p used in
    let t = if a.hay_quantum then cancelar_quantum (estado k1 p) k1.q_thread else k1.q_thread in
    let c =
      segun_running-Encolado a (record k1 { q_thread = t }) p (estado k1 p)
        (estado-ajustar a k p used ∙ runs)
        (quantum-ajustar a k p used vrr ∙ ap (λ x. resto a.quantum x used) e) in
    let same = ajustar_otros a k p used in
    let c' =
      desde a k1 k (resolver a k p used) p (resto a.quantum q used) (ap (λ x. x.queue_ready) same)
        (ap (λ x. x.queue_priority_ready) same)
        (record { con_quantum = c.con_quantum; prioridad = c.prioridad; comun = c.comun }) in
    c'

-- A WAIT that is granted leaves the queues and the quantum as they are, and the process running.
concede :
    (k : Kernel) (nombre : List ℕ) (p : ℕ) (n : ℕ) (w : List ℕ) (o : Option Recurso)
    → o ≡ some (record { cant_instancias = pos (suc n); queue_waiting = w })
    → (estado (atender_wait k nombre p o) p ≡ PidStatus.running)
      × (((atender_wait k nombre p o).pcbs p).quantum ≡ (k.pcbs p).quantum)
      × ((atender_wait k nombre p o).queue_ready ≡ k.queue_ready)
      × ((atender_wait k nombre p o).queue_priority_ready ≡ k.queue_priority_ready)
unfolding atender_wait pedir_recurso
concede k nombre p n w o e = rw (e) (
  ap (λ x. x.status) (guardar_eq k.pcbs p _),
  ap (λ x. x.quantum) (guardar_eq k.pcbs p _),
  refl,
  refl,
)

-- Under virtual round robin, with a positive quantum, a process whose WAIT is granted goes back to the end of a ready
-- queue with a quantum that is positive and at most the one of the configuration: if it came with the whole quantum and
-- used less, it has the rest of it, and goes to the priority queue when it used any; in any other case it has
-- the whole quantum again and goes to the common queue. The other ready processes stay in front of it.
pub corto_main-Encolado :
    (a : Ajustes) (k : Kernel) (nombre : List ℕ) (b : Pcb) (n : ℕ) (w : List ℕ) (used : ℕ)
    → a.hay_priority ≡ true
    → 0 < a.quantum
    → get_text nombre k.dict_recursos
      ≡ some (record { cant_instancias = pos (suc n); queue_waiting = w })
    → let q = resto a.quantum b.quantum used in
      Encolado a k (corto_main a k (pide_wait nombre b) used) b.pid q × (0 < q) × (q ≤ a.quantum)
unfolding corto_main esperar_cpu
corto_main-Encolado a k nombre b n w used vrr h e =
    let k0 = record k { pcbs = guardar k.pcbs b.pid b } in
    let k1 = atender_wait k0 nombre b.pid (get_text nombre k.dict_recursos) in
    let (runs, same_q, ready, prio) =
      concede k0 nombre b.pid n w (get_text nombre k.dict_recursos) e in
    let c =
      resolver-Encolado a k1 b.pid used vrr runs
        (same_q ∙ ap (λ x. x.quantum) (guardar_eq k.pcbs b.pid b)) in
    let (positive, most) = resto-bounds a.quantum b.quantum used h in
    (desde a k1 k (resolver a k1 b.pid used) b.pid _ ready prio c, positive, most)
