-- ===== src/Kernel/Errores.antt =====
-- kernel/src/corto_plazo.c: a process that the CPU gives back and that has to end.
use so_project_c.Common.{
  ℕ, suc, ◌≡◌, refl, ◌∙◌, ap, Bool, true, false, none, [], ◌∷◌, ◌++◌, inl, inr, Bool-cases,
  if◌then◌else◌, ◌==◌, Option,
}
use mathlib.Core.Path.{subst, sym}
use so_project_c.Common.Text.{get_text}
use so_project_c.Protocol.Codes.{PidStatus}
use so_project_c.Protocol.Pcb.{Pcb}
use so_project_c.Kernel.State.{guardar, Ajustes, Kernel, finalizar_proceso, con_estado}
use so_project_c.Kernel.Corto.{
  Llegada, devuelve, pide_io, pide_wait, pide_signal, pcb_de, esperar_cpu, atender_io, atender_wait,
  atender_signal, segun_estado, cancelar_quantum, ajustar_quantum, resolver, corto_main,
  cancelar_quantum,
}
use so_project_c.Kernel.Vuelta.{estado, guardar_eq, guardar_otro, estado-ajustar}

-- The states that end a process.
abbrev finaliza : PidStatus → Bool
finaliza PidStatus.terminated = true
finaliza PidStatus.terminated_user = true
finaliza PidStatus.error = true
finaliza PidStatus.error_resource = true
finaliza PidStatus.error_interface = true
finaliza PidStatus.error_memory = true
finaliza _ = false

-- What the process did wrong: it asked for something that is not there, or the CPU says that it has to end.
abbrev pub Falla : Kernel → Llegada → Type 0
Falla k (devuelve pcb) = finaliza pcb.status ≡ true
Falla k (pide_io io nombre pcb) = get_text nombre k.dict_io_clients ≡ none
Falla k (pide_wait nombre pcb) = get_text nombre k.dict_recursos ≡ none
Falla k (pide_signal nombre pcb) = get_text nombre k.dict_recursos ≡ none

-- The blocks of the other processes.
abbrev Otros : ℕ → (ℕ → Pcb) → (ℕ → Pcb) → Type 0
Otros p pcbs pcbs' = (q : ℕ) → (p == q) ≡ false → pcbs' q ≡ pcbs q

-- The process ends, its place of the degree is free again, the CPU is idle and its quantum no longer counted; nothing
-- else changes.
pub record Termina (a : Ajustes) (k k' : Kernel) (p : ℕ) : Type 0 where
  pub final : k' ≡ record k {
    pcbs = k'.pcbs;
    salida = k.salida ++ (p ∷ []);
    cont_multi = suc k.cont_multi;
    running_pid = none;
    q_thread = if a.hay_quantum then none else k.q_thread;
  }
  pub terminado : estado k' p ≡ PidStatus.terminated
  pub otros : Otros p k.pcbs k'.pcbs

-- Only the store changed, and in it only the process.
record Cambiado (p : ℕ) (k k' : Kernel) : Type 0 where
  store : k' ≡ record k { pcbs = k'.pcbs }
  aparte : Otros p k.pcbs k'.pcbs

guardar-Cambiado :
    (p : ℕ) (k k' : Kernel) (pcb : Pcb)
    → Cambiado p k k'
    → Cambiado p k (record k' { pcbs = guardar k'.pcbs p pcb })
guardar-Cambiado p k k' pcb c = record {
  store = ap {A = Kernel} (λ x. record x { pcbs = guardar k'.pcbs p pcb }) c.store;
  aparte = λ q e. guardar_otro k'.pcbs p q pcb e ∙ c.aparte q e;
}

Cambiado-refl : (p : ℕ) (k : Kernel) → Cambiado p k k
Cambiado-refl p k = record { store = refl; aparte = λ q e. refl }

ajustar_quantum-Cambiado :
    (a : Ajustes) (p used : ℕ) (k k' : Kernel)
    → Cambiado p k k'
    → Cambiado p k (ajustar_quantum a k' p used)
ajustar_quantum-Cambiado a p used k k' c = elim (Bool-cases a.hay_priority) [
  | inl vrr ↦ rw (vrr) (guardar-Cambiado p k k' _ c)
  | inr other ↦ rw (other) c
]

-- What the tests on the state do with a process that has to end.
segun_estado-finaliza :
    (a : Ajustes) (k : Kernel) (p : ℕ) (s : PidStatus)
    → finaliza s ≡ true
    → (k1 : Kernel) × Cambiado p k k1 × (segun_estado a k p s ≡ finalizar_proceso k1 p)
unfolding segun_estado
segun_estado-finaliza a k p PidStatus.terminated e =
    (_, guardar-Cambiado p k k _ (Cambiado-refl p k), refl)
segun_estado-finaliza a k p PidStatus.error_memory e =
    (_, guardar-Cambiado p k k _ (Cambiado-refl p k), refl)
segun_estado-finaliza a k p PidStatus.terminated_user e = (k, Cambiado-refl p k, refl)
segun_estado-finaliza a k p PidStatus.error e = (k, Cambiado-refl p k, refl)
segun_estado-finaliza a k p PidStatus.error_resource e = (k, Cambiado-refl p k, refl)
segun_estado-finaliza a k p PidStatus.error_interface e = (k, Cambiado-refl p k, refl)
segun_estado-finaliza a k p _ e = cc

-- Such a process was not put off by its quantum.
finaliza-cancelar : (s : PidStatus) (t : Option ℕ) → finaliza s ≡ true → cancelar_quantum s t ≡ none
finaliza-cancelar PidStatus.running_quantum t e = cc
finaliza-cancelar _ t e = refl

finalizar-Termina :
    (a : Ajustes) (k k1 : Kernel) (p : ℕ)
    → Cambiado p (record k { q_thread = if a.hay_quantum then none else k.q_thread }) k1
    → Termina a k (record (finalizar_proceso k1 p) { running_pid = none }) p
unfolding finalizar_proceso
finalizar-Termina a k k1 p c = record {
  final =
      ap {A = Kernel}
        (λ x. record x {
          pcbs = con_estado k1.pcbs p PidStatus.terminated;
          salida = x.salida ++ (p ∷ []);
          cont_multi = suc x.cont_multi;
          running_pid = none;
        })
        c.store;
  terminado = ap (λ x. x.status) (guardar_eq k1.pcbs p _);
  otros = λ q e. guardar_otro k1.pcbs p q _ e ∙ c.aparte q e;
}

sin_quantum :
    (a : Ajustes) (p : ℕ) (k k1 k2 : Kernel) (s : PidStatus)
    → finaliza s ≡ true
    → Cambiado p k k1
    → Cambiado p
        (record k1 {
          q_thread = if a.hay_quantum then cancelar_quantum s k1.q_thread else k1.q_thread;
        })
        k2
    → Cambiado p (record k { q_thread = if a.hay_quantum then none else k.q_thread }) k2
sin_quantum a p k k1 k2 s e c1 c2 = record {
  store =
      c2.store
      ∙ ap (λ t. record k1 { q_thread = if a.hay_quantum then t else k1.q_thread; pcbs = k2.pcbs })
          (finaliza-cancelar s k1.q_thread e)
      ∙ ap {A = Kernel}
          (λ x. record x { q_thread = if a.hay_quantum then none else x.q_thread; pcbs = k2.pcbs })
          c1.store;
  aparte = λ q other. c2.aparte q other ∙ c1.aparte q other;
}

resolver-Termina :
    (a : Ajustes) (k k0 : Kernel) (p used : ℕ)
    → Cambiado p k k0
    → finaliza (estado k0 p) ≡ true
    → Termina a k (resolver a k0 p used) p
unfolding resolver
resolver-Termina a k k0 p used c e =
    let k1 = ajustar_quantum a k0 p used in
    let s = estado k1 p in
    let ends = ap finaliza (estado-ajustar a k0 p used) ∙ e in
    let (k2, c2, same) =
      segun_estado-finaliza a
        (record k1 {
          q_thread = if a.hay_quantum then cancelar_quantum s k1.q_thread else k1.q_thread;
        })
        p s ends in
    subst (λ x. Termina a k (record x { running_pid = none }) p) (sym same)
      (finalizar-Termina a k k2 p
        (sin_quantum a p k k1 k2 s ends (ajustar_quantum-Cambiado a p used k k0 c) c2))

-- The store with the block that came back, and the state of what is not there.
sin_nombre :
    (k : Kernel) (pcb : Pcb) (s : PidStatus)
    → finaliza s ≡ true
    → let pcbs = con_estado (guardar k.pcbs pcb.pid pcb) pcb.pid s in
      Cambiado pcb.pid k (record k { pcbs = pcbs }) × (finaliza (pcbs pcb.pid).status ≡ true)
sin_nombre k pcb s e =
    let p = pcb.pid in
    (
      guardar-Cambiado p k (record k { pcbs = guardar k.pcbs p pcb }) _
          (guardar-Cambiado p k k pcb (Cambiado-refl p k)),
      ap (λ x. finaliza x.status) (guardar_eq (guardar k.pcbs p pcb) p _) ∙ e,
    )

fallo_estado :
    (a : Ajustes) (k : Kernel) (l : Llegada)
    → Falla k l
    → Cambiado (pcb_de l).pid k (esperar_cpu a k l)
      × (finaliza (estado (esperar_cpu a k l) (pcb_de l).pid) ≡ true)
unfolding esperar_cpu atender_io atender_wait atender_signal
fallo_estado a k (devuelve pcb) e = (
  guardar-Cambiado pcb.pid k k pcb (Cambiado-refl pcb.pid k),
  ap (λ x. finaliza x.status) (guardar_eq k.pcbs pcb.pid pcb) ∙ e,
)
fallo_estado a k (pide_io io nombre pcb) e =
    rw (e) (sin_nombre k pcb PidStatus.error_interface refl)
fallo_estado a k (pide_wait nombre pcb) e = rw (e) (sin_nombre k pcb PidStatus.error_resource refl)
fallo_estado a k (pide_signal nombre pcb) e =
    rw (e) (sin_nombre k pcb PidStatus.error_resource refl)

-- A process that asks for an interface or a resource that is not there, or that the CPU gives back
-- in a state of error or of an end, goes to the threads that end a process, with the state
-- TERMINATED. Its place of the degree is free again, no process is on the CPU, and the thread of
-- its quantum is cancelled; nothing else of the kernel changes, nor the block of another process.
pub corto_main-Termina :
    (a : Ajustes) (k : Kernel) (l : Llegada) (used : ℕ)
    → Falla k l
    → Termina a k (corto_main a k l used) (pcb_de l).pid
unfolding corto_main
corto_main-Termina a k l used e =
    let (c, ends) = fallo_estado a k l e in
    resolver-Termina a k (esperar_cpu a k l) (pcb_de l).pid used c ends
