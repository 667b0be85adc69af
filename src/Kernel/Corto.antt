-- ===== src/Kernel/Corto.antt =====
-- kernel/src/corto_plazo.c: the short-term scheduler.
use so_project_c.Common.{
  ℕ, zero, suc, ◌-◌, true, false, ◌||◌, not, Option, none, some, List, [], ◌∷◌, ◌++◌, ◌==◌, leb,
  if◌then◌else◌,
}
use so_project_c.Common.Text.{get_text, put_text}
use so_project_c.Protocol.Codes.{PidStatus}
use so_project_c.Protocol.Pcb.{Pcb}
use so_project_c.Protocol.Io.{Io}
use so_project_c.Kernel.State.{
  pos, negsuc, mas_uno, menos_uno, Recurso, IoClient, Ajustes, Kernel, guardar, con_estado, a_ready,
  finalizar_proceso,
}

-- The process that runs next, of the two queues; the NULL of an empty queue is `none`.
unfoldable pub elegir_de : Kernel → List ℕ → List ℕ → Option (ℕ × Kernel)
elegir_de k (p ∷ ps) ready = some (p, record k { queue_priority_ready = ps })
elegir_de k [] (p ∷ ps) = some (p, record k { queue_ready = ps })
elegir_de k [] [] = none

unfoldable pub elegir : Kernel → Option (ℕ × Kernel)
unfolding elegir_de
elegir k = elegir_de k k.queue_priority_ready k.queue_ready

-- `sem_wait(&hay_ready)` of a scheduler that has no process on the CPU; `none` while it waits.
unfoldable pub tomar_ready : Kernel → Option Kernel
tomar_ready k = elim k.running_pid [
  | some p ↦ none
  | none ↦ elim k.tiene_ready [
    | suc n ↦ none
    | zero ↦ elim k.hay_ready [
      | zero ↦ none
      | suc n ↦ some (record k { hay_ready = n; tiene_ready = 1 })
    ]
  ]
]

-- With the post taken, from `check_plani` to the start of the quantum, with the block that goes to the CPU; `none`
-- while it waits, and where it follows the NULL of an empty queue.
unfoldable pub despachar : Ajustes → Kernel → Option (Kernel × Pcb)
unfolding elegir
despachar a k = elim k.is_stopped [
  | true ↦ none
  | false ↦ elim k.tiene_ready [
    | zero ↦ none
    | suc n ↦ elim (elegir k) [
      | none ↦ none
      | some (p, k') ↦
          let pcbs = con_estado k'.pcbs p PidStatus.running in
          some (
            record k' {
              tiene_ready = n;
              pcbs = pcbs;
              running_pid = some p;
              q_thread = if a.hay_quantum then some p else k'.q_thread;
            },
            pcbs p,
          )
    ]
  ]
]

-- What the CPU sends back on the dispatch connection, taken apart: a block, in front of it what the process asks for.
pub data Llegada : Type 0 where
  devuelve : Pcb → Llegada
  pide_io : Io → List ℕ → Pcb → Llegada
  pide_wait : List ℕ → Pcb → Llegada
  pide_signal : List ℕ → Pcb → Llegada

abbrev pub pcb_de : Llegada → Pcb
pcb_de (devuelve pcb) = pcb
pcb_de (pide_io io nombre pcb) = pcb
pcb_de (pide_wait nombre pcb) = pcb
pcb_de (pide_signal nombre pcb) = pcb

-- An instance more, which the first process that waits gets; `corto_main` and the end of a process do the same.
unfoldable pub sumar_instancia : Ajustes → Kernel → List ℕ → Recurso → Kernel
sumar_instancia a k nombre r = elim r.queue_waiting [
  | [] ↦ record k {
    dict_recursos =
        put_text nombre (record r { cant_instancias = mas_uno r.cant_instancias }) k.dict_recursos;
  }
  | p ∷ ps ↦
      let r' = record r { cant_instancias = mas_uno r.cant_instancias; queue_waiting = ps } in
      a_ready a (record k { dict_recursos = put_text nombre r' k.dict_recursos }) p
]

unfoldable pub bloquear_io : Kernel → IoClient → Io → List ℕ → ℕ → Kernel
bloquear_io k client io nombre p =
    let client' = record client {
      queue_io = client.queue_io ++ ((p, io) ∷ []);
      hay_io = suc client.hay_io;
    } in
    record k {
      pcbs = con_estado k.pcbs p PidStatus.blocked_io;
      dict_io_clients = put_text nombre client' k.dict_io_clients;
    }

unfoldable pub pedir_recurso : Kernel → Recurso → List ℕ → ℕ → Kernel
pedir_recurso k r nombre p = elim (menos_uno r.cant_instancias) [
  | pos n ↦ record k {
    pcbs = guardar k.pcbs p (record (k.pcbs p) {
      status = PidStatus.running;
      recursos = (k.pcbs p).recursos ++ nombre ++ (b',' ∷ []);
    });
    dict_recursos = put_text nombre (record r { cant_instancias = pos n }) k.dict_recursos;
  }
  | negsuc n ↦ record k {
    pcbs = con_estado k.pcbs p PidStatus.blocked_wait;
    dict_recursos =
        put_text nombre
          (record { cant_instancias = negsuc n; queue_waiting = r.queue_waiting ++ (p ∷ []) })
          k.dict_recursos;
  }
]

-- The text of the resources less the one that is given back.
abbrev pub sin_recurso : Ajustes → List ℕ → List ℕ → List ℕ
sin_recurso a recursos nombre =
    if a.string_contains recursos nombre
    then a.string_replace recursos (nombre ++ (b',' ∷ [])) []
    else recursos

-- The three requests, by what the dictionary has under the name.
unfoldable pub atender_io : Kernel → Io → List ℕ → ℕ → Option IoClient → Kernel
unfolding bloquear_io
atender_io k io nombre p none = record k { pcbs = con_estado k.pcbs p PidStatus.error_interface }
atender_io k io nombre p (some client) = bloquear_io k client io nombre p

unfoldable pub atender_wait : Kernel → List ℕ → ℕ → Option Recurso → Kernel
unfolding pedir_recurso
atender_wait k nombre p none = record k { pcbs = con_estado k.pcbs p PidStatus.error_resource }
atender_wait k nombre p (some r) = pedir_recurso k r nombre p

unfoldable pub atender_signal : Ajustes → Kernel → List ℕ → ℕ → Option Recurso → Kernel
unfolding sumar_instancia
atender_signal a k nombre p none = record k { pcbs = con_estado k.pcbs p PidStatus.error_resource }
atender_signal a k nombre p (some r) =
    let pcb = record (k.pcbs p) { recursos = sin_recurso a (k.pcbs p).recursos nombre } in
    sumar_instancia a (record k { pcbs = guardar k.pcbs p pcb }) nombre r

unfoldable pub esperar_cpu : Ajustes → Kernel → Llegada → Kernel
unfolding get_text atender_io atender_wait atender_signal
esperar_cpu a k (devuelve pcb) = record k { pcbs = guardar k.pcbs pcb.pid pcb }
esperar_cpu a k (pide_io io nombre pcb) =
    atender_io (record k { pcbs = guardar k.pcbs pcb.pid pcb }) io nombre pcb.pid
      (get_text nombre k.dict_io_clients)
esperar_cpu a k (pide_wait nombre pcb) =
    atender_wait (record k { pcbs = guardar k.pcbs pcb.pid pcb }) nombre pcb.pid
      (get_text nombre k.dict_recursos)
esperar_cpu a k (pide_signal nombre pcb) =
    atender_signal a (record k { pcbs = guardar k.pcbs pcb.pid pcb }) nombre pcb.pid
      (get_text nombre k.dict_recursos)

-- The quantum of a process that leaves the CPU after `used` milliseconds.
unfoldable pub nuevo_quantum : ℕ → ℕ → ℕ → ℕ
nuevo_quantum quantum actual used =
    if not (actual == quantum) || leb actual used then quantum else quantum - used

abbrev pub ajustar_quantum : Ajustes → Kernel → ℕ → ℕ → Kernel
ajustar_quantum a k p used =
    if a.hay_priority
    then record k {
      pcbs =
          guardar k.pcbs p
            (record (k.pcbs p) { quantum = nuevo_quantum a.quantum (k.pcbs p).quantum used });
    }
    else k

-- `pthread_cancel` of the thread of the quantum, but not for a process that the quantum put off.
abbrev pub cancelar_quantum : PidStatus → Option ℕ → Option ℕ
cancelar_quantum PidStatus.running_quantum t = t
cancelar_quantum _ t = none

-- The chain of tests of `corto_main`: a branch leaves a state that no later test asks for.
unfoldable pub segun_estado : Ajustes → Kernel → ℕ → PidStatus → Kernel
unfolding a_ready finalizar_proceso
segun_estado a k p PidStatus.terminated =
    finalizar_proceso (record k { pcbs = con_estado k.pcbs p PidStatus.running }) p
segun_estado a k p PidStatus.terminated_user = finalizar_proceso k p
segun_estado a k p PidStatus.error = finalizar_proceso k p
segun_estado a k p PidStatus.error_resource = finalizar_proceso k p
segun_estado a k p PidStatus.error_interface = finalizar_proceso k p
segun_estado a k p PidStatus.error_memory =
    finalizar_proceso (record k { pcbs = con_estado k.pcbs p PidStatus.running }) p
segun_estado a k p PidStatus.running = a_ready a k p
segun_estado a k p PidStatus.running_quantum = record k {
  pcbs = con_estado k.pcbs p PidStatus.ready;
  queue_ready = k.queue_ready ++ (p ∷ []);
  hay_ready = suc k.hay_ready;
}
segun_estado a k p PidStatus.running_signal = record k {
  pcbs = con_estado k.pcbs p PidStatus.ready;
  queue_priority_ready = k.queue_priority_ready ++ (p ∷ []);
  hay_ready = suc k.hay_ready;
}
segun_estado a k p _ = k

-- What `corto_main` does with a process that the CPU gave back after `used` milliseconds, to the end of the round.
unfoldable pub resolver : Ajustes → Kernel → ℕ → ℕ → Kernel
unfolding nuevo_quantum segun_estado
resolver a k p used =
    let k1 = ajustar_quantum a k p used in
    let status = (k1.pcbs p).status in
    let k2 =
      segun_estado a
        (record k1 {
          q_thread = if a.hay_quantum then cancelar_quantum status k1.q_thread else k1.q_thread;
        })
        p status in
    record k2 { running_pid = none }

unfoldable pub corto_main : Ajustes → Kernel → Llegada → ℕ → Kernel
unfolding esperar_cpu resolver
corto_main a k llegada used = resolver a (esperar_cpu a k llegada) (pcb_de llegada).pid used
