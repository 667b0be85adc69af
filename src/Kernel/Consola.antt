-- ===== src/Kernel/Consola.antt =====
-- kernel/src/consola.c: the commands that change the state of the kernel.
use so_project_c.Common.{
  ℕ, zero, suc, ◌+◌, ◌-◌, Bool, true, false, Option, none, some, List, [], ◌∷◌, ◌==◌, if◌then◌else◌,
  u32_mod,
}
use so_project_c.Common.Text.{get_text, put_text}
use so_project_c.Common.Counts.{mem}
use so_project_c.Protocol.Codes.{OpCode}
use so_project_c.Protocol.Io.{Io}
use so_project_c.Kernel.State.{
  Consola, mas_uno, Recurso, IoClient, Ajustes, Kernel, enviar_new, finalizar_proceso,
}
use so_project_c.Kernel.Largo.{quitar}
use so_project_c.Kernel.Interfaces.{pids_io}

-- What `iniciar_proceso` does with the answer of the memory.
unfoldable pub iniciar_proceso : Ajustes → Kernel → Option OpCode → Kernel
unfolding enviar_new
iniciar_proceso a k (some OpCode.init_pid_success) = enviar_new a k
iniciar_proceso a k _ = k

unfoldable pub detener_planificacion : Kernel → Kernel
detener_planificacion k = record k { is_stopped = true }

unfoldable pub iniciar_planificacion : Kernel → Kernel
iniciar_planificacion k = record k { is_stopped = false }

-- The posts of a higher degree are made at once, the waits of a lower one by a thread; `cont_multi` stays below the
-- greatest value of a semaphore.
unfoldable pub cambiar_multiprogramacion : Kernel → ℕ → Kernel
cambiar_multiprogramacion k new_multi = record k {
  multiprogramacion = new_multi;
  cont_multi = k.cont_multi + (new_multi - k.multiprogramacion);
  reducciones = k.reducciones + (k.multiprogramacion - new_multi);
}

-- One wait of the threads that lower the degree.
unfoldable pub multi_change_waits : Kernel → Option Kernel
multi_change_waits k = elim k.reducciones [
  | zero ↦ none
  | suc n ↦ elim k.cont_multi [
    | zero ↦ none
    | suc c ↦ some (record k { reducciones = n; cont_multi = c })
  ]
]

-- The search of `finalizar_pid` in the queues of the resources: the dictionary without the process.
unfoldable pub quitar_de_recursos : ℕ → List (List ℕ × Recurso) → Option (List (List ℕ × Recurso))
quitar_de_recursos p [] = none
quitar_de_recursos p ((nombre, r) ∷ d) =
    let rest = quitar_de_recursos p d in
    if mem p r.queue_waiting
    then some (
        (
          nombre,
          record {
            cant_instancias = mas_uno r.cant_instancias;
            queue_waiting = quitar p r.queue_waiting;
          },
        )
        ∷ d)
    else (elim rest [ none ↦ none | some d' ↦ some ((nombre, r) ∷ d') ])

abbrev pub quitar_io : ℕ → List (ℕ × Io) → List (ℕ × Io)
quitar_io p [] = []
quitar_io p ((x, io) ∷ ios) = if x == p then ios else (x, io) ∷ quitar_io p ios

-- The search in the queues of the interfaces; the process is then in the hands of the console.
unfoldable pub quitar_de_interfaces :
    ℕ → List (List ℕ × IoClient) → Option (List (List ℕ × IoClient))
quitar_de_interfaces p [] = none
quitar_de_interfaces p ((nombre, client) ∷ d) =
    let rest = quitar_de_interfaces p d in
    if mem p (pids_io client.queue_io)
    then some (
        (
          nombre,
          record client {
            queue_io = quitar_io p client.queue_io;
            salientes = p ∷ client.salientes;
          },
        )
        ∷ d)
    else (elim rest [ none ↦ none | some d' ↦ some ((nombre, client) ∷ d') ])

-- `(int) pid == running_pid`, which is -1 without a process on the CPU.
abbrev pub corre : Option ℕ → ℕ → Bool
corre none p = p == u32_mod - 1
corre (some q) p = p == q

-- The search goes on from one kind of queue to the next; each function is given what the search in its queues came to.
-- A process that is nowhere there is only reported to the user.
unfoldable pub en_interfaces : Kernel → ℕ → Option (List (List ℕ × IoClient)) → Kernel
unfolding finalizar_proceso
en_interfaces k p (some d) = record k { dict_io_clients = d; consola = Consola.espera_io }
en_interfaces k p none = k

unfoldable pub en_recursos : Kernel → ℕ → Option (List (List ℕ × Recurso)) → Kernel
unfolding finalizar_proceso quitar_de_interfaces en_interfaces
en_recursos k p (some d) = finalizar_proceso (record k { dict_recursos = d }) p
en_recursos k p none = en_interfaces k p (quitar_de_interfaces p k.dict_io_clients)

unfoldable pub en_prioridad : Kernel → ℕ → Bool → Kernel
unfolding finalizar_proceso quitar_de_recursos en_recursos
en_prioridad k p true =
    finalizar_proceso
      (record k {
        queue_priority_ready = quitar p k.queue_priority_ready;
        consola = Consola.espera_ready;
      })
      p
en_prioridad k p false = en_recursos k p (quitar_de_recursos p k.dict_recursos)

unfoldable pub en_ready : Kernel → ℕ → Bool → Kernel
unfolding finalizar_proceso en_prioridad
en_ready k p true =
    finalizar_proceso
      (record k { queue_ready = quitar p k.queue_ready; consola = Consola.espera_ready }) p
en_ready k p false = en_prioridad k p (mem p k.queue_priority_ready)

unfoldable pub en_cpu : Kernel → ℕ → Bool → Kernel
unfolding en_ready
en_cpu k p true = record k {
  interrupt_pid = some (OpCode.end_pid_user, p);
  hay_interrupt = suc k.hay_interrupt;
}
en_cpu k p false = en_ready k p (mem p k.queue_ready)

unfoldable pub finalizar_pid : Kernel → ℕ → Kernel
unfolding en_cpu
finalizar_pid k p = en_cpu k p (corre k.running_pid p)

-- `sem_wait(&hay_ready)` behind the end of a process that was ready.
unfoldable pub seguir_ready : Kernel → Consola → Option Kernel
seguir_ready k Consola.espera_ready = elim k.hay_ready [
  | zero ↦ none
  | suc n ↦ some (record k { hay_ready = n; consola = Consola.libre })
]
seguir_ready k _ = none

-- `sem_wait(&io_client->hay_io)`, and the end of the process behind it.
unfoldable pub seguir_io : Kernel → List ℕ → Consola → Option Kernel
unfolding get_text finalizar_proceso
seguir_io k nombre Consola.espera_io = elim (get_text nombre k.dict_io_clients) [
  | none ↦ none
  | some client ↦ elim client.hay_io [
    | zero ↦ none
    | suc n ↦ elim client.salientes [
      | [] ↦ none
      | p ∷ ps ↦
          let client' = record client { hay_io = n; salientes = ps } in
          some (
            finalizar_proceso
              (record k {
                dict_io_clients = put_text nombre client' k.dict_io_clients;
                consola = Consola.libre;
              })
              p)
    ]
  ]
]
seguir_io k nombre _ = none
