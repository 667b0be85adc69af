-- ===== src/Kernel/Hilos.antt =====
-- kernel/src: the kernel from its start on, under any interleaving of its threads. A wait on a counting semaphore is a
-- step of its own, and so is what a thread does from `check_plani`, or from an answer, to its next wait.
use so_project_c.Common.{
  ℕ, suc, ◌+◌, ◌-◌, ◌<◌, ◌≡◌, true, false, Option, none, some, List, [], u32_mod,
}
use so_project_c.Common.Text.{get_text}
use so_project_c.Common.Counts.{mem}
use so_project_c.Protocol.Codes.{OpCode}
use so_project_c.Protocol.Io.{Io}
use so_project_c.Protocol.Pcb.{Pcb}
use so_project_c.Kernel.State.{Consola, pos, Recurso, Ajustes, Kernel}
use so_project_c.Kernel.Corto.{tomar_ready, despachar, Llegada, pcb_de, corto_main}
use so_project_c.Kernel.Largo.{
  tomar_multi, tomar_new, largo_main, memoria_finalizar_proceso, quantum_thread, interrupt_main,
}
use so_project_c.Kernel.Interfaces.{alta_interfaz, esperar_io, tomar_io, responder_io}
use so_project_c.Kernel.Consola.{
  iniciar_proceso, detener_planificacion, iniciar_planificacion, cambiar_multiprogramacion,
  multi_change_waits, finalizar_pid, seguir_ready, seguir_io,
}
use so_project_c.Kernel.Vuelta.{Devuelto}

module _ (a : Ajustes) where
  -- A step of one thread. What comes from outside is any: the answers of the memory and of the interfaces, the commands,
  -- and what the CPU asks for, on behalf of the process that it was given. The pids have not gone round, and an
  -- interface does not take a name that is in use.
  pub data Paso : Kernel → Kernel → Type 0 where
    consola_iniciar :
        (k : Kernel) (op : Option OpCode)
        → k.consola ≡ Consola.libre
        → suc k.next_pid < u32_mod
        → Paso k (iniciar_proceso a k op)
    consola_finalizar :
        (k : Kernel) (p : ℕ) → k.consola ≡ Consola.libre → Paso k (finalizar_pid k p)
    consola_ready : (k k' : Kernel) → seguir_ready k k.consola ≡ some k' → Paso k k'
    consola_io :
        (k k' : Kernel) (nombre : List ℕ) → seguir_io k nombre k.consola ≡ some k' → Paso k k'
    consola_detener : (k : Kernel) → k.consola ≡ Consola.libre → Paso k (detener_planificacion k)
    consola_reanudar : (k : Kernel) → k.consola ≡ Consola.libre → Paso k (iniciar_planificacion k)
    consola_grado :
        (k : Kernel) (n : ℕ)
        → k.consola ≡ Consola.libre
        → n < u32_mod
        → k.cont_multi + (n - k.multiprogramacion) < 0x8000_0000
        → Paso k (cambiar_multiprogramacion k n)
    espera_grado : (k k' : Kernel) → multi_change_waits k ≡ some k' → Paso k k'
    largo_multi : (k k' : Kernel) → tomar_multi k ≡ some k' → Paso k k'
    largo_new : (k k' : Kernel) → tomar_new k ≡ some k' → Paso k k'
    largo : (k k' : Kernel) → largo_main k ≡ some k' → Paso k k'
    corto_ready : (k k' : Kernel) → tomar_ready k ≡ some k' → Paso k k'
    corto_envia :
        (k : Kernel) (r : Kernel × Pcb) → k.running_pid ≡ none → despachar a k ≡ some r → Paso k r.0
    corto_recibe :
        (k : Kernel) (l : Llegada) (used : ℕ)
        → k.running_pid ≡ some (pcb_de l).pid
        → k.is_stopped ≡ false
        → Devuelto l
        → Paso k (corto_main a k l used)
    termina :
        (k k' : Kernel) (p : ℕ)
        → mem p k.salida ≡ true
        → memoria_finalizar_proceso a k p ≡ some k'
        → Paso k k'
    quantum : (k k' : Kernel) → quantum_thread k ≡ some k' → Paso k k'
    interrumpe :
        (k : Kernel) (r : Kernel × Option (OpCode × ℕ)) → interrupt_main k ≡ some r → Paso k r.0
    io_conecta :
        (k : Kernel) (nombre : List ℕ)
        → get_text nombre k.dict_io_clients ≡ none
        → Paso k (alta_interfaz k nombre)
    io_espera : (k k' : Kernel) (nombre : List ℕ) → esperar_io k nombre ≡ some k' → Paso k k'
    io_envia :
        (k : Kernel) (nombre : List ℕ) (r : Kernel × ℕ × Io)
        → tomar_io k nombre ≡ some r
        → Paso k r.0
    io_recibe :
        (k k' : Kernel) (nombre : List ℕ) (op : Option OpCode)
        → responder_io a k nombre op ≡ some k'
        → Paso k k'

  pub data Alcanza : Kernel → Kernel → Type 0 where
    fin : (k : Kernel) → Alcanza k k
    luego : (k k1 k2 : Kernel) → Paso k k1 → Alcanza k1 k2 → Alcanza k k2

-- Nobody waits at the start.
abbrev EstaLibre : Recurso → Type 0
EstaLibre r = (n : ℕ) × (r ≡ record { cant_instancias = pos n; queue_waiting = [] })
