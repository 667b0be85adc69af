-- ===== src/Kernel/Tests.antt =====
-- The kernel on small inputs: one process under virtual round robin, and one resource with one instance.
use so_project_c.Common.{
  ℕ, ◌≤◌, ◌<◌, ◌≡◌, refl, true, false, none, some, List, [], ◌∷◌, arith, if◌then◌else◌,
}
use so_project_c.Common.Text.{get_text, put_text, strcmp_eq}
use so_project_c.Protocol.Codes.{PidStatus, OpCode}
use so_project_c.Protocol.Pcb.{Pcb}
use so_project_c.Kernel.State.{
  pos, negsuc, Recurso, Ajustes, Kernel, crear_context, inicial, cargar_recursos, enviar_new,
  a_ready,
}
use so_project_c.Kernel.Corto.{
  tomar_ready, despachar, elegir, elegir_de, corto_main, esperar_cpu, atender_wait, pedir_recurso,
  resolver, segun_estado, nuevo_quantum, pide_wait, pide_signal,
}
use so_project_c.Kernel.Largo.{tomar_multi, tomar_new, largo_main}
use so_project_c.Kernel.Consola.{iniciar_proceso}
use so_project_c.Kernel.Semaforo.{
  adquirir, devolver, abstraccion, Representa, Despierta, esperar_cpu-refines,
}
use so_project_c.Kernel.Vuelta.{estado}
use so_project_c.Kernel.Errores.{Termina, corto_main-Termina}
use so_project_c.Kernel.Vrr.{resto, Encolado, corto_main-Encolado}

abbrev vrr : Ajustes
vrr = record {
  quantum = 10;
  hay_quantum = true;
  hay_priority = true;
  string_contains = λ texto parte. false;
  string_replace = λ texto parte nueva. texto;
  string_split = λ texto separador. texto ∷ [];
}

-- "R"
abbrev nombre_r : List ℕ
nombre_r = b'R' ∷ []

abbrev recursos_r : List (List ℕ × ℕ)
recursos_r = (nombre_r, 1) ∷ []

abbrev sin_pcbs : ℕ → Pcb
sin_pcbs p = crear_context vrr p

abbrev k0 : Kernel
k0 = inicial sin_pcbs 2 recursos_r

abbrev k1 : Kernel
k1 = iniciar_proceso vrr k0 (some OpCode.init_pid_success)

abbrev con_multi : Kernel
con_multi = elim (tomar_multi k1) [ none ↦ k1 | some k ↦ k ]

abbrev con_new : Kernel
con_new = elim (tomar_new con_multi) [ none ↦ k1 | some k ↦ k ]

abbrev k2 : Kernel
k2 = elim (largo_main con_new) [ none ↦ k1 | some k ↦ k ]

abbrev con_ready : Kernel
con_ready = elim (tomar_ready k2) [ none ↦ k2 | some k ↦ k ]

abbrev enviado : Kernel × Pcb
enviado = elim (despachar vrr con_ready) [ none ↦ (k2, sin_pcbs 0) | some r ↦ r ]

abbrev k4 : Kernel
k4 = corto_main vrr enviado.0 (pide_wait nombre_r enviado.1) 4

-- The process has what is left of its quantum and is in front of the others.
cola_k4 : k4.queue_priority_ready ≡ 0 ∷ []
unfolding inicial cargar_recursos put_text iniciar_proceso enviar_new tomar_multi tomar_new
    largo_main tomar_ready despachar elegir elegir_de corto_main resolver segun_estado nuevo_quantum
    esperar_cpu atender_wait pedir_recurso get_text strcmp_eq a_ready
cola_k4 = refl

quantum_k4 : (k4.pcbs 0).quantum ≡ 6
unfolding inicial cargar_recursos put_text iniciar_proceso enviar_new tomar_multi tomar_new
    largo_main tomar_ready despachar elegir elegir_de corto_main resolver segun_estado nuevo_quantum
    esperar_cpu atender_wait pedir_recurso get_text strcmp_eq a_ready
quantum_k4 = refl

-- With the one instance given away, a second process has to wait.
abbrev ocupado : Recurso
ocupado = record { cant_instancias = negsuc 0; queue_waiting = 0 ∷ [] }

abbrev k_ocupado : Kernel
k_ocupado = record k0 { dict_recursos = (nombre_r, ocupado) ∷ [] }

esperar_cpu-refines_example :
    (Representa
        (esperar_cpu vrr k_ocupado (pide_wait nombre_r (sin_pcbs 1)))
        nombre_r
        (adquirir 1 (abstraccion ocupado)).0
      × (estado (esperar_cpu vrr k_ocupado (pide_wait nombre_r (sin_pcbs 1))) 1 ≡ (
          if (adquirir 1 (abstraccion ocupado)).1
          then PidStatus.running
          else PidStatus.blocked_wait)))
    × (Representa
          (esperar_cpu vrr k_ocupado (pide_signal nombre_r (sin_pcbs 1)))
          nombre_r
          (devolver (abstraccion ocupado)).0
        × Despierta k_ocupado
            (esperar_cpu vrr k_ocupado (pide_signal nombre_r (sin_pcbs 1)))
            (devolver (abstraccion ocupado)).1)
unfolding get_text strcmp_eq
esperar_cpu-refines_example =
    esperar_cpu-refines vrr k_ocupado nombre_r (sin_pcbs 1) ocupado refl refl

no_hay : get_text (b'S' ∷ []) k_ocupado.dict_recursos ≡ none
unfolding get_text strcmp_eq
no_hay = refl

corto_main-Termina_example :
    Termina vrr k_ocupado (corto_main vrr k_ocupado (pide_wait (b'S' ∷ []) (sin_pcbs 1)) 4) 1
corto_main-Termina_example =
    corto_main-Termina vrr k_ocupado (pide_wait (b'S' ∷ []) (sin_pcbs 1)) 4 no_hay

hay_una :
    get_text nombre_r k0.dict_recursos
    ≡ some (record { cant_instancias = pos 1; queue_waiting = [] })
unfolding get_text strcmp_eq inicial cargar_recursos put_text
hay_una = refl

corto_main-Encolado_example :
    Encolado vrr k0 (corto_main vrr k0 (pide_wait nombre_r (sin_pcbs 1)) 4) 1 (resto 10 10 4)
    × (0 < resto 10 10 4)
    × (resto 10 10 4 ≤ 10)
corto_main-Encolado_example =
    corto_main-Encolado vrr k0 nombre_r (sin_pcbs 1) 0 [] 4 refl (omega arith) hay_una
