-- ===== src/Kernel/Largo.antt =====
-- kernel/src/largo_plazo.c, kernel/src/exit_proceso.c and kernel/src/quantum.c: how a process gets into memory and out of
-- it, and the thread that counts its quantum.
use so_project_c.Common.{
  ℕ, zero, suc, ◌-◌, true, false, Option, none, some, List, [], ◌∷◌, ◌++◌, ◌==◌, length, take,
  if◌then◌else◌,
}
use so_project_c.Common.Text.{get_text}
use so_project_c.Protocol.Codes.{OpCode, PidStatus}
use so_project_c.Kernel.State.{Ajustes, Kernel, con_estado}
use so_project_c.Kernel.Corto.{sumar_instancia}

-- The two waits of the long-term scheduler, in their order.
unfoldable pub tomar_multi : Kernel → Option Kernel
tomar_multi k = elim k.tiene_multi [
  | suc n ↦ none
  | zero ↦ elim k.cont_multi [
    | zero ↦ none
    | suc c ↦ some (record k { cont_multi = c; tiene_multi = 1 })
  ]
]

unfoldable pub tomar_new : Kernel → Option Kernel
tomar_new k = elim k.tiene_multi [
  | zero ↦ none
  | suc m ↦ elim k.tiene_new [
    | suc n ↦ none
    | zero ↦ elim k.hay_new [ zero ↦ none | suc c ↦ some (record k { hay_new = c; tiene_new = 1 }) ]
  ]
]

-- With both posts taken, the rest of the round from `check_plani` on; `none` while it waits.
unfoldable pub largo_main : Kernel → Option Kernel
largo_main k = elim k.is_stopped [
  | true ↦ none
  | false ↦ elim k.tiene_multi [
    | zero ↦ none
    | suc c ↦ elim k.tiene_new [
      | zero ↦ none
      | suc n ↦ elim k.queue_new [
        | [] ↦ none
        | p ∷ ps ↦ some (record k {
          tiene_multi = c;
          tiene_new = n;
          queue_new = ps;
          pcbs = con_estado k.pcbs p PidStatus.ready;
          queue_ready = k.queue_ready ++ (p ∷ []);
          hay_ready = suc k.hay_ready;
        })
      ]
    ]
  ]
]

-- The loop over the resources of the process; `none` is the NULL that an unknown name gives.
unfoldable pub liberar_recursos : Ajustes → Kernel → List (List ℕ) → Option Kernel
unfolding get_text sumar_instancia
liberar_recursos a k [] = some k
liberar_recursos a k (nombre ∷ nombres) = elim (get_text nombre k.dict_recursos) [
  | none ↦ none
  | some r ↦ liberar_recursos a (sumar_instancia a k nombre r) nombres
]

-- The names that the loop goes over: all parts of the text but the last one.
unfoldable pub nombres_de : Ajustes → List ℕ → List (List ℕ)
nombres_de a [] = []
nombres_de a (c ∷ recursos) =
    let partes = a.string_split (c ∷ recursos) (b',' ∷ []) in take (length partes - 1) partes

abbrev pub quitar : ℕ → List ℕ → List ℕ
quitar p [] = []
quitar p (x ∷ xs) = if x == p then xs else x ∷ quitar p xs

-- The thread that ends a process of `salida`; the memory is told its pid at the end.
unfoldable pub memoria_finalizar_proceso : Ajustes → Kernel → ℕ → Option Kernel
unfolding liberar_recursos nombres_de
memoria_finalizar_proceso a k p = elim k.is_stopped [
  | true ↦ none
  | false ↦ elim (liberar_recursos a k (nombres_de a (k.pcbs p).recursos)) [
    | none ↦ none
    | some k' ↦
        some (record k' { salida = quitar p k'.salida; terminados = k'.terminados ++ (p ∷ []) })
  ]
]

-- The thread at the end of its sleep: the interrupt for the process that it was created for.
unfoldable pub quantum_thread : Kernel → Option Kernel
quantum_thread k = elim k.q_thread [
  | none ↦ none
  | some p ↦ some (record k {
    interrupt_pid = some (OpCode.interrupt, p);
    hay_interrupt = suc k.hay_interrupt;
    q_thread = none;
  })
]

-- One round of the thread that sends interrupts, with what it sends.
unfoldable pub interrupt_main : Kernel → Option (Kernel × Option (OpCode × ℕ))
interrupt_main k = elim k.hay_interrupt [
  | zero ↦ none
  | suc n ↦ some (record k { hay_interrupt = n }, k.interrupt_pid)
]
