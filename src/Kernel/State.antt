-- ===== src/Kernel/State.antt =====
-- kernel/src/main.h and the functions that move a process from one queue to another. A pointer to a process block
-- is the pid of the process, and `pcbs` the store that it points into: two queues never hold two blocks of one
-- process, and a block changes for everybody that points to it.
use so_project_c.Common.{
  ℕ, zero, suc, ◌%◌, Bool, false, Option, none, List, [], ◌∷◌, ◌++◌, ◌==◌, ltb, if◌then◌else◌,
  u32_mod,
}
pub use so_project_c.Common.Ints.{ℤ, pos, negsuc}
use so_project_c.Common.Text.{put_text}
use so_project_c.Protocol.Codes.{OpCode, PidStatus}
use so_project_c.Protocol.Pcb.{Pcb, Registros}
use so_project_c.Protocol.Io.{Io}

-- The instances of a resource are an `int`, which moves by one per request.
abbrev pub mas_uno : ℤ → ℤ
mas_uno (pos n) = pos (suc n)
mas_uno (negsuc zero) = pos 0
mas_uno (negsuc (suc n)) = negsuc n

abbrev pub menos_uno : ℤ → ℤ
menos_uno (pos zero) = negsuc 0
menos_uno (pos (suc n)) = pos n
menos_uno (negsuc n) = negsuc (suc n)

-- The thread of the console: where it reads commands, and the two waits at the end of a process that it took out of a
-- queue.
pub data Consola : Type 0 where
  libre : Consola
  espera_ready : Consola
  espera_io : Consola

-- `t_recursos`
pub record Recurso : Type 0 where
  pub cant_instancias : ℤ
  pub queue_waiting : List ℕ

-- `t_io_client` with its queue of `t_io_queue`, the posts that its thread has taken, the request that the thread is
-- waiting for, and the processes that the console takes out of the queue.
pub record IoClient : Type 0 where
  pub hay_io : ℕ
  pub queue_io : List (ℕ × Io)
  pub tiene_io : ℕ
  pub en_curso : Option ℕ
  pub salientes : List ℕ

-- The configuration, and the functions of so-commons on the text of the resources.
pub record Ajustes : Type 0 where
  pub quantum : ℕ
  pub hay_quantum : Bool
  pub hay_priority : Bool
  pub string_contains : List ℕ → List ℕ → Bool
  pub string_replace : List ℕ → List ℕ → List ℕ → List ℕ
  pub string_split : List ℕ → List ℕ → List (List ℕ)

-- The global variables, the semaphores by their counts, the posts that a scheduler has taken and holds while it waits
-- on (`tiene_new`, `tiene_ready`, `tiene_multi`), and the threads that are under way: `q_thread` counts a quantum
-- down, those of `salida` end a process, and `reducciones` waits are left of `multi_change_waits`. `terminados` are the
-- processes whose end the memory was told, and `abandonados` those that `queue_destroy` dropped.
pub record Kernel : Type 0 where
  pub pcbs : ℕ → Pcb
  pub next_pid : ℕ
  pub queue_new : List ℕ
  pub queue_ready : List ℕ
  pub queue_priority_ready : List ℕ
  pub running_pid : Option ℕ
  pub dict_recursos : List (List ℕ × Recurso)
  pub dict_io_clients : List (List ℕ × IoClient)
  pub hay_new : ℕ
  pub hay_ready : ℕ
  pub cont_multi : ℕ
  pub tiene_new : ℕ
  pub tiene_ready : ℕ
  pub tiene_multi : ℕ
  pub consola : Consola
  pub multiprogramacion : ℕ
  pub reducciones : ℕ
  pub is_stopped : Bool
  pub interrupt_pid : Option (OpCode × ℕ)
  pub hay_interrupt : ℕ
  pub q_thread : Option ℕ
  pub salida : List ℕ
  pub terminados : List ℕ
  pub abandonados : List ℕ

abbrev pub guardar : (ℕ → Pcb) → ℕ → Pcb → ℕ → Pcb
guardar pcbs p pcb j = if p == j then pcb else pcbs j

abbrev pub con_estado : (ℕ → Pcb) → ℕ → PidStatus → ℕ → Pcb
con_estado pcbs p status = guardar pcbs p (record (pcbs p) { status = status })

abbrev pub cambio_estado : Kernel → ℕ → PidStatus → Kernel
cambio_estado k p new_status = record k { pcbs = con_estado k.pcbs p new_status }

-- What the schedulers do with a process that may run again: the state, the queue by the quantum that is left, the post.
unfoldable pub a_ready : Ajustes → Kernel → ℕ → Kernel
a_ready a k p =
    let resto = ltb (k.pcbs p).quantum a.quantum in
    record k {
      pcbs = con_estado k.pcbs p PidStatus.ready;
      queue_priority_ready =
          if resto then k.queue_priority_ready ++ (p ∷ []) else k.queue_priority_ready;
      queue_ready = if resto then k.queue_ready else k.queue_ready ++ (p ∷ []);
      hay_ready = suc k.hay_ready;
    }

-- The thread that it creates goes on from `salida`.
unfoldable pub finalizar_proceso : Kernel → ℕ → Kernel
finalizar_proceso k p = record k {
  pcbs = con_estado k.pcbs p PidStatus.terminated;
  salida = k.salida ++ (p ∷ []);
  cont_multi = suc k.cont_multi;
}

abbrev registros_cero : Registros
registros_cero = record {
  pc = 0;
  si = 0;
  di = 0;
  ax = 0;
  bx = 0;
  cx = 0;
  dx = 0;
  eax = 0;
  ebx = 0;
  ecx = 0;
  edx = 0;
}

abbrev pub crear_context : Ajustes → ℕ → Pcb
crear_context a pid = record {
  pid = pid;
  pc = 0;
  quantum = a.quantum;
  registers = registros_cero;
  status = PidStatus.new;
  recursos = [];
}

unfoldable pub enviar_new : Ajustes → Kernel → Kernel
enviar_new a k = record k {
  pcbs = guardar k.pcbs k.next_pid (crear_context a k.next_pid);
  queue_new = k.queue_new ++ (k.next_pid ∷ []);
  hay_new = suc k.hay_new;
  next_pid = suc k.next_pid % u32_mod;
}

-- The loop of main.c over the resources of the configuration, the last of which is taken first; the counts are not
-- negative.
unfoldable pub cargar_recursos : List (List ℕ × ℕ) → List (List ℕ × Recurso)
unfolding put_text
cargar_recursos [] = []
cargar_recursos ((nombre, n) ∷ lista) =
    put_text nombre (record { cant_instancias = pos n; queue_waiting = [] }) (cargar_recursos lista)

-- The start of main.c, with what the store holds before a process is there.
unfoldable pub inicial : (ℕ → Pcb) → ℕ → List (List ℕ × ℕ) → Kernel
unfolding cargar_recursos
inicial pcbs grado lista = record {
  pcbs = pcbs;
  next_pid = 0;
  queue_new = [];
  queue_ready = [];
  queue_priority_ready = [];
  running_pid = none;
  dict_recursos = cargar_recursos lista;
  dict_io_clients = [];
  hay_new = 0;
  hay_ready = 0;
  cont_multi = grado;
  tiene_new = 0;
  tiene_ready = 0;
  tiene_multi = 0;
  consola = Consola.libre;
  multiprogramacion = grado;
  reducciones = 0;
  is_stopped = false;
  interrupt_pid = none;
  hay_interrupt = 0;
  q_thread = none;
  salida = [];
  terminados = [];
  abandonados = [];
}
