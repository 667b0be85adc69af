-- ===== src/Kernel/Lugares.antt =====
-- kernel/src: what a consistent state says of one process, and of the multiprogramming degree.
use so_project_c.Common.{ℕ, Bool, List, [], ◌∷◌, ◌++◌, ◌==◌}
use so_project_c.Protocol.Pcb.{Pcb}
use so_project_c.Kernel.State.{Recurso, IoClient, Kernel}
use so_project_c.Kernel.Interfaces.{pids_io}
use so_project_c.Kernel.Pasos.Planes.{manos}

esperando : List (List ℕ × Recurso) → List ℕ
esperando [] = []
esperando ((nombre, r) ∷ d) = r.queue_waiting ++ esperando d

en_io : List (List ℕ × IoClient) → List ℕ
en_io [] = []
en_io ((nombre, c) ∷ d) = pids_io c.queue_io ++ (manos c.en_curso ++ (c.salientes ++ en_io d))

-- The processes that were admitted and have not ended: ready, on the CPU, waiting for a resource, or with an interface.
pub admitidos : Kernel → List ℕ
unfolding esperando en_io
admitidos k =
    k.queue_ready
    ++ (k.queue_priority_ready
        ++ (manos k.running_pid ++ (esperando k.dict_recursos ++ en_io k.dict_io_clients)))

-- All places.
pub lugares : Kernel → List ℕ
unfolding admitidos
lugares k = k.queue_new ++ (admitidos k ++ (k.salida ++ k.terminados))

igual : ℕ → ℕ → Bool
igual p x = x == p
