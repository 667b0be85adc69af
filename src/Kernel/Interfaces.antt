-- ===== src/Kernel/Interfaces.antt =====
-- kernel/src/io.c: the thread of an interface that is connected.
use so_project_c.Common.{ℕ, zero, suc, true, false, Option, none, some, List, [], ◌∷◌, ◌++◌}
use so_project_c.Common.Text.{get_text, put_text, remove_text}
use so_project_c.Protocol.Codes.{OpCode}
use so_project_c.Protocol.Io.{Io}
use so_project_c.Kernel.State.{IoClient, Ajustes, Kernel, a_ready, finalizar_proceso}

abbrev pub cliente_nuevo : IoClient
cliente_nuevo = record { hay_io = 0; queue_io = []; tiene_io = 0; en_curso = none; salientes = [] }

-- The start of `io_client`.
unfoldable pub alta_interfaz : Kernel → List ℕ → Kernel
alta_interfaz k nombre = record k {
  dict_io_clients = put_text nombre cliente_nuevo k.dict_io_clients;
}

-- `sem_wait(&io_client->hay_io)`
unfoldable pub esperar_io : Kernel → List ℕ → Option Kernel
unfolding get_text
esperar_io k nombre = elim (get_text nombre k.dict_io_clients) [
  | none ↦ none
  | some client ↦ elim client.en_curso [
    | some q ↦ none
    | none ↦ elim client.tiene_io [
      | suc m ↦ none
      | zero ↦ elim client.hay_io [
        | zero ↦ none
        | suc n ↦
            let client' = record client { hay_io = n; tiene_io = 1 } in
            some (record k { dict_io_clients = put_text nombre client' k.dict_io_clients })
      ]
    ]
  ]
]

-- With the post taken, the first half of a round from `check_plani` on: the process and the request that are sent to
-- the interface.
unfoldable pub tomar_io : Kernel → List ℕ → Option (Kernel × ℕ × Io)
unfolding get_text
tomar_io k nombre = elim k.is_stopped [
  | true ↦ none
  | false ↦ elim (get_text nombre k.dict_io_clients) [
    | none ↦ none
    | some client ↦ elim client.en_curso [
      | some q ↦ none
      | none ↦ elim client.tiene_io [
        | zero ↦ none
        | suc n ↦ elim client.queue_io [
          | [] ↦ none
          | (p, io) ∷ ios ↦
              let client' = record client { tiene_io = n; queue_io = ios; en_curso = some p } in
              some (record k { dict_io_clients = put_text nombre client' k.dict_io_clients }, p, io)
        ]
      ]
    ]
  ]
]

abbrev pub pids_io : List (ℕ × Io) → List ℕ
pids_io [] = []
pids_io ((p, io) ∷ ios) = p ∷ pids_io ios

-- The answer of the interface for the process `p`; without a code that is known the interface is lost.
unfoldable pub segun_respuesta : Ajustes → Kernel → List ℕ → IoClient → ℕ → Option OpCode → Kernel
unfolding a_ready finalizar_proceso
segun_respuesta a k nombre client p (some OpCode.io_error) =
    finalizar_proceso
      (record k {
        dict_io_clients = put_text nombre (record client { en_curso = none }) k.dict_io_clients;
      })
      p
segun_respuesta a k nombre client p (some OpCode.io_success) =
    a_ready a
      (record k {
        dict_io_clients = put_text nombre (record client { en_curso = none }) k.dict_io_clients;
      })
      p
segun_respuesta a k nombre client p _ =
    finalizar_proceso
      (record k {
        dict_io_clients = remove_text nombre k.dict_io_clients;
        abandonados = k.abandonados ++ (pids_io client.queue_io ++ client.salientes);
      })
      p

-- The second half of the round.
unfoldable pub responder_io : Ajustes → Kernel → List ℕ → Option OpCode → Option Kernel
unfolding get_text segun_respuesta
responder_io a k nombre op = elim k.is_stopped [
  | true ↦ none
  | false ↦ elim (get_text nombre k.dict_io_clients) [
    | none ↦ none
    | some client ↦ elim client.en_curso [
      | none ↦ none
      | some p ↦ some (segun_respuesta a k nombre client p op)
    ]
  ]
]
