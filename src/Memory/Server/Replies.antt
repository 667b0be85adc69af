-- ===== src/Memory/Server/Replies.antt =====
-- The answers as the other side receives them: the words of an instruction.
use so_project_c.Common.{
  ℕ, ◌≡◌, ◌∙◌, some, List, [], ◌∷◌, ◌++◌, arith, length, map, All, bytes_u32, stored, >>=-some,
}
use mathlib.Core.List.{append-nil, append_assoc}
use so_project_c.Protocol.Codes.{OpCode, op_value}
use so_project_c.Protocol.Packet.{
  Paquete, enviar_paquete, Holds, crear_paquete-Holds, agregar_texto-Holds, enviar_paquete-Holds,
}
use so_project_c.Protocol.Receive.{
  llega, FitsInt, values_bytes, recibir_operacion, recibir_operacion_lem, recibir_paquete,
  recibir_paquete_lem, tras_operacion,
}
use so_project_c.Protocol.Io.{agregar_params}
use so_project_c.Memory.Scripts.{enviar_instruccion}

agregar_params-Holds :
    (params : List (List ℕ)) {p : Paquete} {op : OpCode} {bs : List ℕ}
    → Holds p op bs
    → Holds (agregar_params p params) op (bs ++ values_bytes (map stored params))
unfolding agregar_params
agregar_params-Holds [] {bs = bs} h = rw append-nil h
agregar_params-Holds (s ∷ params) {bs = bs} h =
    rw
      (← append_assoc bs (bytes_u32 (length (stored s)) ++ stored s)
        (values_bytes (map stored params)))
      (agregar_params-Holds params (agregar_texto-Holds s h))

-- The words of an instruction, if their sizes fit an int, are received by the CPU in order, each
-- with its NUL.
pub recibir_paquete-enviar_instruccion :
    (palabras : List (List ℕ)) (rest : List ℕ)
    → FitsInt (length (values_bytes (map stored palabras)))
    → All (λ s. FitsInt (length s)) (map stored palabras)
    → tras_operacion recibir_paquete (enviar_paquete (enviar_instruccion palabras) ++ rest)
      ≡ some ((llega (op_value OpCode.instruction), map stored palabras), rest)
unfolding enviar_instruccion
recibir_paquete-enviar_instruccion palabras rest h fits =
    rw
      (enviar_paquete-Holds
        (agregar_params-Holds palabras (crear_paquete-Holds OpCode.instruction)))
      (>>=-some recibir_operacion _ (
          recibir_operacion_lem (op_value OpCode.instruction)
            (bytes_u32 (length (values_bytes (map stored palabras)))
              ++ (values_bytes (map stored palabras) ++ rest))
            (omega arith))
        ∙ >>=-some recibir_paquete _ (recibir_paquete_lem (map stored palabras) rest h fits))
