-- ===== src/Protocol/Packet.antt =====
-- utils/src/utils/general_protocol.c: packets on the sending side. A buffer is the bytes at `stream`
-- beside the `size` field, which the code keeps apart. A size stays below 2^31, the range of `int`.
use so_project_c.Common.{
  refl, sym, ℕ, ◌+◌, ◌≡◌, List, [], ◌++◌, length, take, bytes_u32, stored, ◌*◌, take_all, arith,
  length-append, ◌∷◌,
}
use so_project_c.Protocol.Codes.{OpCode, op_value}

pub record Buffer : Type 0 where
  pub size : ℕ
  pub stream : List ℕ

pub record Paquete : Type 0 where
  pub codigo_operacion : OpCode
  pub buffer : Buffer

crear_buffer : Buffer
crear_buffer = record { size = 0; stream = [] }

unfoldable pub crear_paquete : OpCode → Paquete
unfolding crear_buffer
crear_paquete op = record { codigo_operacion = op; buffer = crear_buffer }

-- The size of the value goes before the value. A value is the bytes from `valor` on.
pub agregar_a_paquete : Paquete → List ℕ → ℕ → Paquete
agregar_a_paquete p valor tamanio = record p { buffer = extended }
  where
    extended : Buffer
    extended = record {
      size = p.buffer.size + (tamanio + 4);
      stream = take p.buffer.size p.buffer.stream ++ (bytes_u32 tamanio ++ take tamanio valor);
    }

-- The value alone.
unfoldable pub agregar_uint_a_paquete : Paquete → List ℕ → ℕ → Paquete
agregar_uint_a_paquete p valor tamanio = record p { buffer = extended }
  where
    extended : Buffer
    extended = record {
      size = p.buffer.size + tamanio;
      stream = take p.buffer.size p.buffer.stream ++ take tamanio valor;
    }

serializar_paquete : Paquete → ℕ → List ℕ
serializar_paquete p bytes = take bytes (
    bytes_u32 (op_value p.codigo_operacion)
    ++ (bytes_u32 p.buffer.size ++ take p.buffer.size p.buffer.stream))

-- What `send` puts on the socket.
pub enviar_paquete : Paquete → List ℕ
unfolding serializar_paquete
enviar_paquete p = serializar_paquete p (p.buffer.size + 2 * 4)

-- `strlen(mensaje) + 1` bytes: the text and its NUL.
pub enviar_mensaje : List ℕ → OpCode → List ℕ
unfolding serializar_paquete
enviar_mensaje texto codigo = serializar_paquete p (p.buffer.size + 2 * 4)
  where
    p : Paquete
    p = record {
      codigo_operacion = codigo;
      buffer = record { size = length texto + 1; stream = stored texto };
    }

-- The packet's code is `op`, its stream is the given bytes, and `size` counts them.
pub record Holds (p : Paquete) (op : OpCode) (bs : List ℕ) : Type 0 where
  pub code : p.codigo_operacion ≡ op
  pub content : p.buffer.stream ≡ bs
  pub counted : p.buffer.size ≡ length bs

pub crear_paquete-Holds : (op : OpCode) → Holds (crear_paquete op) op []
unfolding crear_paquete
crear_paquete-Holds op = record { code = refl; content = refl; counted = refl }

take_size :
    {p : Paquete} {op : OpCode} {bs : List ℕ}
    → Holds p op bs
    → take p.buffer.size p.buffer.stream ≡ bs
take_size {p} {bs} h = rw (h.content, h.counted) (take_all bs)

pub agregar_uint_a_paquete-Holds :
    {p : Paquete} {op : OpCode} {bs : List ℕ} (v : List ℕ)
    → Holds p op bs
    → Holds (agregar_uint_a_paquete p v (length v)) op (bs ++ v)
unfolding agregar_uint_a_paquete
agregar_uint_a_paquete-Holds {bs = bs} v h = record {
  code = h.code;
  content = rw (take_size h, take_all v);
  counted = omega (arith, h.counted, length-append bs v);
}

pub agregar_a_paquete-Holds :
    {p : Paquete} {op : OpCode} {bs : List ℕ} (v : List ℕ)
    → Holds p op bs
    → Holds (agregar_a_paquete p v (length v)) op (bs ++ (bytes_u32 (length v) ++ v))
unfolding agregar_a_paquete
agregar_a_paquete-Holds {bs = bs} v h = record {
  code = h.code;
  content = rw (take_size h, take_all v);
  counted = omega (arith, h.counted, length-append bs (bytes_u32 (length v) ++ v));
}

-- What goes over the socket: the code, the size and the content.
abbrev pub wire : OpCode → List ℕ → List ℕ
wire op bs = bytes_u32 (op_value op) ++ (bytes_u32 (length bs) ++ bs)

pub enviar_paquete-Holds :
    {p : Paquete} {op : OpCode} {bs : List ℕ} → Holds p op bs → enviar_paquete p ≡ wire op bs
unfolding enviar_paquete
enviar_paquete-Holds {p} {op} {bs} h = rw (take_size h, h.counted, h.code) take_wire
  where
    take_wire : take (length bs + 2 * 4) (wire op bs) ≡ wire op bs
    take_wire =
        let e : length bs + 2 * 4 ≡ length (wire op bs) = omega arith in
        rw e (take_all (wire op bs))

pub length-stored : (s : List ℕ) → length (stored s) ≡ length s + 1
length-stored s = length-append s (0 ∷ [])

enviar_mensaje_lem :
    (texto : List ℕ) (op : OpCode) → enviar_mensaje texto op ≡ wire op (stored texto)
unfolding enviar_mensaje enviar_paquete
enviar_mensaje_lem texto op =
    enviar_paquete-Holds
      {p = record {
        codigo_operacion = op;
        buffer = record { size = length texto + 1; stream = stored texto };
      }}
      (record { code = refl; content = refl; counted = sym (length-stored texto) })

-- A C string with `strlen + 1` for its size.
pub agregar_texto-Holds :
    {p : Paquete} {op : OpCode} {bs : List ℕ} (s : List ℕ)
    → Holds p op bs
    → Holds
        (agregar_a_paquete p (stored s) (length s + 1))
        op
        (bs ++ (bytes_u32 (length (stored s)) ++ stored s))
agregar_texto-Holds s h = rw (← length-stored s) (agregar_a_paquete-Holds (stored s) h)
