-- ===== src/Protocol/Pcb.antt =====
-- utils/src/utils/pcb_protocol.c: the process control block between kernel and CPU.
use so_project_c.Common.{
  >>=-some, ℕ, ◌+◌, ◌<◌, ◌≡◌, refl, ◌∙◌, some, List, [], ◌∷◌, ◌++◌, arith, length, Read, ◌>>=◌,
  pure, read_u32, read_u8, bytes_u32, stored, IsText, IsU32, IsByte,
}
use so_project_c.Protocol.Codes.{op_value, OpCode, PidStatus, status_value}
use so_project_c.Protocol.Packet.{
  length-stored, Paquete, crear_paquete, agregar_a_paquete, agregar_uint_a_paquete, enviar_paquete,
  Holds, enviar_paquete-Holds,
}
use so_project_c.Protocol.Fields.{
  read_status, read_text, next_u32, next_u8, next_status, read_text_lem,
}
use so_project_c.Protocol.Receive.{tras_operacion, tras_operacion-wire, llega, from_buffer}
use so_project_c.Protocol.Packet.{agregar_texto-Holds}

pub record Registros : Type 0 where
  pub pc : ℕ
  pub si : ℕ
  pub di : ℕ
  pub ax : ℕ
  pub bx : ℕ
  pub cx : ℕ
  pub dx : ℕ
  pub eax : ℕ
  pub ebx : ℕ
  pub ecx : ℕ
  pub edx : ℕ

-- `recursos` is the text of the resources that the process holds, each with a comma behind it.
pub record Pcb : Type 0 where
  pub pid : ℕ
  pub pc : ℕ
  pub quantum : ℕ
  pub registers : Registros
  pub status : PidStatus
  pub recursos : List ℕ

pub agregar_pcb_paquete : Paquete → Pcb → Paquete
agregar_pcb_paquete p pcb =
    let r = pcb.registers in
    let p1 = agregar_uint_a_paquete p (bytes_u32 pcb.pid) 4 in
    let p2 = agregar_uint_a_paquete p1 (bytes_u32 pcb.pc) 4 in
    let p3 = agregar_uint_a_paquete p2 (bytes_u32 pcb.quantum) 4 in
    let p4 = agregar_uint_a_paquete p3 (bytes_u32 (status_value pcb.status)) 4 in
    let p5 = agregar_uint_a_paquete p4 (r.ax ∷ []) 1 in
    let p6 = agregar_uint_a_paquete p5 (r.bx ∷ []) 1 in
    let p7 = agregar_uint_a_paquete p6 (r.cx ∷ []) 1 in
    let p8 = agregar_uint_a_paquete p7 (r.dx ∷ []) 1 in
    let p9 = agregar_uint_a_paquete p8 (bytes_u32 r.eax) 4 in
    let p10 = agregar_uint_a_paquete p9 (bytes_u32 r.ebx) 4 in
    let p11 = agregar_uint_a_paquete p10 (bytes_u32 r.ecx) 4 in
    let p12 = agregar_uint_a_paquete p11 (bytes_u32 r.edx) 4 in
    let p13 = agregar_uint_a_paquete p12 (bytes_u32 r.si) 4 in
    let p14 = agregar_uint_a_paquete p13 (bytes_u32 r.di) 4 in
    let p15 = agregar_uint_a_paquete p14 (bytes_u32 r.pc) 4 in
    agregar_a_paquete p15 (stored pcb.recursos) (length pcb.recursos + 1)

read_registros : ℕ → ℕ → ℕ → PidStatus → Read Pcb
read_registros pid pc quantum status = do
  ax ← read_u8
  bx ← read_u8
  cx ← read_u8
  dx ← read_u8
  eax ← read_u32
  ebx ← read_u32
  ecx ← read_u32
  edx ← read_u32
  si ← read_u32
  di ← read_u32
  rpc ← read_u32
  size_recursos ← read_u32
  recursos ← read_text size_recursos
  pure (record {
    pid = pid;
    pc = pc;
    quantum = quantum;
    registers = record {
      pc = rpc;
      si = si;
      di = di;
      ax = ax;
      bx = bx;
      cx = cx;
      dx = dx;
      eax = eax;
      ebx = ebx;
      ecx = ecx;
      edx = edx;
    };
    status = status;
    recursos = recursos;
  })

leer_pcb : Read Pcb
unfolding read_registros
leer_pcb = do
  pid ← read_u32
  pc ← read_u32
  quantum ← read_u32
  status ← read_status
  read_registros pid pc quantum status

pub recibir_pcb : Read Pcb
recibir_pcb = from_buffer leer_pcb

-- The ranges of the C types, and a text that a `char*` can hold.
pub record IsPcb (pcb : Pcb) : Type 0 where
  pub pid_u32 : IsU32 pcb.pid
  pub pc_u32 : IsU32 pcb.pc
  pub quantum_u32 : IsU32 pcb.quantum
  pub words :
      IsU32 pcb.registers.eax
      × IsU32 pcb.registers.ebx
      × IsU32 pcb.registers.ecx
      × IsU32 pcb.registers.edx
      × IsU32 pcb.registers.si
      × IsU32 pcb.registers.di
      × IsU32 pcb.registers.pc
  pub bytes :
      IsByte pcb.registers.ax
      × IsByte pcb.registers.bx
      × IsByte pcb.registers.cx
      × IsByte pcb.registers.dx
  pub text : IsText pcb.recursos
  pub short : length pcb.recursos < 0x1000_0000

abbrev pub pcb_bytes : Pcb → List ℕ
pcb_bytes pcb =
    let r = pcb.registers in
    bytes_u32 pcb.pid
    ++ (bytes_u32 pcb.pc
        ++ (bytes_u32 pcb.quantum
            ++ (bytes_u32 (status_value pcb.status)
                ++ ((r.ax ∷ r.bx ∷ r.cx ∷ r.dx ∷ [])
                    ++ (bytes_u32 r.eax
                        ++ (bytes_u32 r.ebx
                            ++ (bytes_u32 r.ecx
                                ++ (bytes_u32 r.edx
                                    ++ (bytes_u32 r.si
                                        ++ (bytes_u32 r.di
                                            ++ (bytes_u32 r.pc
                                                ++ (bytes_u32 (length (stored pcb.recursos))
                                                    ++ stored pcb.recursos))))))))))))

agregar_pcb_paquete-Holds :
    (op : OpCode) (pcb : Pcb)
    → Holds (agregar_pcb_paquete (crear_paquete op) pcb) op (pcb_bytes pcb)
unfolding agregar_pcb_paquete agregar_uint_a_paquete crear_paquete
agregar_pcb_paquete-Holds op pcb =
    agregar_texto-Holds pcb.recursos (record { code = refl; content = refl; counted = refl })

leer_pcb_lem : (pcb : Pcb) → IsPcb pcb → leer_pcb (pcb_bytes pcb) ≡ some (pcb, [])
unfolding leer_pcb
leer_pcb_lem pcb h =
    next_u32 pcb.pid _ h.pid_u32
    ∙ next_u32 pcb.pc _ h.pc_u32
    ∙ next_u32 pcb.quantum _ h.quantum_u32
    ∙ next_status pcb.status _
    ∙ next_u8 pcb.registers.ax _
    ∙ next_u8 pcb.registers.bx _
    ∙ next_u8 pcb.registers.cx _
    ∙ next_u8 pcb.registers.dx _
    ∙ next_u32 pcb.registers.eax _ h.words.0
    ∙ next_u32 pcb.registers.ebx _ h.words.1
    ∙ next_u32 pcb.registers.ecx _ h.words.2
    ∙ next_u32 pcb.registers.edx _ h.words.3
    ∙ next_u32 pcb.registers.si _ h.words.4
    ∙ next_u32 pcb.registers.di _ h.words.5
    ∙ next_u32 pcb.registers.pc _ h.words.6
    ∙ next_u32 (length (stored pcb.recursos)) _ (omega (arith, length-stored pcb.recursos, h.short))
    ∙ >>=-some (read_text _) _ (read_text_lem pcb.recursos h.text)

-- A block whose fields are in the ranges of their types, and whose resources are a text below 2^28
-- bytes, is received behind its operation code as it was packed, in every field; what follows
-- stays on the connection.
pub recibir_pcb-agregar_pcb :
    (op : OpCode) (pcb : Pcb) (rest : List ℕ)
    → IsPcb pcb
    → tras_operacion recibir_pcb
        (enviar_paquete (agregar_pcb_paquete (crear_paquete op) pcb) ++ rest)
      ≡ some ((llega (op_value op), pcb), rest)
unfolding recibir_pcb
recibir_pcb-agregar_pcb op pcb rest h =
    rw (enviar_paquete-Holds (agregar_pcb_paquete-Holds op pcb)) (
      tras_operacion-wire op leer_pcb pcb (pcb_bytes pcb) [] rest
        (omega (arith, length-stored pcb.recursos, h.short)) (leer_pcb_lem pcb h))
