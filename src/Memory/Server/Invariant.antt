-- ===== src/Memory/Server/Invariant.antt =====
-- Every request keeps the invariant of the memory, and so does everything that a connection brings.
use so_project_c.Common.{
  bind_inv, ℕ, ◌≡◌, sym, ◌∙◌, Option, none, some, List, [], ◌∷◌, arith, length, Option-cases, inl,
  inr, some_eq,
}
use mathlib.Core.Path.{subst}
use so_project_c.Common.BitArray.{BitArray}
use so_project_c.Common.Dict.{get}
use so_project_c.Common.Memcpy.{copy_to, copy_to_lem}
use so_project_c.Protocol.Codes.{OpCode}
use so_project_c.Protocol.Mem.{
  InitPid, recibir_init_process, recibir_mem_write, recibir_mem_read, recibir_pid_con_uint32,
}
use so_project_c.Memory.State.{Memoria, redimensionar, liberar, escribir, alta}
use so_project_c.Common.{read_u32}
use so_project_c.Protocol.Receive.{recibir_mensaje}
use so_project_c.Memory.State.{marco, leer}
use so_project_c.Memory.Scripts.{
  open_file, leer_texto, get_instruction_pid, leer_script, Entorno, leer_archivo,
}
use so_project_c.Memory.Ownership.{IsValid}
use so_project_c.Memory.Ownership.Resize.{redimensionar-IsValid, liberar-IsValid, alta-IsValid}
use so_project_c.Memory.Server.{
  resize_process, liberar_memoria, init_proceso, init_script, get_pid_page, escribir_memoria,
  leer_memoria, get_instruction, atender,
}

module _ {B : BitArray} where
  redimensionar_keeps :
      (m : Memoria B) (pid new_size : ℕ) {r : Memoria B × OpCode}
      → IsValid m
      → redimensionar m pid new_size ≡ some r
      → IsValid r.0
  unfolding redimensionar
  redimensionar_keeps m pid new_size {r} v e = elim (Option-cases (get pid m.memoria_procesos)) [
    | inl missing ↦ absurd (ground (arith, missing))
    | inr (p, found) ↦
        let s = redimensionar-IsValid m pid new_size p v found in
        subst (λ x. IsValid x) (some-fst (sym s.returns ∙ e)) s.valid
  ]
    where
      some-fst : {a b : Memoria B × OpCode} → some a ≡ some b → a.0 ≡ b.0
      some-fst h = ground arith

  liberar_keeps :
      (m : Memoria B) (pid : ℕ) {m' : Memoria B} → IsValid m → liberar m pid ≡ some m' → IsValid m'
  unfolding liberar
  liberar_keeps m pid {m'} v e = elim (Option-cases (get pid m.memoria_procesos)) [
    | inl missing ↦ absurd (ground (arith, missing))
    | inr (p, found) ↦
        let s = liberar-IsValid m pid p v found in
        subst (λ x. IsValid x) (some_eq (sym s.returns ∙ e)) s.valid
  ]

  escribir_keeps :
      (m : Memoria B) (direccion : ℕ) (value : List ℕ) {m' : Memoria B}
      → IsValid m
      → escribir m direccion value ≡ some m'
      → IsValid m'
  unfolding escribir
  escribir_keeps m direccion value {m'} v e =
      elim (Option-cases (copy_to m.memoria_usuario direccion value)) [
        | inl fault ↦ absurd (ground (arith, fault))
        | inr (bytes, done) ↦
            let size : length bytes ≡ length m.memoria_usuario =
              (copy_to_lem m.memoria_usuario direccion value bytes 0 done).0 in
            let next : record m { memoria_usuario = bytes } ≡ m' = ground (arith, done) in
            subst (λ x. IsValid x) next
              (record {
                exact = v.exact;
                inside = v.inside;
                keyed = v.keyed;
                room = rw size v.room;
                page_pos = v.page_pos;
              })
      ]

  resize_process_keeps :
      (m : Memoria B) (bs : List ℕ) {r : Memoria B × List ℕ × List ℕ}
      → IsValid m
      → resize_process m bs ≡ some r
      → IsValid r.0
  unfolding resize_process
  resize_process_keeps m bs {r} v e =
      let (req, _, e1) = bind_inv (recibir_pid_con_uint32 bs) _ e in
      let (served, d, e2) = bind_inv (redimensionar m req.0.0 req.0.1) _ e1 in
      let same : served.0 ≡ r.0 = ground arith in
      subst (λ x. IsValid x) same (redimensionar_keeps m req.0.0 req.0.1 v d)

  liberar_memoria_keeps :
      (m : Memoria B) (bs : List ℕ) {r : Memoria B × List ℕ × List ℕ}
      → IsValid m
      → liberar_memoria m bs ≡ some r
      → IsValid r.0
  unfolding liberar_memoria
  liberar_memoria_keeps m bs {r} v e =
      let (a, _, e1) = bind_inv (read_u32 bs) _ e in
      let (b, _, e2) = bind_inv (read_u32 a.1) _ e1 in
      let (m', d, e3) = bind_inv (liberar m b.0) _ e2 in
      let same : m' ≡ r.0 = ground arith in subst (λ x. IsValid x) same (liberar_keeps m b.0 v d)

  escribir_memoria_keeps :
      (m : Memoria B) (bs : List ℕ) {r : Memoria B × List ℕ × List ℕ}
      → IsValid m
      → escribir_memoria m bs ≡ some r
      → IsValid r.0
  unfolding escribir_memoria
  escribir_memoria_keeps m bs {r} v e =
      let (a, _, e1) = bind_inv (recibir_mem_write bs) _ e in
      let (m', d, e2) = bind_inv (escribir m a.0.0 a.0.1) _ e1 in
      let same : m' ≡ r.0 = ground arith in
      subst (λ x. IsValid x) same (escribir_keeps m a.0.0 a.0.1 v d)

  leer_archivo_keeps :
      (e : Entorno) (m : Memoria B) (pid : ℕ) (nombre : List ℕ) {r : Memoria B × OpCode}
      → IsValid m
      → get pid m.memoria_procesos ≡ none
      → leer_archivo e m pid nombre ≡ some r
      → IsValid r.0
  unfolding leer_archivo
  leer_archivo_keeps e m pid nombre {r} v fresh h = elim (Option-cases (open_file e nombre)) [
    | inl missing ↦ let same : m ≡ r.0 = ground (arith, missing) in subst (λ x. IsValid x) same v
    | inr (archivo, found) ↦ elim (Option-cases (leer_texto archivo)) [
      | inl stuck ↦ absurd (ground (arith, found, stuck))
      | inr (texto, done) ↦
          let same : alta m pid (e.string_split texto (10 ∷ [])) ≡ r.0 =
            ground (arith, found, done) in
          subst (λ x. IsValid x) same (alta-IsValid m pid (e.string_split texto (10 ∷ [])) v fresh)
    ]
  ]

  -- The process that a request for a start names does not exist yet: the kernel numbers its processes.
  abbrev pub EsNuevo : Memoria B → List ℕ → Type 0
  EsNuevo m bs =
      (p : InitPid) (rest : List ℕ)
      → recibir_init_process bs ≡ some (p, rest)
      → get p.pid m.memoria_procesos ≡ none

  init_proceso_keeps :
      (e : Entorno) (m : Memoria B) (bs : List ℕ) {r : Memoria B × List ℕ × List ℕ}
      → IsValid m
      → EsNuevo m bs
      → init_proceso e m bs ≡ some r
      → IsValid r.0
  unfolding init_proceso
  init_proceso_keeps e m bs {r} v fresh h =
      let (a, d, e1) = bind_inv (recibir_init_process bs) _ h in
      let (served, d', e2) = bind_inv (leer_archivo e m a.0.pid a.0.path) _ e1 in
      let same : served.0 ≡ r.0 = ground arith in
      subst (λ x. IsValid x) same (leer_archivo_keeps e m a.0.pid a.0.path v (fresh a.0 a.1 d) d')

  -- The requests that only read.
  get_pid_page_keeps :
      (m : Memoria B) (bs : List ℕ) {r : Memoria B × List ℕ × List ℕ}
      → get_pid_page m bs ≡ some r
      → m ≡ r.0
  unfolding get_pid_page
  get_pid_page_keeps m bs h =
      let (a, _, e1) = bind_inv (recibir_pid_con_uint32 bs) _ h in
      let (b, _, e2) = bind_inv (marco m a.0.0 a.0.1) _ e1 in ground arith

  leer_memoria_keeps :
      (m : Memoria B) (bs : List ℕ) {r : Memoria B × List ℕ × List ℕ}
      → leer_memoria m bs ≡ some r
      → m ≡ r.0
  unfolding leer_memoria
  leer_memoria_keeps m bs h =
      let (a, _, e1) = bind_inv (recibir_mem_read bs) _ h in
      let (b, _, e2) = bind_inv (leer m a.0.0 a.0.1) _ e1 in ground arith

  get_instruction_keeps :
      (e : Entorno) (m : Memoria B) (bs : List ℕ) {r : Memoria B × List ℕ × List ℕ}
      → get_instruction e m bs ≡ some r
      → m ≡ r.0
  unfolding get_instruction
  get_instruction_keeps e m bs h =
      let (a, _, e1) = bind_inv (recibir_pid_con_uint32 bs) _ h in
      let (b, _, e2) = bind_inv (get_instruction_pid e m a.0.0 a.0.1) _ e1 in ground arith

  init_script_keeps :
      (e : Entorno) (m : Memoria B) (bs : List ℕ) {r : Memoria B × List ℕ × List ℕ}
      → init_script e m bs ≡ some r
      → m ≡ r.0
  unfolding init_script
  init_script_keeps e m bs h =
      let (a, _, e1) = bind_inv (recibir_mensaje bs) _ h in
      let (b, _, e2) = bind_inv (leer_script e a.0) _ e1 in ground arith

  descartar_keeps :
      (e : Entorno) (m : Memoria B) (bs : List ℕ) {r : Memoria B × List ℕ × List ℕ}
      → atender e (some OpCode.mensaje) m bs ≡ some r
      → m ≡ r.0
  unfolding atender
  descartar_keeps e m bs h = let (a, _, e1) = bind_inv (recibir_mensaje bs) _ h in ground arith

  moved : {m m' : Memoria B} → IsValid m → m ≡ m' → IsValid m'
  moved v e = subst (λ x. IsValid x) e v

  -- What a request may assume: a start names a new process, the others nothing.
  abbrev pub Admisible : Option OpCode → Memoria B → List ℕ → Type 0
  Admisible (some OpCode.init_pid) m bs = EsNuevo m bs
  Admisible _ m bs = Unit {0}

  -- If the memory is valid, the request is answered, and a request to start a process names one
  -- that does not exist yet, then the memory that the request leaves is valid, whatever the
  -- request is.
  pub atender-IsValid :
      (e : Entorno) (op : Option OpCode) (m : Memoria B) (bs : List ℕ)
      {r : Memoria B × List ℕ × List ℕ}
      → IsValid m
      → Admisible op m bs
      → atender e op m bs ≡ some r
      → IsValid r.0
  unfolding atender
  atender-IsValid e (some OpCode.mem_resize) m bs v f h = resize_process_keeps m bs v h
  atender-IsValid e (some OpCode.mem_write) m bs v f h = escribir_memoria_keeps m bs v h
  atender-IsValid e (some OpCode.init_pid) m bs v f h = init_proceso_keeps e m bs v f h
  atender-IsValid e (some OpCode.end_pid) m bs v f h = liberar_memoria_keeps m bs v h
  atender-IsValid e (some OpCode.mem_pid_page) m bs v f h = moved v (get_pid_page_keeps m bs h)
  atender-IsValid e (some OpCode.mem_read) m bs v f h = moved v (leer_memoria_keeps m bs h)
  atender-IsValid e (some OpCode.instruction) m bs v f h = moved v (get_instruction_keeps e m bs h)
  atender-IsValid e (some OpCode.init_script) m bs v f h = moved v (init_script_keeps e m bs h)
  atender-IsValid e (some OpCode.mensaje) m bs v f h = moved v (descartar_keeps e m bs h)
  atender-IsValid e _ m bs v f h = moved v (ground arith)
