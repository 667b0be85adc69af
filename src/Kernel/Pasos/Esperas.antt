-- ===== src/Kernel/Pasos/Esperas.antt =====
-- kernel/src/io.c and kernel/src/consola.c.
use so_project_c.Common.{
  ℕ, suc, ◌<◌, ◌≡◌, refl, ◌∙◌, ap, Option, none, some, List, ◌∷◌, ◌++◌, arith, length, bind_inv,
  some_eq, false_inv, suc_inv, cons_inv, u32_mod, ◌%◌,
}
use mathlib.Core.Path.{subst}
use so_project_c.Common.Text.{
  get_text, put_text, remove_text, suma-put_text_new, suma-remove_text, Todos-get_text,
  Todos-put_text, Todos-remove_text,
}
use so_project_c.Protocol.Codes.{OpCode}
use so_project_c.Protocol.Io.{Io}
use so_project_c.Kernel.State.{IoClient, Ajustes, Kernel, a_ready, enviar_new, finalizar_proceso}
use so_project_c.Kernel.Interfaces.{
  cliente_nuevo, alta_interfaz, esperar_io, tomar_io, responder_io, segun_respuesta, pids_io,
}
use so_project_c.Kernel.Pasos.Tomas.{none_inv, zero_inv}
use so_project_c.Kernel.Cuentas.{
  siempre, cuantos, cuanto, en_cliente, creados, IsCliente, IsConsistent, cuantos_push,
  cuantos-append, length_push,
}
use so_project_c.Kernel.Conserva.{
  a_ready-IsConsistent, finalizar-IsConsistent, cliente-IsConsistent,
}

pub enviar_new-IsConsistent :
    (a : Ajustes) (k : Kernel) {h : List ℕ}
    → IsConsistent h k
    → suc k.next_pid < u32_mod
    → IsConsistent h (enviar_new a k)
unfolding enviar_new
enviar_new-IsConsistent a k c small =
    let next : suc k.next_pid % u32_mod ≡ suc k.next_pid = mod_small (suc k.next_pid) small in
    record {
      cuenta = λ f.
          omega (arith, c.cuenta f, cuantos_push f k.queue_new k.next_pid, ap (creados f) next);
      plazas = c.plazas;
      listos = c.listos;
      nuevos = omega (arith, c.nuevos, length_push k.queue_new k.next_pid);
      recursos = c.recursos;
      clientes = c.clientes;
    }
  where
    mod_small : (n : ℕ) → n < u32_mod → n % u32_mod ≡ n
    mod_small n l = omega arith

pub alta_interfaz-IsConsistent :
    (k : Kernel) (nombre : List ℕ) {h : List ℕ}
    → IsConsistent h k
    → get_text nombre k.dict_io_clients ≡ none
    → IsConsistent h (alta_interfaz k nombre)
unfolding alta_interfaz
alta_interfaz-IsConsistent k nombre c fresh = record {
  cuenta = λ f.
      omega (arith, c.cuenta f, suma-put_text_new (en_cliente f) nombre _ k.dict_io_clients fresh);
  plazas =
      omega
        (arith, c.plazas, suma-put_text_new (en_cliente siempre) nombre _ k.dict_io_clients fresh);
  listos = c.listos;
  nuevos = c.nuevos;
  recursos = c.recursos;
  clientes = Todos-put_text IsCliente nombre cliente_nuevo k.dict_io_clients c.clientes refl;
}

-- The thread of an interface that takes a post holds it.
pub esperar_io-IsConsistent :
    (k : Kernel) (nombre : List ℕ) {k' : Kernel} {h : List ℕ}
    → IsConsistent h k
    → esperar_io k nombre ≡ some k'
    → IsConsistent h k' × (k.running_pid ≡ k'.running_pid)
unfolding esperar_io
esperar_io-IsConsistent k nombre {k'} {h} c e =
    let (client, found, e1) = bind_inv (get_text nombre k.dict_io_clients) _ e in
    let (_, e2) = none_inv client.en_curso _ e1 in
    let (none_yet, e3) = zero_inv client.tiene_io _ e2 in
    let (n, waiting, e4) = suc_inv client.hay_io _ e3 in
    let same = some_eq e4 in
    let valid = Todos-get_text IsCliente nombre client k.dict_io_clients c.clientes found in
    (
      subst (λ x. IsConsistent h x) same
          (cliente-IsConsistent k nombre client _ c found (omega (arith, valid, none_yet, waiting))
            (λ f. refl)),
      ap (λ x. x.running_pid) same,
    )

pub tomar_io-IsConsistent :
    (k : Kernel) (nombre : List ℕ) {r : Kernel × ℕ × Io} {h : List ℕ}
    → IsConsistent h k
    → tomar_io k nombre ≡ some r
    → IsConsistent h r.0 × (k.running_pid ≡ r.0.running_pid)
unfolding tomar_io
tomar_io-IsConsistent k nombre {r} {h} c e =
    let e1 = false_inv k.is_stopped _ e in
    let (client, found, e2) = bind_inv (get_text nombre k.dict_io_clients) _ e1 in
    let (idle, e3) = none_inv client.en_curso _ e2 in
    let (n, waiting, e4) = suc_inv client.tiene_io _ e3 in
    let ((p, io), ios, first, e5) = cons_inv client.queue_io _ e4 in
    let same = ap (λ x. x.0) (some_eq e5) in
    let valid = Todos-get_text IsCliente nombre client k.dict_io_clients c.clientes found in
    (
      subst (λ x. IsConsistent h x) same
          (cliente-IsConsistent k nombre client _ c found
            (omega (arith, valid, waiting, ap length first))
            (λ f. omega (arith, ap (λ q. cuantos f (pids_io q)) first, ap (cuanto f) idle))),
      ap (λ x. x.running_pid) same,
    )

-- The interface that is lost leaves its queue to nobody.
perder-IsConsistent :
    (k : Kernel) (nombre : List ℕ) (client : IoClient) (p : ℕ) {h : List ℕ}
    → IsConsistent h k
    → get_text nombre k.dict_io_clients ≡ some client
    → client.en_curso ≡ some p
    → IsConsistent (p ∷ h) (record k {
      dict_io_clients = remove_text nombre k.dict_io_clients;
      abandonados = k.abandonados ++ (pids_io client.queue_io ++ client.salientes);
    })
perder-IsConsistent k nombre client p c found busy = record {
  cuenta = λ f. omega (
    arith,
    c.cuenta f,
    ap (cuanto f) busy,
    suma-remove_text (en_cliente f) nombre client k.dict_io_clients found,
    cuantos-append f k.abandonados (pids_io client.queue_io ++ client.salientes),
    cuantos-append f (pids_io client.queue_io) client.salientes,
  );
  plazas = omega (
    arith,
    c.plazas,
    ap (cuanto siempre) busy,
    suma-remove_text (en_cliente siempre) nombre client k.dict_io_clients found,
    cuantos-append siempre k.abandonados (pids_io client.queue_io ++ client.salientes),
    cuantos-append siempre (pids_io client.queue_io) client.salientes,
  );
  listos = c.listos;
  nuevos = c.nuevos;
  recursos = c.recursos;
  clientes = Todos-remove_text IsCliente nombre k.dict_io_clients c.clientes;
}

-- The process of the request that is done comes into the hands of the thread.
soltar-IsConsistent :
    (k : Kernel) (nombre : List ℕ) (client : IoClient) (p : ℕ) {h : List ℕ}
    → IsConsistent h k
    → get_text nombre k.dict_io_clients ≡ some client
    → client.en_curso ≡ some p
    → IsConsistent (p ∷ h) (record k {
      dict_io_clients = put_text nombre (record client { en_curso = none }) k.dict_io_clients;
    })
soltar-IsConsistent k nombre client p c found busy =
    cliente-IsConsistent k nombre client _ c found
      (Todos-get_text IsCliente nombre client k.dict_io_clients c.clientes found)
      (λ f. omega (arith, ap (cuanto f) busy))

segun_respuesta-IsConsistent :
    (a : Ajustes) (k : Kernel) (nombre : List ℕ) (client : IoClient) (p : ℕ) (op : Option OpCode)
    {h : List ℕ}
    → IsConsistent h k
    → get_text nombre k.dict_io_clients ≡ some client
    → client.en_curso ≡ some p
    → IsConsistent h (segun_respuesta a k nombre client p op)
      × (k.running_pid ≡ (segun_respuesta a k nombre client p op).running_pid)
unfolding segun_respuesta a_ready finalizar_proceso
segun_respuesta-IsConsistent a k nombre client p (some OpCode.io_error) c found busy =
    (finalizar-IsConsistent _ p (soltar-IsConsistent k nombre client p c found busy), refl)
segun_respuesta-IsConsistent a k nombre client p (some OpCode.io_success) c found busy =
    (a_ready-IsConsistent a _ p (soltar-IsConsistent k nombre client p c found busy), refl)
segun_respuesta-IsConsistent a k nombre client p _ c found busy =
    (finalizar-IsConsistent _ p (perder-IsConsistent k nombre client p c found busy), refl)

pub responder_io-IsConsistent :
    (a : Ajustes) (k : Kernel) (nombre : List ℕ) (op : Option OpCode) {k' : Kernel} {h : List ℕ}
    → IsConsistent h k
    → responder_io a k nombre op ≡ some k'
    → IsConsistent h k' × (k.running_pid ≡ k'.running_pid)
unfolding responder_io
responder_io-IsConsistent a k nombre op {k'} {h} c e =
    let e1 = false_inv k.is_stopped _ e in
    let (client, found, e2) = bind_inv (get_text nombre k.dict_io_clients) _ e1 in
    let (p, busy, e3) = bind_inv client.en_curso _ e2 in
    let (c', same) = segun_respuesta-IsConsistent a k nombre client p op c found busy in
    (subst (λ x. IsConsistent h x) (some_eq e3) c', same ∙ ap (λ x. x.running_pid) (some_eq e3))
