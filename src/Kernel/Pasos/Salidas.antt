-- ===== src/Kernel/Pasos/Salidas.antt =====
-- kernel/src/consola.c: the waits of the console behind the end of a process.
use so_project_c.Common.{
  ℕ, ◌≡◌, ap, some, List, ◌∷◌, arith, length, some_eq, suc_inv, bind_inv, cons_inv,
}
use mathlib.Core.Path.{subst}
use so_project_c.Common.Text.{get_text, Todos-get_text}
use so_project_c.Kernel.State.{Consola, Kernel, finalizar_proceso}
use so_project_c.Kernel.Consola.{seguir_ready, seguir_io}
use so_project_c.Kernel.Cuentas.{debe, cuantos, IsCliente, IsConsistent}
use so_project_c.Kernel.Conserva.{finalizar-IsConsistent, cliente-IsConsistent}
use so_project_c.Kernel.Pasos.Ordenes.{Sigue}

-- The waits that the console makes behind the search.
pub seguir_ready-IsConsistent :
    (k : Kernel) (w : Consola) {k' : Kernel} {h : List ℕ}
    → IsConsistent h k
    → k.consola ≡ w
    → seguir_ready k w ≡ some k'
    → Sigue h k k'
unfolding seguir_ready
seguir_ready-IsConsistent k Consola.espera_ready {k'} {h} c at e =
    let (n, ready, e1) = suc_inv k.hay_ready _ e in
    let same = some_eq e1 in
    (
      subst (λ x. IsConsistent h x) same
          (record {
            cuenta = c.cuenta;
            plazas = c.plazas;
            listos = omega (arith, c.listos, ready, ap debe at);
            nuevos = c.nuevos;
            recursos = c.recursos;
            clientes = c.clientes;
          }),
      ap (λ x. x.running_pid) same,
    )
seguir_ready-IsConsistent k _ c at e = cc

desocupar :
    (k : Kernel) {h : List ℕ}
    → IsConsistent h k
    → k.consola ≡ Consola.espera_io
    → IsConsistent h (record k { consola = Consola.libre })
desocupar k c at = record {
  cuenta = c.cuenta;
  plazas = c.plazas;
  listos = omega (arith, c.listos, ap debe at);
  nuevos = c.nuevos;
  recursos = c.recursos;
  clientes = c.clientes;
}

pub seguir_io-IsConsistent :
    (k : Kernel) (nombre : List ℕ) (w : Consola) {k' : Kernel} {h : List ℕ}
    → IsConsistent h k
    → k.consola ≡ w
    → seguir_io k nombre w ≡ some k'
    → Sigue h k k'
unfolding seguir_io finalizar_proceso
seguir_io-IsConsistent k nombre Consola.espera_io {k'} {h} c at e =
    let (client, found, e1) = bind_inv (get_text nombre k.dict_io_clients) _ e in
    let (n, waiting, e2) = suc_inv client.hay_io _ e1 in
    let (p, ps, first, e3) = cons_inv client.salientes _ e2 in
    let same = some_eq e3 in
    let valid = Todos-get_text IsCliente nombre client k.dict_io_clients c.clientes found in
    (
      subst (λ x. IsConsistent h x) same
          (finalizar-IsConsistent _ p (
            desocupar _
              (cliente-IsConsistent k nombre client _ {h' = p ∷ h} c found
                (omega (arith, valid, waiting, ap length first))
                (λ f. omega (arith, ap (cuantos f) first)))
              at)),
      ap (λ x. x.running_pid) same,
    )
seguir_io-IsConsistent k nombre _ c at e = cc
