-- ===== src/Kernel/Pasos/Ordenes.antt =====
-- kernel/src/consola.c: the commands.
use so_project_c.Common.{
  ℕ, zero, suc, ◌+◌, ◌≡◌, refl, ap, Bool, true, false, Option, none, some, List, [], ◌∷◌, arith,
  length, inl, inr, Option-cases, Bool-cases, some_eq, suc_inv,
}
use mathlib.Core.Path.{subst}
use so_project_c.Common.Text.{suma, Todos}
use so_project_c.Common.Counts.{mem}
use so_project_c.Protocol.Io.{Io}
use so_project_c.Kernel.State.{
  Consola, ℤ, pos, negsuc, Recurso, IoClient, Kernel, mas_uno, finalizar_proceso,
}
use so_project_c.Kernel.Largo.{quitar}
use so_project_c.Kernel.Interfaces.{pids_io}
use so_project_c.Kernel.Consola.{
  cambiar_multiprogramacion, multi_change_waits, quitar_de_recursos, quitar_io,
  quitar_de_interfaces, en_interfaces, en_recursos, en_prioridad, en_ready, en_cpu, finalizar_pid,
  corre,
}
use so_project_c.Kernel.Cuentas.{
  siempre, debe, uno, cuantos, en_recurso, en_cliente, IsRecurso, IsCliente, IsConsistent,
  cuantos-quitar, length-quitar,
}
use so_project_c.Kernel.Conserva.{finalizar-IsConsistent}
use so_project_c.Kernel.Pasos.Planes.{otra_interrupcion}

-- Higher or lower, the places that the degree gains or loses are posted or waited for.
pub cambiar-IsConsistent :
    (k : Kernel) (new_multi : ℕ) {h : List ℕ}
    → IsConsistent h k
    → IsConsistent h (cambiar_multiprogramacion k new_multi)
unfolding cambiar_multiprogramacion
cambiar-IsConsistent k new_multi c = record {
  cuenta = c.cuenta;
  plazas = omega (arith, c.plazas);
  listos = c.listos;
  nuevos = c.nuevos;
  recursos = c.recursos;
  clientes = c.clientes;
}

pub multi_change_waits-IsConsistent :
    (k : Kernel) {k' : Kernel} {h : List ℕ}
    → IsConsistent h k
    → multi_change_waits k ≡ some k'
    → IsConsistent h k' × (k.running_pid ≡ k'.running_pid)
unfolding multi_change_waits
multi_change_waits-IsConsistent k {k'} {h} c e =
    let (n, left, e1) = suc_inv k.reducciones _ e in
    let (m, free, e2) = suc_inv k.cont_multi _ e1 in
    let same = some_eq e2 in
    (
      subst (λ x. IsConsistent h x) same
          (record {
            cuenta = c.cuenta;
            plazas = omega (arith, c.plazas, left, free);
            listos = c.listos;
            nuevos = c.nuevos;
            recursos = c.recursos;
            clientes = c.clientes;
          }),
      ap (λ x. x.running_pid) same,
    )

IsRecurso-quitar :
    (n : ℤ) (w : List ℕ) (p : ℕ)
    → IsRecurso (record { cant_instancias = n; queue_waiting = w })
    → mem p w ≡ true
    → IsRecurso (record { cant_instancias = mas_uno n; queue_waiting = quitar p w })
IsRecurso-quitar (pos n) w p h m = omega (arith, h, length-quitar p w m)
IsRecurso-quitar (negsuc zero) w p h m = omega (arith, h, length-quitar p w m)
IsRecurso-quitar (negsuc (suc n)) w p h m = omega (arith, h, length-quitar p w m)

-- The search takes the process out of one queue, with the instance that it waited for.
abbrev Sacado : ℕ → List (List ℕ × Recurso) → List (List ℕ × Recurso) → Type 0
Sacado p d d' =
    ((f : ℕ → Bool) → suma (en_recurso f) d' + uno (f p) ≡ suma (en_recurso f) d)
    × (Todos IsRecurso d → Todos IsRecurso d')

quitar_de_recursos-Sacado :
    (p : ℕ) (d : List (List ℕ × Recurso)) {d' : List (List ℕ × Recurso)}
    → quitar_de_recursos p d ≡ some d'
    → Sacado p d d'
unfolding quitar_de_recursos
quitar_de_recursos-Sacado p [] e = cc
quitar_de_recursos-Sacado p ((nombre, r) ∷ d) {d'} e = elim (Bool-cases (mem p r.queue_waiting)) [
  | inl here ↦
      subst (λ x. Sacado p ((nombre, r) ∷ d) x) (some_eq (rw (here) at e))
        (
          λ f. omega (arith, cuantos-quitar f p r.queue_waiting here),
          λ t. (IsRecurso-quitar r.cant_instancias r.queue_waiting p t.0 here, t.1),
        )
  | inr further ↦ elim (Option-cases (quitar_de_recursos p d)) [
    | inl missing ↦ absurd (ground (arith, further, missing))
    | inr (rest, found) ↦
        let (sums, valid) = quitar_de_recursos-Sacado p d found in
        subst (λ x. Sacado p ((nombre, r) ∷ d) x) (some_eq (rw (further, found) at e))
          (λ f. omega (arith, sums f), λ t. (t.0, valid t.1))
  ]
]

cuantos-quitar_io :
    (f : ℕ → Bool) (p : ℕ) (q : List (ℕ × Io))
    → mem p (pids_io q) ≡ true
    → cuantos f (pids_io (quitar_io p q)) + uno (f p) ≡ cuantos f (pids_io q)
cuantos-quitar_io f p [] h = cc
cuantos-quitar_io f p ((x, io) ∷ q) h = ground (arith, cuantos-quitar_io f p q)

length-quitar_io :
    (p : ℕ) (q : List (ℕ × Io)) → mem p (pids_io q) ≡ true → suc (length (quitar_io p q)) ≡ length q
length-quitar_io p [] h = cc
length-quitar_io p ((x, io) ∷ q) h = ground (arith, length-quitar_io p q)

abbrev Retirado : ℕ → List (List ℕ × IoClient) → List (List ℕ × IoClient) → Type 0
Retirado p d d' =
    ((f : ℕ → Bool) → suma (en_cliente f) d' ≡ suma (en_cliente f) d)
    × (Todos IsCliente d → Todos IsCliente d')

quitar_de_interfaces-Retirado :
    (p : ℕ) (d : List (List ℕ × IoClient)) {d' : List (List ℕ × IoClient)}
    → quitar_de_interfaces p d ≡ some d'
    → Retirado p d d'
unfolding quitar_de_interfaces
quitar_de_interfaces-Retirado p [] e = cc
quitar_de_interfaces-Retirado p ((nombre, client) ∷ d) {d'} e =
    elim (Bool-cases (mem p (pids_io client.queue_io))) [
      | inl here ↦
          subst (λ x. Retirado p ((nombre, client) ∷ d) x) (some_eq (rw (here) at e))
            (
              λ f. omega (arith, cuantos-quitar_io f p client.queue_io here),
              λ t. (omega (arith, t.0, length-quitar_io p client.queue_io here), t.1),
            )
      | inr further ↦ elim (Option-cases (quitar_de_interfaces p d)) [
        | inl missing ↦ absurd (ground (arith, further, missing))
        | inr (rest, found) ↦
            let (sums, valid) = quitar_de_interfaces-Retirado p d found in
            subst (λ x. Retirado p ((nombre, client) ∷ d) x) (some_eq (rw (further, found) at e))
              (λ f. omega (arith, sums f), λ t. (t.0, valid t.1))
      ]
    ]

sacar_de_recursos :
    (k : Kernel) (p : ℕ) (d : List (List ℕ × Recurso)) {h : List ℕ}
    → IsConsistent h k
    → quitar_de_recursos p k.dict_recursos ≡ some d
    → IsConsistent (p ∷ h) (record k { dict_recursos = d })
sacar_de_recursos k p d c found =
    let (sums, valid) = quitar_de_recursos-Sacado p k.dict_recursos found in
    record {
      cuenta = λ f. omega (arith, c.cuenta f, sums f);
      plazas = omega (arith, c.plazas, sums siempre);
      listos = c.listos;
      nuevos = c.nuevos;
      recursos = valid c.recursos;
      clientes = c.clientes;
    }

sacar_de_interfaces :
    (k : Kernel) (p : ℕ) (d : List (List ℕ × IoClient)) {h : List ℕ}
    → IsConsistent h k
    → quitar_de_interfaces p k.dict_io_clients ≡ some d
    → k.consola ≡ Consola.libre
    → IsConsistent h (record k { dict_io_clients = d; consola = Consola.espera_io })
sacar_de_interfaces k p d c found free =
    let (sums, valid) = quitar_de_interfaces-Retirado p k.dict_io_clients found in
    record {
      cuenta = λ f. omega (arith, c.cuenta f, sums f);
      plazas = omega (arith, c.plazas, sums siempre);
      listos = omega (arith, c.listos, ap debe free);
      nuevos = c.nuevos;
      recursos = c.recursos;
      clientes = valid c.clientes;
    }

-- What a command keeps: the state, and who runs.
abbrev pub Sigue : List ℕ → Kernel → Kernel → Type 0
Sigue h k k' = IsConsistent h k' × (k.running_pid ≡ k'.running_pid)

sacar_de_ready :
    (k : Kernel) (p : ℕ) {h : List ℕ}
    → IsConsistent h k
    → mem p k.queue_ready ≡ true
    → k.consola ≡ Consola.libre
    → IsConsistent
        (p ∷ h)
        (record k { queue_ready = quitar p k.queue_ready; consola = Consola.espera_ready })
sacar_de_ready k p c here free = record {
  cuenta = λ f. omega (arith, c.cuenta f, cuantos-quitar f p k.queue_ready here);
  plazas = omega (arith, c.plazas, cuantos-quitar siempre p k.queue_ready here);
  listos = omega (arith, c.listos, length-quitar p k.queue_ready here, ap debe free);
  nuevos = c.nuevos;
  recursos = c.recursos;
  clientes = c.clientes;
}

sacar_de_priority :
    (k : Kernel) (p : ℕ) {h : List ℕ}
    → IsConsistent h k
    → mem p k.queue_priority_ready ≡ true
    → k.consola ≡ Consola.libre
    → IsConsistent (p ∷ h) (record k {
      queue_priority_ready = quitar p k.queue_priority_ready;
      consola = Consola.espera_ready;
    })
sacar_de_priority k p c here free = record {
  cuenta = λ f. omega (arith, c.cuenta f, cuantos-quitar f p k.queue_priority_ready here);
  plazas = omega (arith, c.plazas, cuantos-quitar siempre p k.queue_priority_ready here);
  listos = omega (arith, c.listos, length-quitar p k.queue_priority_ready here, ap debe free);
  nuevos = c.nuevos;
  recursos = c.recursos;
  clientes = c.clientes;
}

en_interfaces-Sigue :
    (k : Kernel) (p : ℕ) (o : Option (List (List ℕ × IoClient))) {h : List ℕ}
    → IsConsistent h k
    → quitar_de_interfaces p k.dict_io_clients ≡ o
    → k.consola ≡ Consola.libre
    → Sigue h k (en_interfaces k p o)
unfolding en_interfaces finalizar_proceso
en_interfaces-Sigue k p (some d) c found free = (sacar_de_interfaces k p d c found free, refl)
en_interfaces-Sigue k p none c found free = (c, refl)

en_recursos-Sigue :
    (k : Kernel) (p : ℕ) (o : Option (List (List ℕ × Recurso))) {h : List ℕ}
    → IsConsistent h k
    → quitar_de_recursos p k.dict_recursos ≡ o
    → k.consola ≡ Consola.libre
    → Sigue h k (en_recursos k p o)
unfolding en_recursos finalizar_proceso
en_recursos-Sigue k p (some d) c found free =
    (finalizar-IsConsistent _ p (sacar_de_recursos k p d c found), refl)
en_recursos-Sigue k p none c found free = en_interfaces-Sigue k p _ c refl free

en_prioridad-Sigue :
    (k : Kernel) (p : ℕ) (b : Bool) {h : List ℕ}
    → IsConsistent h k
    → mem p k.queue_priority_ready ≡ b
    → k.consola ≡ Consola.libre
    → Sigue h k (en_prioridad k p b)
unfolding en_prioridad finalizar_proceso
en_prioridad-Sigue k p true c here free =
    (finalizar-IsConsistent _ p (sacar_de_priority k p c here free), refl)
en_prioridad-Sigue k p false c here free = en_recursos-Sigue k p _ c refl free

en_ready-Sigue :
    (k : Kernel) (p : ℕ) (b : Bool) {h : List ℕ}
    → IsConsistent h k
    → mem p k.queue_ready ≡ b
    → k.consola ≡ Consola.libre
    → Sigue h k (en_ready k p b)
unfolding en_ready finalizar_proceso
en_ready-Sigue k p true c here free =
    (finalizar-IsConsistent _ p (sacar_de_ready k p c here free), refl)
en_ready-Sigue k p false c here free = en_prioridad-Sigue k p _ c refl free

en_cpu-Sigue :
    (k : Kernel) (p : ℕ) (b : Bool) {h : List ℕ}
    → IsConsistent h k
    → k.consola ≡ Consola.libre
    → Sigue h k (en_cpu k p b)
unfolding en_cpu
en_cpu-Sigue k p true c free = (otra_interrupcion k _ _ k.q_thread c, refl)
en_cpu-Sigue k p false c free = en_ready-Sigue k p _ c refl free

pub finalizar_pid-IsConsistent :
    (k : Kernel) (p : ℕ) {h : List ℕ}
    → IsConsistent h k
    → k.consola ≡ Consola.libre
    → Sigue h k (finalizar_pid k p)
unfolding finalizar_pid
finalizar_pid-IsConsistent k p c free = en_cpu-Sigue k p (corre k.running_pid p) c free
