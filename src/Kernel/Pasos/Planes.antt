-- ===== src/Kernel/Pasos/Planes.antt =====
-- kernel/src/corto_plazo.c, largo_plazo.c, exit_proceso.c and quantum.c.
use so_project_c.Common.{
  ℕ, suc, ◌≡◌, refl, sym, ◌∙◌, ap, true, Option, none, some, List, [], ◌∷◌, arith, length, ◌⊎◌, inl,
  inr, bind_inv, some_eq, false_inv, suc_inv, cons_inv,
}
use mathlib.Core.Path.{subst}
use so_project_c.Common.Text.{get_text}
use so_project_c.Common.Counts.{mem}
use so_project_c.Protocol.Codes.{OpCode}
use so_project_c.Protocol.Pcb.{Pcb}
use so_project_c.Kernel.State.{Recurso, Ajustes, Kernel, a_ready}
use so_project_c.Kernel.Corto.{sumar_instancia, elegir, elegir_de, despachar}
use so_project_c.Kernel.Largo.{largo_main, liberar_recursos, nombres_de, memoria_finalizar_proceso}
use so_project_c.Kernel.Cuentas.{
  siempre, cuantos, IsConsistent, cuantos_push, length_push, cuantos-quitar,
}
use so_project_c.Kernel.Conserva.{sumar_instancia-IsConsistent}

abbrev pub manos : Option ℕ → List ℕ
manos none = []
manos (some p) = p ∷ []

-- The process on the CPU is in the hands of the short-term scheduler.
abbrev pub Consistente : Kernel → Type 0
Consistente k = IsConsistent (manos k.running_pid) k

nil_or_cons {ℓ} : {A : Type ℓ} (xs : List A) → (xs ≡ []) ⊎ ((y : A) × (ys : List A) × (xs ≡ y ∷ ys))
nil_or_cons [] = inl refl
nil_or_cons (y ∷ ys) = inr (y, ys, refl)

-- The process that is chosen leaves the queues for the hands; the count of the ready ones goes down with it.
elegir_de-cuenta :
    (k : Kernel) (prio ready : List ℕ) {r : ℕ × Kernel} {n : ℕ}
    → IsConsistent [] k
    → k.queue_priority_ready ≡ prio
    → k.queue_ready ≡ ready
    → k.tiene_ready ≡ suc n
    → elegir_de k prio ready ≡ some r
    → IsConsistent (r.0 ∷ []) (record (r.1) { tiene_ready = n })
unfolding elegir_de
elegir_de-cuenta k (p ∷ ps) ready {r} {n} c first _ e h =
    subst (λ x. IsConsistent (x.0 ∷ []) (record (x.1) { tiene_ready = n })) (some_eq h)
      (record {
        cuenta = λ f. omega (arith, c.cuenta f, ap (cuantos f) first);
        plazas = omega (arith, c.plazas, ap (cuantos siempre) first);
        listos = omega (arith, c.listos, e, ap length first);
        nuevos = c.nuevos;
        recursos = c.recursos;
        clientes = c.clientes;
      })
elegir_de-cuenta k [] (p ∷ ps) {r} {n} c _ first e h =
    subst (λ x. IsConsistent (x.0 ∷ []) (record (x.1) { tiene_ready = n })) (some_eq h)
      (record {
        cuenta = λ f. omega (arith, c.cuenta f, ap (cuantos f) first);
        plazas = omega (arith, c.plazas, ap (cuantos siempre) first);
        listos = omega (arith, c.listos, e, ap length first);
        nuevos = c.nuevos;
        recursos = c.recursos;
        clientes = c.clientes;
      })
elegir_de-cuenta k [] [] c _ _ e h = cc

otro_despacho :
    {h : List ℕ} (k : Kernel) (pcbs : ℕ → Pcb) (r t : Option ℕ)
    → IsConsistent h k
    → IsConsistent h (record k { pcbs = pcbs; running_pid = r; q_thread = t })
otro_despacho k pcbs r t c = record {
  cuenta = c.cuenta;
  plazas = c.plazas;
  listos = c.listos;
  nuevos = c.nuevos;
  recursos = c.recursos;
  clientes = c.clientes;
}

pub despachar-IsConsistent :
    (a : Ajustes) (k : Kernel) {r : Kernel × Pcb}
    → IsConsistent [] k
    → despachar a k ≡ some r
    → Consistente r.0
unfolding despachar
despachar-IsConsistent a k {r} c h =
    let h1 = false_inv k.is_stopped _ h in
    let (n, ready, h2) = suc_inv k.tiene_ready _ h1 in
    let ((p, k'), chosen, h3) = bind_inv (elegir k) _ h2 in
    let c' = elegir_de-cuenta k k.queue_priority_ready k.queue_ready c refl refl ready chosen in
    subst Consistente (ap (λ x. x.0) (some_eq h3))
      (otro_despacho (record k' { tiene_ready = n }) _ (some p) _ c')

pub largo_main-IsConsistent :
    (k : Kernel) {k' : Kernel} {h : List ℕ}
    → IsConsistent h k
    → largo_main k ≡ some k'
    → IsConsistent h k' × (k.running_pid ≡ k'.running_pid)
unfolding largo_main
largo_main-IsConsistent k {k'} {h} c e =
    let e1 = false_inv k.is_stopped _ e in
    let (m, free, e2) = suc_inv k.tiene_multi _ e1 in
    let (n, news, e3) = suc_inv k.tiene_new _ e2 in
    let (p, ps, first, e4) = cons_inv k.queue_new _ e3 in
    let same = some_eq e4 in
    (
      subst (λ x. IsConsistent h x) same
          (record {
            cuenta = λ f.
                omega (arith, c.cuenta f, ap (cuantos f) first, cuantos_push f k.queue_ready p);
            plazas = omega (arith, c.plazas, free, cuantos_push siempre k.queue_ready p);
            listos = omega (arith, c.listos, length_push k.queue_ready p);
            nuevos = omega (arith, c.nuevos, news, ap length first);
            recursos = c.recursos;
            clientes = c.clientes;
          }),
      ap (λ x. x.running_pid) same,
    )

-- Giving back an instance leaves the processes that end, and the one that runs, as they are.
sumar_otros :
    (a : Ajustes) (k : Kernel) (nombre : List ℕ) (r : Recurso)
    → ((sumar_instancia a k nombre r).salida ≡ k.salida)
      × ((sumar_instancia a k nombre r).running_pid ≡ k.running_pid)
unfolding sumar_instancia a_ready
sumar_otros a k nombre r = elim (nil_or_cons r.queue_waiting) [
  | inl empty ↦ rw (empty) (refl, refl)
  | inr (p, ps, first) ↦ rw (first) (refl, refl)
]

liberar-IsConsistent :
    (a : Ajustes) (k : Kernel) (nombres : List (List ℕ)) {k' : Kernel} {h : List ℕ}
    → IsConsistent h k
    → liberar_recursos a k nombres ≡ some k'
    → IsConsistent h k' × (k.salida ≡ k'.salida) × (k.running_pid ≡ k'.running_pid)
unfolding liberar_recursos
liberar-IsConsistent a k [] {k'} {h} c e =
    let same : k ≡ k' = some_eq e in
    (subst (λ x. IsConsistent h x) same c, ap (λ x. x.salida) same, ap (λ x. x.running_pid) same)
liberar-IsConsistent a k (nombre ∷ nombres) c e =
    let (r, found, next) = bind_inv (get_text nombre k.dict_recursos) _ e in
    let (c', s, p) =
      liberar-IsConsistent a (sumar_instancia a k nombre r) nombres
        (sumar_instancia-IsConsistent a k nombre r c found) next in
    let (s0, p0) = sumar_otros a k nombre r in (c', sym s0 ∙ s, sym p0 ∙ p)

pub memoria_finalizar-IsConsistent :
    (a : Ajustes) (k : Kernel) (p : ℕ) {k' : Kernel} {h : List ℕ}
    → IsConsistent h k
    → mem p k.salida ≡ true
    → memoria_finalizar_proceso a k p ≡ some k'
    → IsConsistent h k' × (k.running_pid ≡ k'.running_pid)
unfolding memoria_finalizar_proceso
memoria_finalizar-IsConsistent a k p {k'} {h} c leaving e =
    let e1 = false_inv k.is_stopped _ e in
    let (k1, freed, next) =
      bind_inv (liberar_recursos a k (nombres_de a (k.pcbs p).recursos)) _ e1 in
    let (c1, s, r) = liberar-IsConsistent a k _ c freed in
    let same = some_eq next in
    let there : mem p k1.salida ≡ true = rw (s) at leaving in
    (
      subst (λ x. IsConsistent h x) same
          (record {
            cuenta = λ f. omega (
              arith,
              c1.cuenta f,
              cuantos-quitar f p k1.salida there,
              cuantos_push f k1.terminados p,
            );
            plazas = c1.plazas;
            listos = c1.listos;
            nuevos = c1.nuevos;
            recursos = c1.recursos;
            clientes = c1.clientes;
          }),
      r ∙ ap (λ x. x.running_pid) same,
    )

-- Only the interrupts changed.
pub otra_interrupcion :
    {h : List ℕ} (k : Kernel) (i : Option (OpCode × ℕ)) (n : ℕ) (t : Option ℕ)
    → IsConsistent h k
    → IsConsistent h (record k { interrupt_pid = i; hay_interrupt = n; q_thread = t })
otra_interrupcion k i n t c = record {
  cuenta = c.cuenta;
  plazas = c.plazas;
  listos = c.listos;
  nuevos = c.nuevos;
  recursos = c.recursos;
  clientes = c.clientes;
}
