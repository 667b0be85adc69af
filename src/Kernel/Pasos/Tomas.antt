-- ===== src/Kernel/Pasos/Tomas.antt =====
-- kernel/src/corto_plazo.c and largo_plazo.c: the waits of the two schedulers.
use so_project_c.Common.{
  ℕ, zero, suc, ◌≡◌, refl, ap, Option, none, some, List, arith, some_eq, suc_inv,
}
use mathlib.Core.Path.{subst}
use so_project_c.Kernel.State.{Kernel}
use so_project_c.Kernel.Corto.{tomar_ready}
use so_project_c.Kernel.Largo.{tomar_multi, tomar_new}
use so_project_c.Kernel.Cuentas.{IsConsistent}

pub none_inv {ℓ κ} :
    {B : Type κ} {A : Type ℓ} (o : Option B) (x : Option A) {r : A}
    → (elim o as (λ _. Option A) [ none ↦ x | some b ↦ none ]) ≡ some r
    → (o ≡ none) × (x ≡ some r)
none_inv none x e = (refl, e)
none_inv (some b) x e = cc

pub zero_inv {ℓ} :
    {A : Type ℓ} (n : ℕ) (x : Option A) {r : A}
    → (elim n as (λ _. Option A) [ suc m ↦ none | zero ↦ x ]) ≡ some r
    → (n ≡ 0) × (x ≡ some r)
zero_inv zero x e = (refl, e)
zero_inv (suc n) x e = cc

-- A scheduler that takes a post holds it.
pub tomar_ready-IsConsistent :
    (k : Kernel) {k' : Kernel} {h : List ℕ}
    → IsConsistent h k
    → tomar_ready k ≡ some k'
    → IsConsistent h k' × (k.running_pid ≡ k'.running_pid)
unfolding tomar_ready
tomar_ready-IsConsistent k {k'} {h} c e =
    let (_, e1) = none_inv k.running_pid _ e in
    let (none_yet, e2) = zero_inv k.tiene_ready _ e1 in
    let (n, ready, e3) = suc_inv k.hay_ready _ e2 in
    let same = some_eq e3 in
    (
      subst (λ x. IsConsistent h x) same
          (record {
            cuenta = c.cuenta;
            plazas = c.plazas;
            listos = omega (arith, c.listos, none_yet, ready);
            nuevos = c.nuevos;
            recursos = c.recursos;
            clientes = c.clientes;
          }),
      ap (λ x. x.running_pid) same,
    )

pub tomar_multi-IsConsistent :
    (k : Kernel) {k' : Kernel} {h : List ℕ}
    → IsConsistent h k
    → tomar_multi k ≡ some k'
    → IsConsistent h k' × (k.running_pid ≡ k'.running_pid)
unfolding tomar_multi
tomar_multi-IsConsistent k {k'} {h} c e =
    let (none_yet, e1) = zero_inv k.tiene_multi _ e in
    let (n, free, e2) = suc_inv k.cont_multi _ e1 in
    let same = some_eq e2 in
    (
      subst (λ x. IsConsistent h x) same
          (record {
            cuenta = c.cuenta;
            plazas = omega (arith, c.plazas, none_yet, free);
            listos = c.listos;
            nuevos = c.nuevos;
            recursos = c.recursos;
            clientes = c.clientes;
          }),
      ap (λ x. x.running_pid) same,
    )

pub tomar_new-IsConsistent :
    (k : Kernel) {k' : Kernel} {h : List ℕ}
    → IsConsistent h k
    → tomar_new k ≡ some k'
    → IsConsistent h k' × (k.running_pid ≡ k'.running_pid)
unfolding tomar_new
tomar_new-IsConsistent k {k'} {h} c e =
    let (m, held, e1) = suc_inv k.tiene_multi _ e in
    let (none_yet, e2) = zero_inv k.tiene_new _ e1 in
    let (n, news, e3) = suc_inv k.hay_new _ e2 in
    let same = some_eq e3 in
    (
      subst (λ x. IsConsistent h x) same
          (record {
            cuenta = c.cuenta;
            plazas = c.plazas;
            listos = c.listos;
            nuevos = omega (arith, c.nuevos, none_yet, news);
            recursos = c.recursos;
            clientes = c.clientes;
          }),
      ap (λ x. x.running_pid) same,
    )
