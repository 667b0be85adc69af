-- ===== src/Kernel/Conserva.antt =====
-- kernel/src: the functions that take a process out of the hands of a thread, and those that give back an instance.
use so_project_c.Common.{ℕ, zero, suc, ◌+◌, ◌≡◌, refl, Bool, some, List, [], ◌∷◌, arith}
use so_project_c.Common.Text.{get_text, put_text, suma-put_text, Todos-get_text, Todos-put_text}
use so_project_c.Kernel.State.{
  ℤ, pos, negsuc, Recurso, IoClient, Ajustes, Kernel, a_ready, finalizar_proceso, mas_uno,
}
use so_project_c.Kernel.Corto.{sumar_instancia}
use so_project_c.Kernel.Cuentas.{
  siempre, cuantos, en_recurso, en_cliente, IsRecurso, IsCliente, IsConsistent, cuantos_push,
  length_push,
}

-- What a consistent state says does not read the store.
pub a_ready-IsConsistent :
    (a : Ajustes) (k : Kernel) (p : ℕ) {h : List ℕ}
    → IsConsistent (p ∷ h) k
    → IsConsistent h (a_ready a k p)
unfolding a_ready
a_ready-IsConsistent a k p {h} c = record {
  cuenta = λ f.
      ground (
        arith,
        c.cuenta f,
        cuantos_push f k.queue_ready p,
        cuantos_push f k.queue_priority_ready p,
      );
  plazas = ground (
    arith,
    c.plazas,
    cuantos_push siempre k.queue_ready p,
    cuantos_push siempre k.queue_priority_ready p,
  );
  listos =
      ground (arith, c.listos, length_push k.queue_ready p, length_push k.queue_priority_ready p);
  nuevos = c.nuevos;
  recursos = c.recursos;
  clientes = c.clientes;
}

pub finalizar-IsConsistent :
    (k : Kernel) (p : ℕ) {h : List ℕ}
    → IsConsistent (p ∷ h) k
    → IsConsistent h (finalizar_proceso k p)
unfolding finalizar_proceso
finalizar-IsConsistent k p {h} c = record {
  cuenta = λ f. omega (arith, c.cuenta f, cuantos_push f k.salida p);
  plazas = omega (arith, c.plazas);
  listos = c.listos;
  nuevos = c.nuevos;
  recursos = c.recursos;
  clientes = c.clientes;
}

-- A change of one resource that takes processes from the hands `h` and leaves `h'` there.
pub recurso-IsConsistent :
    (k : Kernel) (nombre : List ℕ) (r r' : Recurso) {h h' : List ℕ}
    → IsConsistent h k
    → get_text nombre k.dict_recursos ≡ some r
    → IsRecurso r'
    → ((f : ℕ → Bool) → en_recurso f r' + cuantos f h' ≡ en_recurso f r + cuantos f h)
    → IsConsistent h' (record k { dict_recursos = put_text nombre r' k.dict_recursos })
recurso-IsConsistent k nombre r r' {h} {h'} c e valid same = record {
  cuenta = λ f.
      omega (arith, c.cuenta f, same f, suma-put_text (en_recurso f) nombre r r' k.dict_recursos e);
  plazas = omega (
    arith,
    c.plazas,
    same siempre,
    suma-put_text (en_recurso siempre) nombre r r' k.dict_recursos e,
  );
  listos = c.listos;
  nuevos = c.nuevos;
  recursos = Todos-put_text IsRecurso nombre r' k.dict_recursos c.recursos valid;
  clientes = c.clientes;
}

-- The same of one interface.
pub cliente-IsConsistent :
    (k : Kernel) (nombre : List ℕ) (r r' : IoClient) {h h' : List ℕ}
    → IsConsistent h k
    → get_text nombre k.dict_io_clients ≡ some r
    → IsCliente r'
    → ((f : ℕ → Bool) → en_cliente f r' + cuantos f h' ≡ en_cliente f r + cuantos f h)
    → IsConsistent h' (record k { dict_io_clients = put_text nombre r' k.dict_io_clients })
cliente-IsConsistent k nombre r r' {h} {h'} c e valid same = record {
  cuenta = λ f.
      omega
        (arith, c.cuenta f, same f, suma-put_text (en_cliente f) nombre r r' k.dict_io_clients e);
  plazas = omega (
    arith,
    c.plazas,
    same siempre,
    suma-put_text (en_cliente siempre) nombre r r' k.dict_io_clients e,
  );
  listos = c.listos;
  nuevos = c.nuevos;
  recursos = c.recursos;
  clientes = Todos-put_text IsCliente nombre r' k.dict_io_clients c.clientes valid;
}

-- An instance more, with the first of those that wait taken off.
pub IsRecurso-mas_uno :
    (n : ℤ) (p : ℕ) (ps : List ℕ)
    → IsRecurso (record { cant_instancias = n; queue_waiting = p ∷ ps })
    → IsRecurso (record { cant_instancias = mas_uno n; queue_waiting = ps })
IsRecurso-mas_uno (pos n) p ps h = absurd (omega arith)
IsRecurso-mas_uno (negsuc zero) p ps h = omega arith
IsRecurso-mas_uno (negsuc (suc n)) p ps h = omega arith

IsRecurso-mas_uno_libre :
    (n : ℤ)
    → IsRecurso (record { cant_instancias = n; queue_waiting = [] })
    → IsRecurso (record { cant_instancias = mas_uno n; queue_waiting = [] })
IsRecurso-mas_uno_libre (pos n) h = refl
IsRecurso-mas_uno_libre (negsuc n) h = absurd (omega arith)

sumar_con :
    (a : Ajustes) (k : Kernel) (nombre : List ℕ) (n : ℤ) (w : List ℕ) {h : List ℕ}
    → IsConsistent h k
    → get_text nombre k.dict_recursos ≡ some (record { cant_instancias = n; queue_waiting = w })
    → IsConsistent h
        (sumar_instancia a k nombre (record { cant_instancias = n; queue_waiting = w }))
unfolding sumar_instancia
sumar_con a k nombre n [] c e =
    let valid = Todos-get_text IsRecurso nombre _ k.dict_recursos c.recursos e in
    recurso-IsConsistent k nombre _ _ c e (IsRecurso-mas_uno_libre n valid) (λ f. refl)
sumar_con a k nombre n (p ∷ ps) {h} c e =
    let valid = Todos-get_text IsRecurso nombre _ k.dict_recursos c.recursos e in
    a_ready-IsConsistent a _ p (
      recurso-IsConsistent k nombre _ _ {h' = p ∷ h} c e (IsRecurso-mas_uno n p ps valid)
        (λ f. omega arith))

pub sumar_instancia-IsConsistent :
    (a : Ajustes) (k : Kernel) (nombre : List ℕ) (r : Recurso) {h : List ℕ}
    → IsConsistent h k
    → get_text nombre k.dict_recursos ≡ some r
    → IsConsistent h (sumar_instancia a k nombre r)
sumar_instancia-IsConsistent a k nombre r c e =
    sumar_con a k nombre r.cant_instancias r.queue_waiting c e
