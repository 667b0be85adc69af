-- ===== src/Cpu/Mmu/Translate.antt =====
-- `mmu` translates every byte of an access, whatever the TLB holds.
use so_project_c.Common.{
  ℕ, zero, suc, ◌+◌, ◌-◌, ◌*◌, ◌/◌, ◌%◌, ◌≤◌, ◌<◌, ◌≡◌, refl, sym, ap, ◌∙◌, Option, none, some,
  List, [], ◌∷◌, arith, map, u32_mod, Option-cases, inl, inr, some_eq,
}
use mathlib.Core.List.{append-nil, map-append}
use native.Mathlib.Decide.{dec_lt, dec_le}
use native.Mathlib.Nat.{div-mul-le_self, lt-div-mul-add}
use so_project_c.Protocol.Codes.{PidStatus}
use so_project_c.Protocol.Io.{MemoriaFisica}
use so_project_c.Cpu.Tlb.{Config, Tlb, find_tlb, add_tlb}
use so_project_c.Cpu.Tlb.Bounded.{IsBounded, add_tlb-Added, find_tlb-IsBounded}
use so_project_c.Cpu.Tlb.Coherence.{Coherent, find_tlb-Coherent, find_tlb-miss, add_tlb-Coherent}
use so_project_c.Cpu.Mmu.{consultar, obtener_marco, en_pagina, mmu}
use so_project_c.Cpu.Mmu.Addresses.{rango, direcciones, fisica, rango-append, chunk, next_page}

module _ (c : Config) (s : ℕ) (pid_page : ℕ → ℕ → Option ℕ) (pid : ℕ) where
  -- A state of the TLB that goes with the memory.
  abbrev pub Ready : Tlb → Type 0
  Ready t = IsBounded c t × Coherent pid_page t

  record Obtenido (t : Tlb) (pagina marco : ℕ) : Type 0 where
    next : Tlb
    returns : obtener_marco c s pid_page pid t pagina ≡ some (some marco, next)
    ready : Ready next

  added :
      (t : Tlb) (pagina marco : ℕ)
      → Ready t
      → (find_tlb c t pid pagina).0 ≡ none
      → pid_page pid pagina ≡ some marco
      → (next : Tlb) × (add_tlb c t pid pagina marco ≡ some next) × Ready next
  unfolding add_tlb
  added t pagina marco r miss e = elim (dec_lt c.numero_entradas 1) [
    | yes off ↦ (t, ground arith, r)
    | no on ↦
        let a = add_tlb-Added c t pid pagina marco r.0 (omega arith) miss in
        (
          a.next,
          a.returns,
          (a.bounded, add_tlb-Coherent pid_page c t pid pagina marco r.1 e a.returns),
        )
  ]

  obtener_marco-Obtenido :
      (t : Tlb) (pagina marco : ℕ)
      → Ready t
      → pid_page pid pagina ≡ some marco
      → Obtenido t pagina marco
  unfolding obtener_marco consultar
  obtener_marco-Obtenido t pagina marco r e = elim (Option-cases (find_tlb c t pid pagina).0) [
    | inl miss ↦
        let (next, done, ready) = added t pagina marco r miss e in
        record {
          next = next;
          returns =
              ap (λ x. consultar c s pid_page pid x.0 x.1 pagina)
                (find_tlb-miss c t pid pagina miss)
              ∙ rw (e, consultar, done) refl;
          ready = ready;
        }
    | inr (frame, hit) ↦
        let (coherent, right) = find_tlb-Coherent pid_page c t pid pagina r.1 in
        let same : frame ≡ marco = some_eq (sym (right frame hit) ∙ e) in
        record {
          next = (find_tlb c t pid pagina).1;
          returns =
              ap (λ x. consultar c s pid_page pid x (find_tlb c t pid pagina).1 pagina)
                (hit ∙ ap some same);
          ready = (find_tlb-IsBounded c t pid pagina r.0, coherent);
        }
  ]

  -- What a translation returns: the process goes on, the frames hold the bytes of the access in order,
  -- and the TLB goes with the memory.
  pub record Traducida (marcos : ℕ → ℕ) (dir size : ℕ)
      (r : Option (PidStatus × List MemoriaFisica × Tlb)) : Type 0 where
    pub frames : List MemoriaFisica
    pub next : Tlb
    pub returns : r ≡ some (PidStatus.running, frames, next)
    pub bytes : direcciones frames ≡ map (fisica s marcos) (rango dir size)
    pub ready : Ready next

  -- One round of `mmu`, once it has the frame of the page.
  abbrev parte : ℕ → ℕ → ℕ → MemoriaFisica
  parte marco dir size =
      let off = dir - dir / s * s in
      record { direccion_fisica = (marco * s + off) % u32_mod; bytes = en_pagina s off size }

  mmu_last :
      (fuel : ℕ) (t t' : Tlb) (dir size marco : ℕ)
      → obtener_marco c s pid_page pid t (dir / s) ≡ some (some marco, t')
      → size - (parte marco dir size).bytes ≡ 0
      → mmu c s pid_page pid (suc fuel) t dir size
        ≡ some (PidStatus.running, parte marco dir size ∷ [], t')
  unfolding mmu
  mmu_last fuel t t' dir size marco e z = rw (e, mmu, z)

  -- An access that ends in the page of its first byte.
  ultima :
      (marcos : ℕ → ℕ) (fuel : ℕ) (t t' : Tlb) (dir size : ℕ)
      → 0 < s
      → dir + size ≤ dir / s * s + s
      → 0 < size
      → dir + size < u32_mod
      → marcos (dir / s) * s + s ≤ u32_mod
      → obtener_marco c s pid_page pid t (dir / s) ≡ some (some (marcos (dir / s)), t')
      → Ready t'
      → Traducida marcos dir size (mmu c s pid_page pid (suc fuel) t dir size)
  ultima marcos fuel t t' dir size hs one pos fits bound got ready =
      let lo : dir / s * s ≤ dir = div-mul-le_self dir s in
      let small : (dir - dir / s * s + size) % u32_mod ≡ dir - dir / s * s + size = omega arith in
      let real : (marcos (dir / s) * s + (dir - dir / s * s)) % u32_mod
          ≡ marcos (dir / s) * s + (dir - dir / s * s) =
        omega arith in
      let all : en_pagina s (dir - dir / s * s) size ≡ size = ground (arith, small) in
      record {
        frames = parte (marcos (dir / s)) dir size ∷ [];
        next = t';
        returns = mmu_last fuel t t' dir size (marcos (dir / s)) got (omega (arith, all));
        bytes = rw (all, real, append-nil) (chunk s marcos size (dir / s) dir hs lo (omega arith));
        ready = ready;
      }

  mmu_more :
      (fuel : ℕ) (t t' t'' : Tlb) (dir size marco next left : ℕ) (frames : List MemoriaFisica)
      → obtener_marco c s pid_page pid t (dir / s) ≡ some (some marco, t')
      → size - (parte marco dir size).bytes ≡ suc left
      → (dir / s + 1) * s % u32_mod ≡ next
      → mmu c s pid_page pid fuel t' next (suc left) ≡ some (PidStatus.running, frames, t'')
      → mmu c s pid_page pid (suc fuel) t dir size
        ≡ some (PidStatus.running, parte marco dir size ∷ frames, t'')
  unfolding mmu
  mmu_more fuel t t' t'' dir size marco next left frames e z there rest =
      rw (e, mmu, z, there, rest)

  -- An access that goes on in the next page.
  cruza :
      (marcos : ℕ → ℕ) (fuel left next : ℕ) (t t' : Tlb) (dir size : ℕ)
      → 0 < s
      → dir < next
      → next ≡ dir / s * s + s
      → size ≡ (next - dir) + suc left
      → dir + size < u32_mod
      → marcos (dir / s) * s + s ≤ u32_mod
      → obtener_marco c s pid_page pid t (dir / s) ≡ some (some (marcos (dir / s)), t')
      → Traducida marcos next (suc left) (mmu c s pid_page pid fuel t' next (suc left))
      → Traducida marcos dir size (mmu c s pid_page pid (suc fuel) t dir size)
  cruza marcos fuel left next t t' dir size hs inside en total fits bound got rec =
      let lo : dir / s * s ≤ dir = div-mul-le_self dir s in
      let small : (dir - dir / s * s + size) % u32_mod ≡ dir - dir / s * s + size = omega arith in
      let real : (marcos (dir / s) * s + (dir - dir / s * s)) % u32_mod
          ≡ marcos (dir / s) * s + (dir - dir / s * s) =
        omega arith in
      let rest : next - dir ≡ s - (dir - dir / s * s) = omega arith in
      let part : en_pagina s (dir - dir / s * s) size ≡ next - dir = ground (arith, small, rest) in
      let there : (dir / s + 1) * s % u32_mod ≡ next =
        next_page (dir / s) s next en (omega arith) in
      record {
        frames = parte (marcos (dir / s)) dir size ∷ rec.frames;
        next = rec.next;
        returns =
            mmu_more fuel t t' rec.next dir size (marcos (dir / s)) next left rec.frames got
              (omega (arith, part)) there rec.returns;
        bytes =
            rw
              (part, real, rec.bytes, chunk s marcos (next - dir) (dir / s) dir hs lo (omega arith))
              (sym (
                ap (map (fisica s marcos))
                  (rango-append (next - dir) (suc left) size dir next total (omega arith))
                ∙ map-append (fisica s marcos) (rango dir (next - dir)) (rango next (suc left))));
        ready = rec.ready;
      }

  -- For an access of at least one byte that ends below 2^32, whose pages all have a frame that
  -- ends at 2^32 at most, and for a TLB within its bounds that agrees with the page table, mmu
  -- with more fuel than bytes returns RUNNING and frames that hold the physical addresses of all
  -- the bytes, in order. The TLB is then within its bounds and agrees with the page table again.
  pub mmu-Traducida :
      (marcos : ℕ → ℕ) (fuel : ℕ) (t : Tlb) (dir size : ℕ)
      → 0 < s
      → size < fuel
      → 0 < size
      → dir + size < u32_mod
      → Ready t
      → ((q : ℕ)
          → dir < q * s + s
          → q * s < dir + size
          → (pid_page pid q ≡ some (marcos q)) × (marcos q * s + s ≤ u32_mod))
      → Traducida marcos dir size (mmu c s pid_page pid fuel t dir size)
  mmu-Traducida marcos zero t dir size hs hf pos fits r h = absurd (omega arith)
  mmu-Traducida marcos (suc fuel) t dir size hs hf pos fits r h =
      let q = dir / s in
      let lo : q * s ≤ dir = div-mul-le_self dir s in
      let hi : dir < q * s + s = lt-div-mul-add hs in
      let (mapped, bound) = h q hi (omega arith) in
      let o = obtener_marco-Obtenido t q (marcos q) r mapped in
      elim (dec_le (dir + size) (q * s + s)) [
        | yes one ↦ ultima marcos fuel t o.next dir size hs one pos fits bound o.returns o.ready
        | no more ↦
            let left = size - (q * s + s - dir) - 1 in
            cruza marcos fuel left (q * s + s) t o.next dir size hs hi refl (omega arith) fits bound
              o.returns
              (mmu-Traducida marcos fuel o.next (q * s + s) (suc left) hs (omega arith)
                (omega arith) (omega arith) o.ready (λ k klo khi. h k (omega arith) (omega arith)))
      ]
