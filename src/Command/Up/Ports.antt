-- ===== src/Command/Up/Ports.antt =====
-- The allocation of ports: one proxy for each, or an error for the first that repeats another.
use mathlib.Core.List.{append-nil, append_assoc}
use ukfaas.Prelude.{
  ℕ, ◌≡◌, ◌≢◌, ◌⊎◌, refl, none, List, [], ◌∷◌, ◌++◌, arith, inl, inr, subst, ◌∙◌, ap,
}
use ukfaas.Prelude.Lists.{Option-cases}
use ukfaas.Prelude.Text.{Text}
use ukfaas.Prelude.Map.{Map, load, store, NodupKeys}
use ukfaas.Prelude.Exec.{Outcome, ok, err, panic, blocked}
use ukfaas.Command.Up.{
  nat_eq, ServicePort, Service, Proxy, proxy_of, allocated, allocate_port, and_then, allocate_ports,
  allocate,
}

-- A port with the name of its service.
abbrev pub Placement : Type 0
Placement = Text × ServicePort

abbrev pub entry : Placement → ℕ × Proxy
entry p = (p.1.port, proxy_of p.0 p.1)

-- The proxies of a list of ports, in order.
abbrev pub entries : List Placement → Map ℕ Proxy
entries [] = []
entries (p ∷ ps) = entry p ∷ entries ps

placed : Text → List ServicePort → List Placement → List Placement
placed name [] rest = rest
placed name (p ∷ ps) rest = (name, p) ∷ placed name ps rest

-- The ports of all services, in order.
unfoldable pub placements : List Service → List Placement
unfolding placed
placements [] = []
placements (svc ∷ services) = placed svc.name svc.ports (placements services)

-- The two loops as one.
place : List Placement → Map ℕ Proxy → Outcome (Map ℕ Proxy)
place [] m = ok m
place (p ∷ ps) m = and_then (allocate_port p.0 p.1 m (load p.1.port m)) (λ m'. place ps m')

and_then_assoc :
    (r : Outcome (Map ℕ Proxy)) (f g : Map ℕ Proxy → Outcome (Map ℕ Proxy))
    → and_then (and_then r f) g ≡ and_then r (λ m. and_then (f m) g)
unfolding and_then
and_then_assoc (ok m) f g = refl
and_then_assoc (err e) f g = refl
and_then_assoc panic f g = refl
and_then_assoc blocked f g = refl

place-placed :
    (name : Text) (ps : List ServicePort) (rest : List Placement) (m : Map ℕ Proxy)
    → and_then (allocate_ports name ps m) (λ m'. place rest m') ≡ place (placed name ps rest) m
unfolding allocate_ports placed place and_then
place-placed name [] rest m = refl
place-placed name (p ∷ ps) rest m =
    and_then_assoc (allocate_port name p m (load p.port m)) (λ m'. allocate_ports name ps m')
      (λ m'. place rest m')
    ∙ ap (λ f. and_then (allocate_port name p m (load p.port m)) f)
        (λ i m'. place-placed name ps rest m' i)

allocate-place :
    (services : List Service) (m : Map ℕ Proxy)
    → allocate services m ≡ place (placements services) m
unfolding allocate placements place
allocate-place [] m = refl
allocate-place (svc ∷ services) m =
    ap (λ f. and_then (allocate_ports svc.name svc.ports m) f)
      (λ i m'. allocate-place services m' i)
    ∙ place-placed svc.name svc.ports (placements services) m

module _ (k : ℕ) (v : Proxy) where
  store_new : (m : Map ℕ Proxy) → load k m ≡ none → store k v m ≡ m ++ (k, v) ∷ []
  unfolding load store
  store_new [] e = refl
  store_new ((j, w) ∷ m) e = ground (arith, store_new m)

  load-append_new :
      (j : ℕ) (m : Map ℕ Proxy) → load j m ≡ none → k ≢ j → load j (m ++ (k, v) ∷ []) ≡ none
  unfolding load
  load-append_new j [] e ne = ground arith
  load-append_new j ((i, w) ∷ m) e ne = ground (arith, load-append_new j m)

  append-NodupKeys :
      (m : Map ℕ Proxy) → load k m ≡ none → NodupKeys m → NodupKeys (m ++ (k, v) ∷ [])
  unfolding load
  append-NodupKeys [] e u = (refl, tt)
  append-NodupKeys ((j, w) ∷ m) e u = ground (arith, load-append_new j m, append-NodupKeys m)

-- All ports differ and each has its proxy, or the first port that repeats another is refused.
abbrev pub Allocated : List Placement → Map ℕ Proxy → Outcome (Map ℕ Proxy) → Type 0
Allocated ps m r =
    (NodupKeys (m ++ entries ps) × (r ≡ ok (m ++ entries ps)))
    ⊎ ((before : List Placement) × (p : Placement) × (later : List Placement) × (ps
          ≡ before ++ p ∷ later)
        × NodupKeys (m ++ entries before)
        × (load p.1.port (m ++ entries before) ≢ none)
        × (r ≡ err (allocated p.1.port)))

place-more :
    (p : Placement) (ps : List Placement) (m : Map ℕ Proxy) (r : Outcome (Map ℕ Proxy))
    → Allocated ps (m ++ entry p ∷ []) r
    → Allocated (p ∷ ps) m r
place-more p ps m r (inl (nodup, e)) =
    let assoc = append_assoc m (entry p ∷ []) (entries ps) in
    inl (subst NodupKeys assoc nodup, e ∙ ap ok assoc)
place-more p ps m r (inr (before, q, later, split, nodup, taken, e)) =
    let assoc = append_assoc m (entry p ∷ []) (entries before) in
    inr (
      p ∷ before,
      q,
      later,
      ap (λ qs. p ∷ qs) split,
      subst NodupKeys assoc nodup,
      subst (λ (es : Map ℕ Proxy). load q.1.port es ≢ none) assoc taken,
      e,
    )

place-Allocated :
    (ps : List Placement) (m : Map ℕ Proxy) → NodupKeys m → Allocated ps m (place ps m)
unfolding place allocate_port and_then
place-Allocated [] m u = inl (rw (append-nil m) (u, refl))
place-Allocated (p ∷ ps) m u = elim (Option-cases (load p.1.port m)) [
  | inl free ↦
      rw (free, store_new p.1.port (proxy_of p.0 p.1) m free)
        (place-more p ps m _ (
          place-Allocated ps (m ++ entry p ∷ [])
            (append-NodupKeys p.1.port (proxy_of p.0 p.1) m free u)))
  | inr (taken, e) ↦
      rw e (inr ([], p, ps, refl, rw (append-nil m) u, rw (append-nil m, e) (λ f. cc), refl))
]

-- If the ports of all services differ, the allocation gives one proxy for each, in order, that leads
-- to the name and the target port of its service. Otherwise it is an error that names the first port
-- which repeats one before it.
pub allocate_lem :
    (services : List Service) → Allocated (placements services) [] (allocate services [])
allocate_lem services =
    rw (allocate-place services []) (place-Allocated (placements services) [] tt)
