-- ===== src/LoadBalancer/Stream/Keyed.antt =====
-- Maps of targets by identifier.
use meridio.Base.{
  ◌≡◌, refl, some, List, [], ◌∷◌, ◌==◌, arith, All, Bool-cases, Option-cases, inl, inr, eq→≡,
}
use meridio.Base.Dict.{Dict, lookup, insert, erase, NodupKeys, insert-NodupKeys}
use meridio.Base.Int.{ℤ, int_eq}
use meridio.Nsp
use meridio.LoadBalancer.Env.{Env}
use meridio.LoadBalancer.Target.{Target, new_target}
use meridio.LoadBalancer.Stream.Watch.{new_targets_map}

module _ (E : Env) where
  -- Each target stands under its identifier.
  abbrev pub Keyed : Dict ℤ (Target E) → Type 0
  Keyed = All (λ e. e.1.identifier ≡ e.0)

  pub insert-Keyed :
      (t : Target E) (d : Dict ℤ (Target E)) → Keyed d → Keyed (insert t.identifier t d)
  unfolding insert
  insert-Keyed t [] h = (refl, tt)
  insert-Keyed t ((k, v) ∷ d) h = elim (Bool-cases (t.identifier == k)) [
    | inl e ↦ ground (arith, e, h.1, eq→≡ t.identifier k e)
    | inr e ↦ ground (arith, e, h.0, insert-Keyed t d h.1)
  ]

  pub erase-Keyed : (k : ℤ) (d : Dict ℤ (Target E)) → Keyed d → Keyed (erase k d)
  unfolding erase
  erase-Keyed k [] h = tt
  erase-Keyed k ((j, v) ∷ d) h = ground (arith, h.0, erase-Keyed k d h.1)

  pub lookup-Keyed :
      (k : ℤ) (t : Target E) (d : Dict ℤ (Target E))
      → Keyed d
      → lookup k d ≡ some t
      → t.identifier ≡ k
  unfolding lookup
  lookup-Keyed k t [] h e = cc
  lookup-Keyed k t ((j, v) ∷ d) h e = ground (arith, h.0, e, lookup-Keyed k t d h.1, eq→≡ k j)

  pub new_targets_map-Keyed :
      (offset : ℤ) (ts : List Nsp.Target) (m : Dict ℤ (Target E))
      → Keyed m
      → Keyed (new_targets_map E offset ts m)
  unfolding new_targets_map
  new_targets_map-Keyed offset [] m h = h
  new_targets_map-Keyed offset (t ∷ ts) m h = elim (Option-cases (new_target E t offset)) [
    | inl e ↦ rw (e, new_targets_map) (new_targets_map-Keyed offset ts m h)
    | inr (n, e) ↦
        rw (e, new_targets_map)
          (new_targets_map-Keyed offset ts (insert n.identifier n m) (insert-Keyed n m h))
  ]

  pub new_targets_map-NodupKeys :
      (offset : ℤ) (ts : List Nsp.Target) (m : Dict ℤ (Target E))
      → NodupKeys m
      → NodupKeys (new_targets_map E offset ts m)
  unfolding new_targets_map
  new_targets_map-NodupKeys offset [] m h = h
  new_targets_map-NodupKeys offset (t ∷ ts) m h = elim (Option-cases (new_target E t offset)) [
    | inl e ↦ rw (e, new_targets_map) (new_targets_map-NodupKeys offset ts m h)
    | inr (n, e) ↦
        rw (e, new_targets_map)
          (new_targets_map-NodupKeys offset ts (insert n.identifier n m)
            (insert-NodupKeys n.identifier n m h))
  ]
