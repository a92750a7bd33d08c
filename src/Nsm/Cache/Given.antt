-- ===== src/Nsm/Cache/Given.antt =====
-- The name that a connection is given is its own.
use meridio.Base.{
  ℕ, ◌≡◌, refl, ap, ◌∙◌, sym, subst, ◌⊎◌, inl, inr, false, none, some, String, string_eq, arith,
  Bool-cases, Option-cases, eq_refl,
}
use mathlib.Core.Option.{some-injective}
use meridio.Base.Dict.{lookup, lookup-insert}
use meridio.Nsm.Cache.{
  NameGenerator, Cache, use_cached, store, is_refused, reserve_new, check_and_reserve, generate,
}
use meridio.Nsm.Cache.Names.{
  name_part, name_of, IsConsistent, use_cached-IsConsistent, store-IsConsistent, name_of-insert,
}

module _ (G : NameGenerator) where
  -- The connection has the name, alone, in a consistent cache.
  pub record Gives (id : String) (r : Cache G × String) : Type 0 where
    pub consistent : IsConsistent G r.0
    pub named : name_of G id r.0 ≡ some r.1
    pub alone : (j : String) → name_of G j r.0 ≡ some r.1 → j ≡ id

  consistent-Gives :
      (id : String) (r : Cache G × String)
      → IsConsistent G r.0
      → name_of G id r.0 ≡ some r.1
      → Gives id r
  consistent-Gives id r h named = record {
    consistent = h;
    named = named;
    alone = λ j k. some-injective j id (sym (h.to j r.1 k) ∙ h.to id r.1 named);
  }

  use_cached-Gives :
      (id name : String) (c : Cache G)
      → name_of G id c ≡ some name
      → IsConsistent G c
      → Gives id (use_cached G id name c, name)
  unfolding use_cached
  use_cached-Gives id name c has h =
      consistent-Gives id (use_cached G id name c, name) (use_cached-IsConsistent G id name c has h)
        (name_of-insert G id name id false c.interface_names has ∙ has)

  store-Gives :
      (id name : String) (g : G.State) (c : Cache G)
      → name_of G id c ≡ none
      → lookup name c.interface_names_in_use ≡ none
      → IsConsistent G c
      → Gives id (store G id name g c, name)
  unfolding store
  store-Gives id name g c no_name not_used h =
      consistent-Gives id (store G id name g c, name)
        (store-IsConsistent G id name g c no_name not_used h)
        (ap (name_part G) (lookup-insert id id (name, false) c.interface_names)
          ∙ rw (eq_refl id) refl)

  -- When the cache is consistent and the generator gives a name that is not in use, `Generate`
  -- returns the name that the connection has afterwards and no other connection has, and leaves the
  -- cache consistent.
  pub generate-Gives :
      (id name_prefix : String) (max_length : ℕ) (c : Cache G)
      → lookup (G.generate name_prefix max_length c.generator).1 c.interface_names_in_use ≡ none
      → IsConsistent G c
      → Gives id (generate G id name_prefix max_length c)
  unfolding generate
  generate-Gives id name_prefix max_length c fresh h =
      elim (Option-cases (lookup id c.interface_names)) [
        | inl e ↦
            let (g, name) = G.generate name_prefix max_length c.generator in
            subst (Gives id) {x = (store G id name g c, name)}
              {y = generate G id name_prefix max_length c} (ground (arith, e))
              (store-Gives id name g c (ap (name_part G) e) fresh h)
        | inr ((name, b), e) ↦
            subst (Gives id) {x = (use_cached G id name c, name)}
              {y = generate G id name_prefix max_length c} (ground (arith, e))
              (use_cached-Gives id name c (ap (name_part G) e) h)
      ]

  -- `CheckAndReserve` in a consistent cache: it refuses with "" and leaves the maps as they are, or
  -- it returns the name that the connection has afterwards and no other connection has, and leaves
  -- the cache consistent.
  pub check_and_reserve-Gives :
      (id preferred_name name_prefix : String) (max_length : ℕ) (c : Cache G)
      → IsConsistent G c
      → (let r = check_and_reserve G id preferred_name name_prefix max_length c in
          ((r.1 ≡ "")
            × (r.0.interface_names ≡ c.interface_names)
            × (r.0.interface_names_in_use ≡ c.interface_names_in_use))
          ⊎ Gives id r)
  unfolding check_and_reserve reserve_new
  check_and_reserve-Gives id preferred_name name_prefix max_length c h =
      elim (Option-cases (lookup id c.interface_names)) [
        | inr ((name, b), e) ↦ inr (
            subst (Gives id) {x = (use_cached G id name c, name)}
              {y = check_and_reserve G id preferred_name name_prefix max_length c}
              (ground (arith, e)) (use_cached-Gives id name c (ap (name_part G) e) h))
        | inl e ↦ elim (Option-cases (lookup preferred_name c.interface_names_in_use)) [
          | inr (user, f) ↦ inl (ground (arith, e, f), ground (arith, e, f), ground (arith, e, f))
          | inl f ↦
              let (g, r) = G.reserve preferred_name name_prefix max_length c.generator in
              elim (Bool-cases (is_refused G r)) [
                | inl bad ↦ inl (
                  ground (arith, e, f, bad),
                  ground (arith, e, f, bad),
                  ground (arith, e, f, bad),
                )
                | inr good ↦ inr (
                    subst (Gives id) {x = (store G id preferred_name g c, preferred_name)}
                      {y = check_and_reserve G id preferred_name name_prefix max_length c}
                      (ground (arith, e, f, good))
                      (store-Gives id preferred_name g c (ap (name_part G) e) f h))
              ]
        ]
      ]
