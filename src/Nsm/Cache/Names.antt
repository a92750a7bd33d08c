-- ===== src/Nsm/Cache/Names.antt =====
-- The two maps of the cache against each other.
use meridio.Base.{
  ◌≡◌, refl, ap, ◌∙◌, sym, subst, inl, inr, Bool, true, false, Option, none, some, String, ◌==◌,
  string_eq, arith, Bool-cases, Option-cases, eq→≡, eq_refl,
}
use meridio.Base.Dict.{Dict, is_some, lookup, insert, erase, lookup-insert, lookup-erase}
use meridio.Nsm.Cache.{NameGenerator, Cache, use_cached, store, release, release_name}

module _ (G : NameGenerator) where
  abbrev pub name_part : Option (String × Bool) → Option String
  name_part none = none
  name_part (some (name, scheduled)) = some name

  -- The name of the connection.
  abbrev pub name_of : String → Cache G → Option String
  name_of id c = name_part (lookup id c.interface_names)

  -- A connection has the name exactly when the name is in use by the connection.
  pub record IsConsistent (c : Cache G) : Type 0 where
    pub to :
        (id name : String)
        → name_of id c ≡ some name
        → lookup name c.interface_names_in_use ≡ some id
    pub from :
        (id name : String)
        → lookup name c.interface_names_in_use ≡ some id
        → name_of id c ≡ some name

  -- The names of the connections and the use of the names are as before.
  same-IsConsistent :
      (c c' : Cache G)
      → ((id : String) → name_of id c' ≡ name_of id c)
      → c'.interface_names_in_use ≡ c.interface_names_in_use
      → IsConsistent c
      → IsConsistent c'
  same-IsConsistent c c' e f h = record {
    to = λ id name k. rw f (h.to id name (sym (e id) ∙ k));
    from = λ id name k. e id ∙ h.from id name (rw f at k);
  }

  pub store-IsConsistent :
      (id name : String) (g : G.State) (c : Cache G)
      → name_of id c ≡ none
      → lookup name c.interface_names_in_use ≡ none
      → IsConsistent c
      → IsConsistent (store G id name g c)
  unfolding store
  store-IsConsistent id name g c no_name not_used h = record {
    to = λ j n k. ground (
      arith,
      k,
      not_used,
      h.to j n,
      eq→≡ j id,
      eq→≡ n name,
      eq_refl name,
      lookup-insert j id (name, false) c.interface_names,
      lookup-insert n name id c.interface_names_in_use,
    );
    from = λ j n k. ground (
      arith,
      k,
      no_name,
      h.from j n,
      eq→≡ j id,
      eq→≡ n name,
      eq_refl id,
      lookup-insert j id (name, false) c.interface_names,
      lookup-insert n name id c.interface_names_in_use,
    );
  }

  -- A name that a connection has, written again.
  pub name_of-insert :
      (id name j : String) (b : Bool) (d : Dict String (String × Bool))
      → name_part (lookup id d) ≡ some name
      → name_part (lookup j (insert id (name, b) d)) ≡ name_part (lookup j d)
  name_of-insert id name j b d h = elim (Bool-cases (j == id)) [
    | inl e ↦
        let same = eq→≡ j id e in
        ap name_part (lookup-insert j id (name, b) d) ∙ rw e (rw same (sym h))
    | inr e ↦ ap name_part (lookup-insert j id (name, b) d) ∙ rw e refl
  ]

  pub use_cached-IsConsistent :
      (id name : String) (c : Cache G)
      → name_of id c ≡ some name
      → IsConsistent c
      → IsConsistent (use_cached G id name c)
  unfolding use_cached
  use_cached-IsConsistent id name c has h =
      same-IsConsistent c (use_cached G id name c)
        (λ j. name_of-insert id name j false c.interface_names has) refl h

  -- The cache without the name of the connection.
  abbrev pub removed : String → String → Cache G → Cache G
  removed id name c = record c {
    generator = G.release name c.generator;
    interface_names = erase id c.interface_names;
    interface_names_in_use = erase name c.interface_names_in_use;
  }

  removed-IsConsistent :
      (id name : String) (c : Cache G)
      → name_of id c ≡ some name
      → IsConsistent c
      → IsConsistent (removed id name c)
  removed-IsConsistent id name c has h = record {
    to = λ j n k. ground (
      arith,
      k,
      h.to j n,
      h.to id name has,
      eq→≡ j id,
      eq→≡ n name,
      eq_refl id,
      lookup-erase j id c.interface_names,
      lookup-erase n name c.interface_names_in_use,
    );
    from = λ j n k. ground (
      arith,
      k,
      has,
      h.from j n,
      eq→≡ j id,
      eq→≡ n name,
      eq_refl name,
      lookup-erase j id c.interface_names,
      lookup-erase n name c.interface_names_in_use,
    );
  }

  pub release_name-removed :
      (id name : String) (c : Cache G)
      → is_some (lookup id c.interface_names) ≡ true
      → release_name G id name c ≡ removed id name c
  unfolding release_name
  release_name-removed id name c h = elim (Option-cases (lookup id c.interface_names)) [
    | inl e ↦ absurd (ground (arith, e, h))
    | inr (v, e) ↦ ground (arith, e)
  ]

  name_of→is_some :
      (id name : String) (c : Cache G)
      → name_of id c ≡ some name
      → is_some (lookup id c.interface_names) ≡ true
  name_of→is_some id name c h = elim (Option-cases (lookup id c.interface_names)) [
    | inl e ↦ absurd (ground (arith, e, h))
    | inr (v, e) ↦ ground (arith, e)
  ]

  -- A release of the name that the connection has.
  pub release_name-IsConsistent :
      (id name : String) (c : Cache G)
      → name_of id c ≡ some name
      → IsConsistent c
      → IsConsistent (release_name G id name c)
  release_name-IsConsistent id name c has h =
      rw (release_name-removed id name c (name_of→is_some id name c has))
        (removed-IsConsistent id name c has h)

  pub release-IsConsistent :
      (id : String) (c : Cache G) → IsConsistent c → IsConsistent (release G id c)
  unfolding release
  release-IsConsistent id c h = elim (Option-cases (lookup id c.interface_names)) [
    | inl e ↦ subst IsConsistent {x = c} {y = release G id c} (ground (arith, e)) h
    | inr ((name, true), e) ↦ subst IsConsistent {x = c} {y = release G id c} (ground (arith, e)) h
    | inr ((name, false), e) ↦
        same-IsConsistent c (release G id c)
          (λ j. ground (arith, e, name_of-insert id name j true c.interface_names))
          (ground (arith, e)) h
  ]
