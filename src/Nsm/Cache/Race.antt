-- ===== src/Nsm/Cache/Race.antt =====
-- The release that has been triggered before it was cancelled.
use meridio.Base.{ℕ, ◌≡◌, Bool, true, false, none, some, String, string_eq, arith, eq_refl}
use meridio.Base.Dict.{is_some, lookup, lookup-insert, lookup-erase}
use meridio.Nsm.Cache.{NameGenerator, Cache, use_cached, generate, release_name}
use meridio.Nsm.Cache.Names.{release_name-removed}

module _ (G : NameGenerator) where
  -- `Generate` returns a connection's name while the release of that name already waits for the
  -- lock. After that release neither the connection has the name nor is the name in use.
  pub generate-release_name :
      (id name name_prefix : String) (max_length : ℕ) (b : Bool) (c : Cache G)
      → lookup id c.interface_names ≡ some (name, b)
      → (let c' = release_name G id name (generate G id name_prefix max_length c).0 in
          ((generate G id name_prefix max_length c).1 ≡ name)
          × (lookup id c'.interface_names ≡ none)
          × (lookup name c'.interface_names_in_use ≡ none))
  unfolding generate use_cached
  generate-release_name id name name_prefix max_length b c h =
      let r = (generate G id name_prefix max_length c).0 in
      let has : is_some (lookup id r.interface_names) ≡ true =
        ground (arith, h, eq_refl id, lookup-insert id id (name, false) c.interface_names) in
      (
        ground (arith, h),
        rw (release_name-removed G id name r has)
            (ground (arith, eq_refl id, lookup-erase id id r.interface_names)),
        rw (release_name-removed G id name r has)
            (ground (arith, eq_refl name, lookup-erase name name r.interface_names_in_use)),
      )
