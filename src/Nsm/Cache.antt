-- ===== src/Nsm/Cache.antt =====
-- pkg/nsm/interfacename/cache.go: one interface name for each connection, kept for a while after
-- the connection is released. The lock makes each method one step. A release that is scheduled is
-- a Task: it waits for its trigger, and when it has been triggered it no longer looks at its
-- cancellation, but still waits for the lock.
pub mod Names
pub mod Given
pub mod Race
use meridio.Base.{
  ℕ, zero, suc, Bool, true, false, not, ◌&&◌, Option, none, some, String, List, [], ◌∷◌, ◌++◌, ◌==◌,
  string_eq, if◌then◌else◌,
}
use meridio.Base.Dict.{Dict, is_some, lookup, insert, erase}

-- How `Reserve` ends: `os.ErrExist`, another error, or none.
pub data Reserved : Type 0 where
  reserved exists_already wrong_format : Reserved

-- `NameGenerator`
pub record NameGenerator : Type 1 where
  pub State : Type 0
  pub generate : String → ℕ → State → State × String
  pub release : String → State → State
  pub reserve : String → String → ℕ → State → State × Reserved

-- The goroutine of a delayed release.
pub record Task : Type 0 where
  pub id : String
  pub name : String
  pub triggered : Bool

-- The waiting tasks of the connection end with `cancelRelease`.
abbrev pub cancel : String → List Task → List Task
cancel id [] = []
cancel id (t ∷ ts) =
    let rest = cancel id ts in if t.id == id && not t.triggered then rest else t ∷ rest

module _ (G : NameGenerator) where
  -- `InterfaceNameChache`. Of an entry, whether its `cancelRelease` is set.
  pub record Cache : Type 0 where
    pub generator : G.State
    pub interface_names : Dict String (String × Bool)
    pub interface_names_in_use : Dict String String
    pub tasks : List Task

  -- The branch of `Generate` and `CheckAndReserve` for a cached name.
  unfoldable pub use_cached : String → String → Cache → Cache
  use_cached id name c = record c {
    interface_names = insert id (name, false) c.interface_names;
    tasks = cancel id c.tasks;
  }

  -- A new name for the connection.
  unfoldable pub store : String → String → G.State → Cache → Cache
  store id name g c = record c {
    generator = g;
    interface_names = insert id (name, false) c.interface_names;
    interface_names_in_use = insert name id c.interface_names_in_use;
  }

  abbrev pub is_refused : Reserved → Bool
  is_refused Reserved.reserved = false
  is_refused Reserved.exists_already = false
  is_refused Reserved.wrong_format = true

  -- `CheckAndReserve` of a connection without a name; "" where it cannot have the preferred one.
  unfoldable pub reserve_new : String → String → String → ℕ → Cache → Cache × String
  unfolding store
  reserve_new id preferred_name name_prefix max_length c =
      elim (lookup preferred_name c.interface_names_in_use) [
        | some _ ↦ (c, "")
        | none ↦
            let (g, r) = G.reserve preferred_name name_prefix max_length c.generator in
            if is_refused r
            then (record c { generator = g }, "")
            else (store id preferred_name g c, preferred_name)
      ]

  -- `CheckAndReserve`
  unfoldable pub check_and_reserve : String → String → String → ℕ → Cache → Cache × String
  unfolding use_cached reserve_new
  check_and_reserve id preferred_name name_prefix max_length c =
      elim (lookup id c.interface_names) [
        | some (name, _) ↦ (use_cached id name c, name)
        | none ↦ reserve_new id preferred_name name_prefix max_length c
      ]

  -- `Generate`
  unfoldable pub generate : String → String → ℕ → Cache → Cache × String
  unfolding use_cached store
  generate id name_prefix max_length c = elim (lookup id c.interface_names) [
    | some (name, _) ↦ (use_cached id name c, name)
    | none ↦
        let (g, name) = G.generate name_prefix max_length c.generator in (store id name g c, name)
  ]

  -- `Release`, with a trigger that has not fired yet.
  unfoldable pub release : String → Cache → Cache
  release id c = elim (lookup id c.interface_names) [
    | none ↦ c
    | some (name, scheduled) ↦ if scheduled then c else record c {
      interface_names = insert id (name, true) c.interface_names;
      tasks = c.tasks ++ record { id = id; name = name; triggered = false } ∷ [];
    }
  ]

  -- `release`, of a task.
  unfoldable pub release_name : String → String → Cache → Cache
  release_name id name c = elim (lookup id c.interface_names) [
    | none ↦ c
    | some _ ↦ record c {
      generator = G.release name c.generator;
      interface_names = erase id c.interface_names;
      interface_names_in_use = erase name c.interface_names_in_use;
    }
  ]
