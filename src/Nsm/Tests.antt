-- ===== src/Nsm/Tests.antt =====
-- Runs of the cache of interface names.
use meridio.Base.{
  ◌≡◌, ◌⊎◌, refl, true, none, some, String, List, [], ◌∷◌, ◌==◌, string_eq, arith, if◌then◌else◌,
  contains, keep_if, not, eq→≡,
}
use meridio.Base.Dict.{lookup}
use meridio.Nsm.Cache.{NameGenerator, Reserved, Cache, check_and_reserve, generate, release_name}
use meridio.Nsm.Cache.Names.{IsConsistent}
use meridio.Nsm.Cache.Given.{Gives, generate-Gives, check_and_reserve-Gives}
use meridio.Nsm.Cache.Race.{generate-release_name}

-- A generator of two names, with the list of those in use.
abbrev two_names : NameGenerator
two_names = record {
  State = List String;
  generate = λ name_prefix max_length used.
      ("nse0" ∷ used, (if contains used "nse0" then "nse1" else "nse0"));
  release = λ name. keep_if (λ n. not (n == name));
  reserve = λ name name_prefix max_length used.
      (name ∷ used, (if contains used name then Reserved.exists_already else Reserved.reserved));
}

-- The release of the only name has been triggered.
abbrev cache : Cache two_names
cache = record {
  generator = "nse5" ∷ [];
  interface_names = ("a", ("nse5", true)) ∷ [];
  interface_names_in_use = ("nse5", "a") ∷ [];
  tasks = record { id = "a"; name = "nse5"; triggered = true } ∷ [];
}

cache-IsConsistent : IsConsistent two_names cache
unfolding lookup
cache-IsConsistent = record {
  to = λ id name k. ground (arith, k, eq→≡ id "a", eq→≡ name "nse5");
  from = λ id name k. ground (arith, k, eq→≡ id "a", eq→≡ name "nse5");
}

fresh_name :
    lookup (two_names.generate "nse" 15 cache.generator).1 cache.interface_names_in_use ≡ none
unfolding string_eq lookup
fresh_name = refl

generate-Gives_example : Gives two_names "b" (generate two_names "b" "nse" 15 cache)
generate-Gives_example = generate-Gives two_names "b" "nse" 15 cache fresh_name cache-IsConsistent

check_and_reserve-Gives_example :
    (((check_and_reserve two_names "b" "nse7" "nse" 15 cache).1 ≡ "")
      × ((check_and_reserve two_names "b" "nse7" "nse" 15 cache).0.interface_names
          ≡ cache.interface_names)
      × ((check_and_reserve two_names "b" "nse7" "nse" 15 cache).0.interface_names_in_use
          ≡ cache.interface_names_in_use))
    ⊎ Gives two_names "b" (check_and_reserve two_names "b" "nse7" "nse" 15 cache)
check_and_reserve-Gives_example =
    check_and_reserve-Gives two_names "b" "nse7" "nse" 15 cache cache-IsConsistent

a_is_held : lookup "a" cache.interface_names ≡ some ("nse5", true)
unfolding lookup string_eq
a_is_held = refl

generate-release_name_example :
    ((generate two_names "a" "nse" 15 cache).1 ≡ "nse5")
    × (lookup "a"
          (release_name two_names "a" "nse5"
            (generate two_names "a" "nse" 15 cache).0).interface_names
        ≡ none)
    × (lookup "nse5"
          (release_name two_names "a" "nse5"
            (generate two_names "a" "nse" 15 cache).0).interface_names_in_use
        ≡ none)
generate-release_name_example =
    generate-release_name two_names "a" "nse5" "nse" 15 true cache a_is_held
