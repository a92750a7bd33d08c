-- ===== src/LoadBalancer/Availability/Paths.antt =====
-- `Register` and `Unregister` as the load balancers of the streams see them.
use meridio.Base.{
  ◌≡◌, refl, inl, inr, Bool, false, not, ◌||◌, ◌&&◌, none, some, String, List, [], ◌∷◌, ◌==◌, Eq,
  string_eq, arith, Bool-cases, List-cases, eq→≡, contains, keep_if,
}
use meridio.LoadBalancer.Availability.{Service, register_in, register, unregister_in, unregister}

contains-keep_if :
    (name n : String) (plane : List String)
    → contains (keep_if (λ m. not (name == m)) plane) n ≡ not (n == name) && contains plane n
contains-keep_if name n [] = elim (Bool-cases (n == name)) [ inl f ↦ rw f refl | inr f ↦ rw f refl ]
contains-keep_if name n (m ∷ plane) = ground (arith, contains-keep_if name n plane)

module _ {T : Type 0} ⦃e : Eq T⦄ where
  -- The stream has a forwarding path.
  abbrev pub is_registered : String → Service T → Bool
  is_registered name s = elim s.forwarding_plane [ none ↦ false | some plane ↦ contains plane name ]

  register-is_registered :
      (name n : String) (s : Service T) (plane : List String)
      → s.forwarding_plane ≡ some plane
      → is_registered n (register name s) ≡ n == name || is_registered n s
  unfolding register register_in
  register-is_registered name n s plane h = elim (List-cases plane) [
    | inl f ↦ ground (arith, h, f)
    | inr (m, ms, f) ↦ elim (Bool-cases (contains (m ∷ ms) name)) [
      | inr absent ↦ ground (arith, h, f, absent)
      | inl present ↦ elim (Bool-cases (n == name)) [
        | inl same ↦ ground (arith, h, f, present, same, eq→≡ n name same)
        | inr other ↦ ground (arith, h, f, present, other)
      ]
    ]
  ]

  unregister-forwarding_plane :
      (name : String) (s : Service T) (plane : List String)
      → s.forwarding_plane ≡ some plane
      → (unregister name s).forwarding_plane ≡ some (keep_if (λ m. not (name == m)) plane)
  unfolding unregister unregister_in
  unregister-forwarding_plane name s plane h =
      elim (List-cases (keep_if (λ m. not (name == m)) plane)) [
        | inl f ↦ ground (arith, h, f)
        | inr (m, ms, f) ↦ ground (arith, h, f)
      ]

  unregister-is_registered :
      (name n : String) (s : Service T) (plane : List String)
      → s.forwarding_plane ≡ some plane
      → is_registered n (unregister name s) ≡ not (n == name) && is_registered n s
  unregister-is_registered name n s plane h =
      ground (arith, h, unregister-forwarding_plane name s plane h, contains-keep_if name n plane)

  -- Until `Stop`: `Register` of a name adds its path, `Unregister` takes it away, and both leave
  -- every other name as it is.
  pub registration_lem :
      (name n : String) (s : Service T) (plane : List String)
      → s.forwarding_plane ≡ some plane
      → (is_registered n (register name s) ≡ n == name || is_registered n s)
        × (is_registered n (unregister name s) ≡ not (n == name) && is_registered n s)
  registration_lem name n s plane h =
      (register-is_registered name n s plane h, unregister-is_registered name n s plane h)
