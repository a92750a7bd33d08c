-- ===== src/Ambassador/Stream/Identifiers.antt =====
-- The choice of an identifier: while fewer are in use than there may be targets, one is left, and
-- `setIdentifier` finds one. What it writes into a target, the load balancer reads.
use meridio.Base.{
  ℕ, zero, suc, ◌+◌, ◌≤◌, ◌<◌, ◌≡◌, ◌≢◌, refl, ap, subst, ◌⊎◌, inl, inr, true, false, some, String,
  List, [], ◌∷◌, ◌==◌, string_eq, if◌then◌else◌, length, contains, arith, Bool-cases,
}
use native.Mathlib.Decide.{dec_lt}
use meridio.Base.Tests.{le→leb}
use meridio.Base.Int.{ℤ, pos}
use meridio.Base.Lists.{Elem, here, there}
use meridio.Base.Strconv.{itoa, itoa_inj, atoi-itoa}
use meridio.Base.Dict.{lookup}
use meridio.Nsp.{Status, status_eq}
use meridio.LoadBalancer.Env.{Env}
use meridio.LoadBalancer.Target.{new_target}
use meridio.Ambassador.Stream.{Stream, get_target, is_valid, in_range, set_identifier}

-- The list without the first occurrence.
remove_first : String → List String → List String
remove_first a [] = []
remove_first a (x ∷ xs) = let rest = remove_first a xs in if a == x then xs else x ∷ rest

length-remove_first :
    (a : String) (xs : List String)
    → contains xs a ≡ true
    → suc (length (remove_first a xs)) ≡ length xs
unfolding remove_first
length-remove_first a [] h = cc
length-remove_first a (x ∷ xs) h = elim (Bool-cases (a == x)) [
  | inl e ↦ rw e refl
  | inr e ↦ rw e (ap suc (length-remove_first a xs (ground (arith, e))))
]

contains-remove_first :
    (a b : String) (xs : List String)
    → b ≢ a
    → contains xs b ≡ true
    → contains (remove_first a xs) b ≡ true
unfolding remove_first
contains-remove_first a b [] ne h = h
contains-remove_first a b (x ∷ xs) ne h = ground (arith, contains-remove_first a b xs ne)

pos_inj : (a b : ℕ) → pos a ≡ pos b → a ≡ b
pos_inj a b e = cc

abbrev IsTaken : List String → ℕ → Type 0
IsTaken ex n = contains ex (itoa (pos (n + 1))) ≡ true

-- When all of the first identifiers are in use, at least as many are.
all_taken : (m : ℕ) (ex : List String) → ((n : ℕ) → n < m → IsTaken ex n) → m ≤ length ex
all_taken zero ex h = omega arith
all_taken (suc m) ex h =
    let last = itoa (pos (m + 1)) in
    let others = λ (n : ℕ) (lt : n < m).
      contains-remove_first last (itoa (pos (n + 1))) ex
        (λ e. absurd (omega (arith, pos_inj _ _ (itoa_inj _ _ e)))) (h n (omega arith)) in
    omega (
      arith,
      all_taken m (remove_first last ex) others,
      length-remove_first last ex (h m (omega arith)),
    )

-- The first free one, or all are taken.
search_free :
    (m : ℕ) (ex : List String)
    → ((n : ℕ) × (n < m) × (contains ex (itoa (pos (n + 1))) ≡ false))
      ⊎ ((n : ℕ) → n < m → IsTaken ex n)
search_free zero ex = inr (λ n lt. absurd (omega arith))
search_free (suc m) ex = elim (search_free m ex) [
  | inl (n, lt, free) ↦ inl (n, omega arith, free)
  | inr all ↦ elim (Bool-cases (contains ex (itoa (pos (m + 1))))) [
    | inl e ↦ inr (λ n lt. elim (dec_lt n m) [
      | yes below ↦ all n below
      | no other ↦ subst (IsTaken ex) {x = m} {y = n} (omega arith) e
    ])
    | inr e ↦ inl (m, omega arith, e)
  ]
]

set_identifier_valid :
    (draws : List ℕ) (ex : List String) (max : ℕ) (z : ℤ)
    → is_valid ex max z ≡ true
    → set_identifier draws ex max z ≡ some z
unfolding set_identifier
set_identifier_valid [] ex max z v = rw v refl
set_identifier_valid (d ∷ ds) ex max z v = rw v refl

Finds : List ℕ → List String → ℕ → ℤ → Type 0
Finds draws ex max z =
    (id : ℤ) × (set_identifier draws ex max z ≡ some id) × (is_valid ex max id ≡ true)

set_identifier-Finds :
    (draws : List ℕ) (ex : List String) (max n : ℕ) (z : ℤ)
    → Elem n draws
    → is_valid ex max (pos (n + 1)) ≡ true
    → Finds draws ex max z
unfolding set_identifier Finds
set_identifier-Finds [] ex max n z m v = elim m [ ]
set_identifier-Finds (d ∷ ds) ex max n z (here e) v = elim (Bool-cases (is_valid ex max z)) [
  | inl now ↦ (z, rw now refl, now)
  | inr later ↦ rw later (
    pos (n + 1),
    subst (λ k. set_identifier ds ex max (pos (k + 1)) ≡ some (pos (n + 1))) e
        (set_identifier_valid ds ex max (pos (n + 1)) v),
    v,
  )
]
set_identifier-Finds (d ∷ ds) ex max n z (there m) v = elim (Bool-cases (is_valid ex max z)) [
  | inl now ↦ (z, rw now refl, now)
  | inr later ↦ rw later (set_identifier-Finds ds ex max n (pos (d + 1)) m v)
]

valid_free :
    (ex : List String) (max n : ℕ)
    → n < max
    → contains ex (itoa (pos (n + 1))) ≡ false
    → is_valid ex max (pos (n + 1)) ≡ true
valid_free ex max n lt free =
    rw (free, le→leb 1 (n + 1) (omega arith), le→leb (n + 1) max (omega arith)) refl

valid_parts :
    (ex : List String) (max : ℕ) (id : ℤ)
    → is_valid ex max id ≡ true
    → (contains ex (itoa id) ≡ false) × (in_range max id ≡ true)
valid_parts ex max id v = (ground (arith, v), ground (arith, v))

-- With fewer identifiers excluded than there may be targets: when every number below the maximum is
-- drawn at some time, the loop ends, and the identifier is in the range and not excluded.
pub set_identifier-returns :
    (draws : List ℕ) (ex : List String) (max : ℕ) (z : ℤ)
    → length ex < max
    → ((n : ℕ) → n < max → Elem n draws)
    → (id : ℤ) × (set_identifier draws ex max z ≡ some id)
      × (contains ex (itoa id) ≡ false)
      × (in_range max id ≡ true)
unfolding Finds
set_identifier-returns draws ex max z few drawn = elim (search_free max ex) [
  | inl (n, lt, free) ↦
      let (id, found, valid) =
        set_identifier-Finds draws ex max n z (drawn n lt) (valid_free ex max n lt free) in
      let (unused, fits) = valid_parts ex max id valid in (id, found, unused, fits)
  | inr all ↦ absurd (omega (arith, all_taken max ex all))
]

-- The load balancer reads the identifier that an open stream registers.
pub new_target-get_target :
    (E : Env) (s : Stream) (offset : ℤ)
    → s.target_status ≡ Status.enabled
    → new_target E (get_target s) offset
      ≡ some (record {
        fw_marks = [];
        nsp_target = get_target s;
        identifier = s.identifier;
        identifier_offset = offset;
      })
unfolding new_target lookup string_eq
new_target-get_target E s offset enabled =
    let test : (s.target_status == Status.enabled) ≡ true = ground (arith, enabled) in
    rw (test, atoi-itoa s.identifier) refl
