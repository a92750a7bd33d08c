-- ===== src/Nsp/Slices.antt =====
-- api/nsp/v1/utils.go: `compareSlice` and `DeepEquals`.
use meridio.Base.{
  ◌≡◌, ◌≢◌, ◌↔◌, ◌⊎◌, refl, inl, inr, Bool, true, false, not, ◌&&◌, Option, none, some, String,
  List, [], ◌∷◌, ◌==◌, string_eq, nat_eq, if◌then◌else◌, length, contains, arith, Bool-cases,
  Option-cases,
}
use meridio.Base.Dict.{
  Dict, is_some, lookup, insert, values, lookup-insert, lookup-nil, NodupKeys, insert-NodupKeys,
}
use meridio.Base.Int.{int_eq}
use meridio.Nsp.{Vip, Flow, flow_equals}

-- The loop over b: `m[item] = true`
pub mark_all : List String → Dict String Bool → Dict String Bool
mark_all [] m = m
mark_all (item ∷ items) m = mark_all items (insert item true m)

-- The loop over a; `none` is its `return false`.
pub unmark_all : List String → Dict String Bool → Option (Dict String Bool)
unmark_all [] m = some m
unmark_all (item ∷ items) m =
    let rest = unmark_all items (insert item false m) in
    if is_some (lookup item m) then rest else none

-- No value is left true.
abbrev pub none_true : List Bool → Bool
none_true [] = true
none_true (v ∷ vs) = not v && none_true vs

-- `compareSlice`
unfoldable pub compare_slice : List String → List String → Bool
unfolding mark_all unmark_all
compare_slice a b =
    if not (length a == length b)
    then false
    else if length a == 0
    then true
    else elim (unmark_all a (mark_all b [])) [ none ↦ false | some m ↦ none_true (values m) ]

abbrev pub vips_to_slice : List Vip → List String
vips_to_slice [] = []
vips_to_slice (vip ∷ vips) = vip.address ∷ vips_to_slice vips

-- `DeepEquals`, of flows that are not nil.
unfoldable pub deep_equals : Flow → Flow → Bool
deep_equals f f2 =
    flow_equals (some f) (some f2)
    && f.priority == f2.priority
    && compare_slice f.destination_port_ranges f2.destination_port_ranges
    && compare_slice f.protocols f2.protocols
    && compare_slice f.source_port_ranges f2.source_port_ranges
    && compare_slice f.source_subnets f2.source_subnets
    && compare_slice (vips_to_slice f.vips) (vips_to_slice f2.vips)
    && compare_slice f.byte_matches f2.byte_matches

lookup-mark_all :
    (j : String) (b : List String) (m : Dict String Bool)
    → lookup j (mark_all b m) ≡ (if contains b j then some true else lookup j m)
unfolding mark_all
lookup-mark_all j [] m = refl
lookup-mark_all j (item ∷ b) m =
    ground (arith, lookup-mark_all j b (insert item true m), lookup-insert j item true m)

mark_all-NodupKeys :
    (b : List String) (m : Dict String Bool) → NodupKeys m → NodupKeys (mark_all b m)
unfolding mark_all
mark_all-NodupKeys [] m h = h
mark_all-NodupKeys (item ∷ b) m h =
    mark_all-NodupKeys b (insert item true m) (insert-NodupKeys item true m h)

-- The loop over a stops early unless every item of a is a key, and else marks the items false.
unmark_all_lem :
    (a : List String) (m : Dict String Bool)
    → NodupKeys m
    → ((m' : Dict String Bool) × (unmark_all a m ≡ some m')
        × NodupKeys m'
        × ((j : String) → lookup j m' ≡ (if contains a j then some false else lookup j m))
        × ((j : String) → contains a j ≡ true → is_some (lookup j m) ≡ true))
      ⊎ ((unmark_all a m ≡ none) × ((j : String) × (contains a j ≡ true) × (lookup j m ≡ none)))
unfolding unmark_all
unmark_all_lem [] m h = inl (m, refl, h, (λ j. refl), (λ j c. absurd (cc)))
unmark_all_lem (item ∷ a) m h = elim (Option-cases (lookup item m)) [
  | inl missing ↦ inr (ground arith, (item, ground arith, missing))
  | inr (v, here) ↦
      elim (unmark_all_lem a (insert item false m) (insert-NodupKeys item false m h)) [
        | inl (m', e, h', f, g) ↦ inl (
          m',
          ground (arith, e),
          h',
          (λ j. ground (arith, f j, lookup-insert j item false m)),
          (λ j c. ground (arith, g j, lookup-insert j item false m)),
        )
        | inr (e, (j, c, l)) ↦ inr (
          ground (arith, e),
          (j, ground (arith, c), ground (arith, l, lookup-insert j item false m)),
        )
      ]
]

none_true→lookup :
    (m : Dict String Bool) (j : String) → none_true (values m) ≡ true → lookup j m ≢ some true
unfolding lookup
none_true→lookup [] j h = λ e. cc
none_true→lookup ((k, v) ∷ m) j h = λ e. ground (arith, none_true→lookup m j)

lookup→none_true :
    (m : Dict String Bool)
    → NodupKeys m
    → ((j : String) → lookup j m ≢ some true)
    → none_true (values m) ≡ true
unfolding lookup
lookup→none_true [] h f = refl
lookup→none_true ((k, true) ∷ m) h f = absurd (f k (ground arith))
lookup→none_true ((k, false) ∷ m) h f = lookup→none_true m h.1 (λ j e. elim (Bool-cases (j == k)) [
  | inl same ↦ ground (arith, e, same, h.0)
  | inr other ↦ f j (ground (arith, e, other))
])

lookup-marked :
    (j : String) (b : List String)
    → lookup j (mark_all b []) ≡ (if contains b j then some true else none)
lookup-marked j b = ground (arith, lookup-mark_all j b [], lookup-nil {V = Bool} j)

-- What the loop over a leaves of the marks of b tells whether they have the same elements.
marks→same :
    (a b : List String) (m : Dict String Bool)
    → ((j : String) → lookup j m ≡ (if contains a j then some false else lookup j (mark_all b [])))
    → ((j : String) → contains a j ≡ true → is_some (lookup j (mark_all b [])) ≡ true)
    → none_true (values m) ≡ true
    → (j : String) → contains a j ≡ contains b j
marks→same a b m f g h j = elim (Bool-cases (contains a j)) [
  | inl c ↦ ground (arith, c, g j c, lookup-marked j b)
  | inr c ↦
      let not_marked = none_true→lookup m j h in
      ground (arith, c, f j, lookup-marked j b, not_marked)
]

same→marks :
    (a b : List String) (m : Dict String Bool)
    → NodupKeys m
    → ((j : String) → lookup j m ≡ (if contains a j then some false else lookup j (mark_all b [])))
    → ((j : String) → contains a j ≡ contains b j)
    → none_true (values m) ≡ true
same→marks a b m n f same =
    lookup→none_true m n (λ j e. ground (arith, e, f j, lookup-marked j b, same j))

compare_slice-cons :
    (x : String) (a b : List String)
    → compare_slice (x ∷ a) b ≡ (
        if length (x ∷ a) == length b
        then (elim (unmark_all (x ∷ a) (mark_all b [])) [
          | none ↦ false
          | some m ↦ none_true (values m)
        ])
        else false)
unfolding compare_slice
compare_slice-cons x a b = ground arith

-- `compareSlice` is equality of the lengths and of the sets of elements.
pub compare_slice_iff :
    (a b : List String)
    → (compare_slice a b ≡ true)
      ↔ ((length a ≡ length b) × ((x : String) → contains a x ≡ contains b x))
unfolding compare_slice nat_eq
compare_slice_iff [] [] = ((λ e. (refl, λ x. refl)), (λ e. refl))
compare_slice_iff [] (y ∷ b) = ((λ e. absurd (ground arith)), (λ e. absurd (ground (arith, e.0))))
compare_slice_iff (x ∷ a) b =
    elim (unmark_all_lem (x ∷ a) (mark_all b []) (mark_all-NodupKeys b [] tt)) [
      | inl (m, e, n, f, g) ↦ (
        (λ h. (
          ground (arith, compare_slice-cons x a b),
          marks→same (x ∷ a) b m f g (ground (arith, e, compare_slice-cons x a b)),
        )),
        (λ h.
            let left = same→marks (x ∷ a) b m n f h.1 in
            ground (arith, e, h.0, left, compare_slice-cons x a b)),
      )
      | inr (e, (j, c, l)) ↦ (
        (λ h. absurd (ground (arith, e, compare_slice-cons x a b))),
        (λ h. absurd (ground (arith, c, l, h.1 j, lookup-marked j b))),
      )
    ]
