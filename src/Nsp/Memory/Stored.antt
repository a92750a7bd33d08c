-- ===== src/Nsp/Memory/Stored.antt =====
-- What `Set` leaves in the registry.
use meridio.Base.{
  ℕ, zero, suc, ◌≡◌, ◌≢◌, refl, ◌⊎◌, inl, inr, ap, sym, subst, true, false, ◌<◌, some_inj, String,
  string_eq, nat_eq, contains, All, Option, none, some, List, [], ◌∷◌, ◌++◌, arith, Bool-cases,
  Option-cases, length,
}
use meridio.Nsp.{Target, Stream, stream_equals, type_eq}
use meridio.Nsp.Memory.{
  TargetRegistry, get_target_key, key_equals, get_index, refresh_at, set, all_in, compare_ips,
  same_stream,
}

-- The target at the position of a list.
abbrev pub get_elem? : ℕ → List Target → Option Target
get_elem? i [] = none
get_elem? zero (t ∷ ts) = some t
get_elem? (suc i) (t ∷ ts) = get_elem? i ts

-- The key of the one target is that of the other: as many addresses, all of which the one has, the
-- same type, and equal streams if both have one.
pub record HasKey (target t : Target) : Type 0 where
  pub as_many : length target.ips ≡ length t.ips
  pub ips : (ip : String) → contains t.ips ip ≡ true → contains target.ips ip ≡ true
  pub kind : target.kind ≡ t.kind
  pub stream :
      (s s2 : Stream)
      → target.stream ≡ some s
      → t.stream ≡ some s2
      → stream_equals (some s) (some s2) ≡ true

all_in→contains :
    (ips1 ips2 : List String)
    → all_in ips1 ips2 ≡ true
    → (ip : String) → contains ips2 ip ≡ true
    → contains ips1 ip ≡ true
all_in→contains ips1 [] h ip k = cc
all_in→contains ips1 (x ∷ ips2) h ip k = elim (string_eq.dec ip x) [
  | yes same ↦ subst (λ i. contains ips1 i ≡ true) (sym same) (ground (arith, h))
  | no other ↦ all_in→contains ips1 ips2 (ground (arith, h)) ip (ground (arith, k))
]

contains→all_in :
    (ips1 ips2 : List String)
    → ((ip : String) → contains ips2 ip ≡ true → contains ips1 ip ≡ true)
    → all_in ips1 ips2 ≡ true
contains→all_in ips1 [] h = refl
contains→all_in ips1 (x ∷ ips2) h =
    ground (arith, h x (ground arith), contains→all_in ips1 ips2 (λ ip k. h ip (ground (arith, k))))

same_stream→equals :
    (o o2 : Option Stream)
    → same_stream o o2 ≡ true
    → (s s2 : Stream) → o ≡ some s
    → o2 ≡ some s2
    → stream_equals (some s) (some s2) ≡ true
same_stream→equals o o2 h s s2 e e2 = ground (arith, h, e, e2)

equals→same_stream :
    (o o2 : Option Stream)
    → ((s s2 : Stream) → o ≡ some s → o2 ≡ some s2 → stream_equals (some s) (some s2) ≡ true)
    → same_stream o o2 ≡ true
equals→same_stream none o2 h = refl
equals→same_stream (some s) none h = refl
equals→same_stream (some s) (some s2) h = h s s2 refl refl

equals→HasKey :
    (target t : Target)
    → key_equals (get_target_key target) (get_target_key t) ≡ true
    → HasKey target t
unfolding key_equals compare_ips
equals→HasKey target t h = record {
  as_many = ground (arith, h);
  ips = all_in→contains target.ips t.ips (ground (arith, h));
  kind = ground (arith, h);
  stream = same_stream→equals target.stream t.stream (ground (arith, h));
}

HasKey→equals :
    (target t : Target)
    → HasKey target t
    → key_equals (get_target_key target) (get_target_key t) ≡ true
unfolding key_equals compare_ips
HasKey→equals target t h = ground (
  arith,
  h.as_many,
  contains→all_in target.ips t.ips h.ips,
  h.kind,
  equals→same_stream target.stream t.stream h.stream,
)

-- The target at a position is the first with the key, and was given the context and the status.
pub record IsRefreshed (target : Target) (i : ℕ) (ts ts' : List Target) : Type 0 where
  pub old : Target
  pub held : get_elem? i ts ≡ some old
  pub same_key : HasKey target old
  pub earlier : (j : ℕ) (t : Target) → j < i → get_elem? j ts ≡ some t → ¬ HasKey target t
  pub updated :
      get_elem? i ts' ≡ some (record old { context = target.context; status = target.status })
  pub others : (j : ℕ) → j ≢ i → get_elem? j ts' ≡ get_elem? j ts
  pub as_many : length ts' ≡ length ts

differs :
    (target t : Target)
    → key_equals (get_target_key target) (get_target_key t) ≡ false
    → ¬ HasKey target t
differs target t other k = ground (arith, other, HasKey→equals target t k)

cons-IsRefreshed :
    (target t : Target) (i : ℕ) (ts ts' : List Target)
    → ¬ HasKey target t
    → IsRefreshed target i ts ts'
    → IsRefreshed target (suc i) (t ∷ ts) (t ∷ ts')
cons-IsRefreshed target t i ts ts' other r = record {
  old = r.old;
  held = r.held;
  same_key = r.same_key;
  earlier = before;
  updated = r.updated;
  others = tail;
  as_many = ap suc r.as_many;
}
  where
    before : (j : ℕ) (x : Target) → j < suc i → get_elem? j (t ∷ ts) ≡ some x → ¬ HasKey target x
    before zero x less e k = other (subst (HasKey target) (sym (some_inj e)) k)
    before (suc j) x less e k = r.earlier j x (omega (arith, less)) e k

    tail : (j : ℕ) → j ≢ suc i → get_elem? j (t ∷ ts') ≡ get_elem? j (t ∷ ts)
    tail zero h = refl
    tail (suc j) h = r.others j (λ e. h (ap suc e))

head_others :
    (j : ℕ) (t t' : Target) (ts : List Target)
    → j ≢ 0
    → get_elem? j (t' ∷ ts) ≡ get_elem? j (t ∷ ts)
head_others zero t t' ts h = absurd (h refl)
head_others (suc j) t t' ts h = refl

refresh_at-IsRefreshed :
    (target : Target) (ts : List Target) (i : ℕ)
    → get_index target ts ≡ some i
    → IsRefreshed target i ts (refresh_at i target ts)
unfolding get_index refresh_at
refresh_at-IsRefreshed target [] i h = cc
refresh_at-IsRefreshed target (t ∷ ts) i h =
    elim (Bool-cases (key_equals (get_target_key target) (get_target_key t))) [
      | inl same ↦
          let here : 0 ≡ i = ground (arith, same) in
          rw (← here) (record {
            old = t;
            held = refl;
            same_key = equals→HasKey target t same;
            earlier = λ j x less e k. absurd (omega (arith, less));
            updated = refl;
            others = λ j n. head_others j t _ ts n;
            as_many = refl;
          })
      | inr other ↦ elim (Option-cases (get_index target ts)) [
        | inl missing ↦ absurd (ground (arith, other, missing))
        | inr (k, found) ↦
            let there : suc k ≡ i = ground (arith, other, found) in
            rw (← there) (
              cons-IsRefreshed target t k ts (refresh_at k target ts) (differs target t other)
                (refresh_at-IsRefreshed target ts k found))
      ]
    ]

get_index-none :
    (target : Target) (ts : List Target)
    → get_index target ts ≡ none
    → All (λ t. ¬ HasKey target t) ts
unfolding get_index
get_index-none target [] h = tt
get_index-none target (t ∷ ts) h =
    elim (Bool-cases (key_equals (get_target_key target) (get_target_key t))) [
      | inl same ↦ absurd (ground (arith, h, same))
      | inr other ↦ elim (Option-cases (get_index target ts)) [
        | inl missing ↦ (differs target t other, get_index-none target ts missing)
        | inr (k, found) ↦ absurd (ground (arith, h, other, found))
      ]
    ]

-- `Set` appends a target whose key no target has, and otherwise gives the first target with its
-- key the new context and status, and leaves its addresses, type and stream and all other
-- targets as they were.
pub set-IsRefreshed :
    (target : Target) (trm : TargetRegistry)
    → (All (λ t. ¬ HasKey target t) trm.targets
        × ((set target trm).targets ≡ trm.targets ++ target ∷ []))
      ⊎ ((i : ℕ) × IsRefreshed target i trm.targets (set target trm).targets)
unfolding set
set-IsRefreshed target trm = elim (Option-cases (get_index target trm.targets)) [
  | inl e ↦ inl (get_index-none target trm.targets e, ground (arith, e))
  | inr (i, e) ↦ inr (
    i,
    subst (IsRefreshed target i trm.targets) {x = refresh_at i target trm.targets}
        {y = (set target trm).targets} (ground (arith, e))
        (refresh_at-IsRefreshed target trm.targets i e),
  )
]
