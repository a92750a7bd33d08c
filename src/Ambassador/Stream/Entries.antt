-- ===== src/Ambassador/Stream/Entries.antt =====
-- The entries of the targets in the registry, and what a list of them shows.
use meridio.Base.{
  some_inj, ℕ, ◌≡◌, ◌≢◌, refl, ap, sym, subst, ◌∙◌, inl, inr, Bool, true, false, Option, none, some,
  String, List, [], ◌∷◌, ◌==◌, string_eq, nat_eq, if◌then◌else◌, arith, Bool-cases, contains,
  keep_if,
}
use meridio.Base.Tests.{eq→≡, eq_refl}
use meridio.Base.Dict.{lookup, lookup-insert, lookup-erase, values}
use meridio.Nsp.{
  Status, TargetType, Target, status_eq, type_eq, target_filter, stream_filter, conduit_filter,
  trench_filter,
}
use meridio.Nsp.Sqlite.{get_target_id}
use meridio.Nsp.KeepAlive.Entries.{accepted, Entries, set_entry, remove_entry}
use meridio.Ambassador.Messages
use meridio.Ambassador.Stream.{new, selector, same_ips, identifiers_in_use, identifier_of}
use meridio.Ambassador.Stream.Exchange.{entry_of}

-- An identifier in a list stands in the longer one.
seen_later :
    (b : Bool) (l : List String) (t : Target) (ts : List Target) (x : String)
    → contains (identifiers_in_use l ts) x ≡ true
    → contains (identifiers_in_use l (if b then t ∷ ts else ts)) x ≡ true
unfolding identifiers_in_use
seen_later true l t ts x h = ground arith
seen_later false l t ts x h = h

pub none-ne-some : {o : Option Target} {t : Target} → o ≡ none → o ≡ some t → ⊥
none-ne-some e h = cc

module _ (stream : Messages.Stream) (ips : ℕ → List String) where
  -- The identifier of a target in the registry.
  unfoldable pub key : ℕ → String
  key i = get_target_id (entry_of stream ips i "" Status.any)

  -- The targets do not share addresses, nor identifiers in the registry.
  pub record AreDistinct : Type 0 where
    pub keys : (i j : ℕ) → i ≢ j → key i ≢ key j
    pub addresses : (i j : ℕ) → i ≢ j → same_ips (ips j) (ips i) ≡ false

  pub get_target_id-entry :
      (i : ℕ) (x : String) (st : Status) → get_target_id (entry_of stream ips i x st) ≡ key i
  unfolding key get_target_id
  get_target_id-entry i x st = refl

  -- An entry of the target with the identifier.
  abbrev pub Has : ℕ → String → Entries → Type 0
  Has i x es = (st : Status) × (lookup (key i) es ≡ some (entry_of stream ips i x st))

  accepted_disabled :
      (o : Option Target) (i : ℕ) (x : String)
      → accepted o (entry_of stream ips i x Status.disabled)
        ≡ entry_of stream ips i x Status.disabled
  accepted_disabled none i x = refl
  accepted_disabled (some _) i x = refl

  pub identifier_of-entry :
      (j : ℕ) (x : String) (st : Status) → identifier_of (entry_of stream ips j x st) ≡ x
  unfolding lookup string_eq
  identifier_of-entry j x st = refl

  selected :
      (j : ℕ) (x : String) (st : Status)
      → target_filter (some (selector (new stream))) (some (entry_of stream ips j x st)) ≡ true
  unfolding target_filter stream_filter conduit_filter trench_filter
  selected j x st = ground (
    arith,
    eq_refl Status.any,
    eq_refl TargetType.default,
    eq_refl stream.name,
    eq_refl (Messages.conduit_name stream.conduit),
    eq_refl (Messages.trench_name (Messages.conduit_trench stream.conduit)),
  )

  module _ (distinct : AreDistinct) where
    pub lookup-set_entry :
        (k : String) (t : Target) (es : Entries)
        → lookup k (set_entry t es) ≡ (
            if k == get_target_id t
            then some (accepted (lookup (get_target_id t) es) t)
            else lookup k es)
    unfolding set_entry
    lookup-set_entry k t es = lookup-insert k (get_target_id t) _ es

    pub other_key :
        (i j : ℕ) (x : String) (st : Status)
        → j ≢ i
        → (key j == get_target_id (entry_of stream ips i x st)) ≡ false
    other_key i j x st ne =
        elim (Bool-cases (key j == get_target_id (entry_of stream ips i x st))) [
          | inl e ↦ absurd (distinct.keys j i ne (eq→≡ _ _ e ∙ get_target_id-entry i x st))
          | inr e ↦ e
        ]

    pub own_key :
        (i : ℕ) (x : String) (st : Status)
        → (key i == get_target_id (entry_of stream ips i x st)) ≡ true
    own_key i x st = rw (get_target_id-entry i x st) (eq_refl (key i))

    pub set_other :
        (i j : ℕ) (x : String) (st : Status) (es : Entries)
        → j ≢ i
        → lookup (key j) (set_entry (entry_of stream ips i x st) es) ≡ lookup (key j) es
    set_other i j x st es ne = lookup-set_entry (key j) _ es ∙ rw (other_key i j x st ne) refl

    pub set_disabled :
        (i : ℕ) (x : String) (es : Entries)
        → lookup (key i) (set_entry (entry_of stream ips i x Status.disabled) es)
          ≡ some (entry_of stream ips i x Status.disabled)
    set_disabled i x es =
        lookup-set_entry (key i) _ es
        ∙ rw (own_key i x Status.disabled) (ap some (accepted_disabled _ i x))

    pub set_held :
        (i : ℕ) (x y : String) (st : Status) (es : Entries)
        → Has i y es
        → lookup (key i) (set_entry (entry_of stream ips i x st) es)
          ≡ some (entry_of stream ips i x st)
    set_held i x y st es (st', h) =
        lookup-set_entry (key i) _ es
        ∙ rw (own_key i x st) (rw (get_target_id-entry i x st, h) refl)

    pub remove_other :
        (i j : ℕ) (x : String) (st : Status) (es : Entries)
        → j ≢ i
        → lookup (key j) (remove_entry (entry_of stream ips i x st) es) ≡ lookup (key j) es
    remove_other i j x st es ne = lookup-erase (key j) _ es ∙ rw (other_key i j x st ne) refl

    pub remove_own :
        (i : ℕ) (x : String) (st : Status) (es : Entries)
        → lookup (key i) (remove_entry (entry_of stream ips i x st) es) ≡ none
    remove_own i x st es = lookup-erase (key i) _ es ∙ rw (own_key i x st) refl

    pub seen_in :
        (i j : ℕ) (x : String) (st : Status)
        → j ≢ i
        → (es : Entries) → lookup (key j) es ≡ some (entry_of stream ips j x st)
        → contains
            (identifiers_in_use
              (ips i)
              (keep_if (λ t. target_filter (some (selector (new stream))) (some t)) (values es)))
            x
          ≡ true
    unfolding lookup identifiers_in_use
    seen_in i j x st ne [] h = cc
    seen_in i j x st ne ((k, t) ∷ es) h = elim (Bool-cases (key j == k)) [
      | inl e ↦
          let r =
            keep_if (λ u. target_filter (some (selector (new stream))) (some u)) (values es) in
          let mine =
            subst
              (λ b. (if b then some t else lookup (key j) es) ≡ some (entry_of stream ips j x st)) e
              h in
          subst
            (λ u.
              contains
                (identifiers_in_use (ips i)
                  (if target_filter (some (selector (new stream))) (some u) then u ∷ r else r))
                x
              ≡ true)
            (sym (some_inj mine))
            (rw
              (
                selected j x st,
                distinct.addresses i j (λ e. ne (sym e)),
                identifier_of-entry j x st,
                eq_refl x,
              )
              refl)
      | inr e ↦
          let later =
            subst
              (λ b. (if b then some t else lookup (key j) es) ≡ some (entry_of stream ips j x st)) e
              h in
          seen_later (target_filter (some (selector (new stream))) (some t)) (ips i) t _ x
            (seen_in i j x st ne es later)
    ]
