-- ===== src/Ambassador/Stream/Moves.antt =====
-- A move of one target leaves what holds of the others.
use meridio.Base.{
  ℕ, ◌≡◌, ◌≢◌, sym, subst, ◌∙◌, ◌⊎◌, inl, inr, false, some, String, List, ◌==◌, string_eq, nat_eq,
  if◌then◌else◌, arith, Bool-cases,
}
use meridio.Base.Tests.{eq→≡}
use meridio.Base.Dict.{lookup}
use meridio.Nsp.{Status, Target, status_eq, type_eq}
use meridio.Nsp.KeepAlive.Entries.{Entries}
use meridio.Ambassador.Messages
use meridio.Ambassador.Stream.{Calls}
use meridio.Ambassador.Stream.Exchange.{System, put, entry_of}
use meridio.Ambassador.Stream.Protocol
use meridio.Ambassador.Stream.Protocol.{Claim, free, holding, claimed, learn, entered}
use meridio.Ambassador.Stream.Entries.{key, Has}

ne_bool : (j i : ℕ) → (j == i) ≡ false → j ≢ i
ne_bool j i e same = ground arith

module _ (stream : Messages.Stream) (ips : ℕ → List String) where
  abbrev pub Present : ℕ → Claim → Entries → Type 0
  Present i free es = Unit {0}
  Present i (holding x) es = Has stream ips i x es
  Present i (claimed x) es = Has stream ips i x es

  -- The identifier is claimed, or enabled.
  abbrev pub IsOwner : ℕ → Claim → String → Entries → Type 0
  IsOwner i κ x es =
      (κ ≡ claimed x)
      ⊎ (lookup (key stream ips i) es ≡ some (entry_of stream ips i x Status.enabled))

  -- All that holds of one target.
  pub record IsLocal (i : ℕ) (κ : Claim) (c : Calls) (es : Entries) : Type 0 where
    pub keeps : Protocol.Keeps stream ips i c κ
    pub shape :
        (t : Target)
        → lookup (key stream ips i) es ≡ some t
        → (x : String) × (st : Status) × (t ≡ entry_of stream ips i x st)
    pub present : Present i κ es

  pub record IsExclusive (s : System) : Type 0 where
    pub claims : ℕ → Claim
    pub local : (i : ℕ) → IsLocal i (claims i) (s.clients i) s.entries
    pub apart :
        (i j : ℕ) (x : String)
        → i ≢ j
        → IsOwner i (claims i) x s.entries
        → IsOwner j (claims j) x s.entries
        → ⊥

  -- A move of one target: what holds of it afterwards, and that it takes nobody's identifier.
  pub record IsMove (i : ℕ) (κ : Claim) (c : Calls) (es' : Entries) (s : System)
      (claims : ℕ → Claim) : Type 0 where
    pub after : IsLocal i κ c es'
    pub others :
        (j : ℕ) → j ≢ i → lookup (key stream ips j) es' ≡ lookup (key stream ips j) s.entries
    pub takes_none :
        (x : String) (j : ℕ) → j ≢ i → IsOwner i κ x es' → IsOwner j (claims j) x s.entries → ⊥

  pub IsLocal-others :
      (j : ℕ) (κ : Claim) (c : Calls) (es es' : Entries)
      → lookup (key stream ips j) es' ≡ lookup (key stream ips j) es
      → IsLocal j κ c es
      → IsLocal j κ c es'
  IsLocal-others j free c es es' e l = record {
    keeps = l.keeps;
    shape = λ t h. l.shape t (sym e ∙ h);
    present = tt;
  }
  IsLocal-others j (holding x) c es es' e l = record {
    keeps = l.keeps;
    shape = λ t h. l.shape t (sym e ∙ h);
    present = (l.present.0, e ∙ l.present.1);
  }
  IsLocal-others j (claimed x) c es es' e l = record {
    keeps = l.keeps;
    shape = λ t h. l.shape t (sym e ∙ h);
    present = (l.present.0, e ∙ l.present.1);
  }

  pub IsOwner-others :
      (j : ℕ) (κ : Claim) (x : String) (es es' : Entries)
      → lookup (key stream ips j) es' ≡ lookup (key stream ips j) es
      → IsOwner j κ x es'
      → IsOwner j κ x es
  IsOwner-others j κ x es es' e (inl own) = inl own
  IsOwner-others j κ x es es' e (inr h) = inr (sym e ∙ h)

  pub IsOwner-at :
      (s : System) (g : IsExclusive s) (i : ℕ) (κ : Claim) (es' : Entries)
      → ((j : ℕ) → j ≢ i → lookup (key stream ips j) es' ≡ lookup (key stream ips j) s.entries)
      → (j : ℕ) (x : String) → IsOwner j (if j == i then κ else g.claims j) x es'
      → ((j ≡ i) × IsOwner i κ x es') ⊎ ((j ≢ i) × IsOwner j (g.claims j) x s.entries)
  IsOwner-at s g i κ es' others j x o = elim (Bool-cases (j == i)) [
    | inl e ↦
        let same = eq→≡ j i e in
        inl (
          same,
          subst (λ k. IsOwner k κ x es') same
              (subst (λ b. IsOwner j (if b then κ else g.claims j) x es') e o),
        )
    | inr e ↦
        let other = ne_bool j i e in
        inr (
          other,
          IsOwner-others j (g.claims j) x s.entries es' (others j other)
              (subst (λ b. IsOwner j (if b then κ else g.claims j) x es') e o),
        )
  ]

  pub move-IsExclusive :
      (s : System) (g : IsExclusive s) (i : ℕ) (κ : Claim) (c : Calls) (es' : Entries)
      → IsMove i κ c es' s g.claims
      → IsExclusive (record { entries = es'; clients = put i c s.clients })
  move-IsExclusive s g i κ c es' m = record {
    claims = λ j. if j == i then κ else g.claims j;
    local = λ j. elim (Bool-cases (j == i)) [
      | inl e ↦ rw e (subst (λ k. IsLocal k κ c es') (sym (eq→≡ j i e)) m.after)
      | inr e ↦ rw e (
          IsLocal-others j (g.claims j) (s.clients j) s.entries es' (m.others j (ne_bool j i e))
            (g.local j))
    ];
    apart = λ a b x ne oa ob. elim (IsOwner-at s g i κ es' m.others a x oa) [
      | inl (ea, own) ↦ elim (IsOwner-at s g i κ es' m.others b x ob) [
        | inl (eb, _) ↦ ne (ea ∙ sym eb)
        | inr (nb, old) ↦ m.takes_none x b nb own old
      ]
      | inr (na, old) ↦ elim (IsOwner-at s g i κ es' m.others b x ob) [
        | inl (eb, own) ↦ m.takes_none x a na own old
        | inr (nb, old') ↦ g.apart a b x ne old old'
      ]
    ];
  }
