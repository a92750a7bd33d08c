-- ===== src/Ambassador/Manager/Closing.antt =====
-- pkg/ambassador/tap/conduit/manager.go: closing a stream cancels its goroutine and no other.
use meridio.Base.{
  ℕ, ◌<◌, ◌≡◌, ◌≢◌, refl, ap, sym, subst, ◌∙◌, Bool, true, false, Option, none, some, String, List,
  [], ◌∷◌, map, nat_eq, string_eq, Elem, here, there, some_inj, none_some, some_unique, inl, inr,
  arith,
}
use meridio.Base.Dict.{lookup, lookup-insert_ne, lookup-insert_cases}
use meridio.Ambassador.Messages.{full_name}
use meridio.Ambassador.Manager.{
  StreamRetry, Goroutine, StreamManager, close_retry, cancel, cancel_context,
}
use meridio.Ambassador.Manager.Opening.{IsOpening, with_at}

-- The goroutine has another context than the one that is cancelled, if any.
abbrev Spared : Option ℕ → Goroutine → Type 0
Spared o g = (c : ℕ) → o ≡ some c → g.context ≢ c

cancel_context_self :
    (c : ℕ) (g : Goroutine) → g.context ≡ c → (cancel_context c g).cancelled ≡ true
cancel_context_self c g same = ground arith

cancel_context_other : (c : ℕ) (g : Goroutine) → g.context ≢ c → cancel_context c g ≡ g
cancel_context_other c g other = ground arith

live-cancelled :
    (c : ℕ) (gs : List Goroutine) (g : Goroutine)
    → Elem g (map (cancel_context c) gs)
    → g.cancelled ≡ false
    → Elem g gs × (g.context ≢ c)
live-cancelled c [] g m live = elim m [ ]
live-cancelled c (x ∷ gs) g (here e) live = elim (nat_eq.dec x.context c) [
  | yes same ↦ absurd (ground (arith, live, ap Goroutine.cancelled e, cancel_context_self c x same))
  | no other ↦ (
    here (e ∙ cancel_context_other c x other),
    λ same. other (sym (ap Goroutine.context (e ∙ cancel_context_other c x other)) ∙ same),
  )
]
live-cancelled c (x ∷ gs) g (there m) live =
    let (old, spared) = live-cancelled c gs g m live in (there old, spared)

live-cancel :
    (o : Option ℕ) (gs : List Goroutine) (g : Goroutine)
    → Elem g (cancel o gs)
    → g.cancelled ≡ false
    → Elem g gs × Spared o g
live-cancel none gs g m live = (m, λ c e. none_some e)
live-cancel (some c) gs g m live =
    let (old, spared) = live-cancelled c gs g m live in
    (old, λ c' e. subst (λ i. g.context ≢ i) (some_inj e) spared)

Spared-cancelled :
    (c : ℕ) (gs : List Goroutine) (g : Goroutine)
    → Elem g gs
    → g.context ≢ c
    → Elem g (map (cancel_context c) gs)
Spared-cancelled c [] g m other = elim m [ ]
Spared-cancelled c (x ∷ gs) g (here e) other =
    here (e ∙ sym (cancel_context_other c x (λ same. other (ap Goroutine.context e ∙ same))))
Spared-cancelled c (x ∷ gs) g (there m) other = there (Spared-cancelled c gs g m other)

Spared-cancel :
    (o : Option ℕ) (gs : List Goroutine) (g : Goroutine)
    → Elem g gs
    → Spared o g
    → Elem g (cancel o gs)
Spared-cancel none gs g m spared = m
Spared-cancel (some c) gs g m spared = Spared-cancelled c gs g m (spared c refl)

-- Cancelling changes no context.
before-cancelled :
    (c k : ℕ) (gs : List Goroutine)
    → ((g : Goroutine) → Elem g gs → g.context < k)
    → (g : Goroutine) → Elem g (map (cancel_context c) gs)
    → g.context < k
before-cancelled c k [] before g m = elim m [ ]
before-cancelled c k (x ∷ gs) before g (here e) =
    subst (λ i. i < k) (sym (ap Goroutine.context e ∙ ground arith)) (before x (here refl))
before-cancelled c k (x ∷ gs) before g (there m) =
    before-cancelled c k gs (λ g' m'. before g' (there m')) g m

before-cancel :
    (o : Option ℕ) (k : ℕ) (gs : List Goroutine)
    → ((g : Goroutine) → Elem g gs → g.context < k)
    → (g : Goroutine) → Elem g (cancel o gs)
    → g.context < k
before-cancel none k gs before g m = before g m
before-cancel (some c) k gs before g m = before-cancelled c k gs before g m

module _ (wanted : String → Bool) (n : String) (sr : StreamRetry) (sm : StreamManager)
    (h : IsOpening wanted sm) (at : lookup n sm.streams ≡ some sr) where
  abbrev idle : StreamRetry
  idle = record sr { cancel_open = none }

  closed-owned :
      (g : Goroutine)
      → Elem g (close_retry n sr sm).goroutines
      → g.cancelled ≡ false
      → (sr' : StreamRetry) × (lookup (full_name (some g.stream)) (close_retry n sr sm).streams
          ≡ some sr')
        × (sr'.cancel_open ≡ some g.context)
  unfolding close_retry
  closed-owned g m live =
      let (old, spared) = live-cancel sr.cancel_open sm.goroutines g m live in
      let (sr', e, o) = h.owned g old live in
      (
        sr',
        lookup-insert_ne (full_name (some g.stream)) n idle sm.streams (λ same.
              spared g.context
                (ap StreamRetry.cancel_open
                    (some_unique at (sym (ap (λ i. lookup i sm.streams) same) ∙ e))
                  ∙ o)
                refl)
            ∙ e,
        o,
      )

  closed-kept :
      (m : String) (sr' : StreamRetry) (c : ℕ)
      → lookup m (close_retry n sr sm).streams ≡ some sr'
      → sr'.cancel_open ≡ some c
      → (g : Goroutine) × Elem g (close_retry n sr sm).goroutines
        × (g.cancelled ≡ false)
        × (g.context ≡ c)
        × (g.stream ≡ sr'.stream)
  unfolding close_retry
  closed-kept m sr' c e o = elim (lookup-insert_cases m n idle sm.streams e) [
    | inl (same, e') ↦ none_some (sym (ap StreamRetry.cancel_open e') ∙ o)
    | inr (other, e') ↦
        (let (g, member, live, same, from) = h.kept m sr' c e' o in
          (
            g,
            Spared-cancel sr.cancel_open sm.goroutines g member (λ c' o' equal.
                other (h.distinct m n sr' sr c e' at o (o' ∙ ap (λ i. some i) (sym equal ∙ same)))),
            live,
            same,
            from,
          ))
  ]

  pub close_retry-IsOpening : IsOpening (with_at n false wanted) (close_retry n sr sm)
  unfolding close_retry
  close_retry-IsOpening = record {
    keyed = λ k sr' e. elim (lookup-insert_cases k n idle sm.streams e) [
      | inl (same, e') ↦ ap (λ i. full_name (some i.stream)) e' ∙ h.keyed n sr at ∙ sym same
      | inr (other, e') ↦ h.keyed k sr' e'
    ];
    opening = λ k sr' e. elim (lookup-insert_cases k n idle sm.streams e) [
      | inl (same, e') ↦ ground (arith, ap StreamRetry.cancel_open e')
      | inr (other, e') ↦ ground (arith, h.opening k sr' e')
    ];
    owned = closed-owned;
    kept = closed-kept;
    fresh = before-cancel sr.cancel_open sm.contexts sm.goroutines h.fresh;
    distinct = λ m k sr1 sr2 c e1 e2 o1 o2. elim (lookup-insert_cases m n idle sm.streams e1) [
      | inl (same, e') ↦ none_some (sym (ap StreamRetry.cancel_open e') ∙ o1)
      | inr (other1, e1') ↦ elim (lookup-insert_cases k n idle sm.streams e2) [
        | inl (same, e') ↦ none_some (sym (ap StreamRetry.cancel_open e') ∙ o2)
        | inr (other2, e2') ↦ h.distinct m k sr1 sr2 c e1' e2' o1 o2
      ]
    ];
  }
