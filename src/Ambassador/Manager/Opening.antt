-- ===== src/Ambassador/Manager/Opening.antt =====
-- pkg/ambassador/tap/conduit/manager.go: which streams have a goroutine that opens them.
use meridio.Base.{
  ℕ, suc, ◌<◌, ◌≡◌, refl, ap, sym, subst, ◌∙◌, Bool, true, false, none, some, String, ◌∷◌, ◌==◌,
  nat_eq, string_eq, if◌then◌else◌, Elem, here, there, some_inj, none_some, some_unique, inl, inr,
  arith,
}
use meridio.Base.Dict.{
  lookup, insert, is_some, lookup-insert_self, lookup-insert_ne, lookup-insert_cases,
}
use meridio.Nsp
use meridio.Ambassador.Messages.{full_name}
use meridio.Ambassador.Manager.{StreamRetry, Goroutine, StreamManager}

-- A managed stream is under its full name, and has a goroutine that is not cancelled if and only if
-- the name is wanted; no other goroutine is left that is not cancelled.
pub record IsOpening (wanted : String → Bool) (sm : StreamManager) : Type 0 where
  pub keyed :
      (n : String) (sr : StreamRetry)
      → lookup n sm.streams ≡ some sr
      → full_name (some sr.stream) ≡ n
  pub opening :
      (n : String) (sr : StreamRetry)
      → lookup n sm.streams ≡ some sr
      → is_some sr.cancel_open ≡ wanted n
  pub owned :
      (g : Goroutine)
      → Elem g sm.goroutines
      → g.cancelled ≡ false
      → (sr : StreamRetry) × (lookup (full_name (some g.stream)) sm.streams ≡ some sr)
        × (sr.cancel_open ≡ some g.context)
  pub kept :
      (n : String) (sr : StreamRetry) (c : ℕ)
      → lookup n sm.streams ≡ some sr
      → sr.cancel_open ≡ some c
      → (g : Goroutine) × Elem g sm.goroutines
        × (g.cancelled ≡ false)
        × (g.context ≡ c)
        × (g.stream ≡ sr.stream)
  pub fresh : (g : Goroutine) → Elem g sm.goroutines → g.context < sm.contexts
  pub distinct :
      (n m : String) (sr sr' : StreamRetry) (c : ℕ)
      → lookup n sm.streams ≡ some sr
      → lookup m sm.streams ≡ some sr'
      → sr.cancel_open ≡ some c
      → sr'.cancel_open ≡ some c
      → n ≡ m

abbrev pub with_at : String → Bool → (String → Bool) → String → Bool
with_at n b wanted m = if m == n then b else wanted m

abbrev pub opened_retry : StreamRetry → ℕ → StreamRetry
opened_retry sr c = record sr { cancel_open = some c }

abbrev pub started : String → StreamRetry → Nsp.Stream → StreamManager → StreamManager
started n sr s sm = record sm {
  streams = insert n (opened_retry sr sm.contexts) sm.streams;
  goroutines =
      record { context = sm.contexts; cancelled = false; stream = sr.stream; nsp_stream = s }
      ∷ sm.goroutines;
  contexts = suc sm.contexts;
}

module _ (wanted : String → Bool) (n : String) (sr : StreamRetry) (s : Nsp.Stream)
    (sm : StreamManager) (h : IsOpening wanted sm) (at : lookup n sm.streams ≡ some sr)
    (idle : sr.cancel_open ≡ none) where
  -- A context that a managed stream holds was made before.
  held_before :
      (m : String) (sr' : StreamRetry) (c : ℕ)
      → lookup m sm.streams ≡ some sr'
      → sr'.cancel_open ≡ some c
      → c < sm.contexts
  held_before m sr' c e o =
      let (g, member, _, same, _) = h.kept m sr' c e o in
      subst (λ i. i < sm.contexts) same (h.fresh g member)

  started-owned :
      (g : Goroutine)
      → Elem g (started n sr s sm).goroutines
      → g.cancelled ≡ false
      → (sr' : StreamRetry) × (lookup (full_name (some g.stream)) (started n sr s sm).streams
          ≡ some sr')
        × (sr'.cancel_open ≡ some g.context)
  started-owned g (here e) live = (
    opened_retry sr sm.contexts,
    ap (λ i. lookup i (started n sr s sm).streams)
          (ap (λ i. full_name (some i.stream)) e ∙ h.keyed n sr at)
        ∙ lookup-insert_self n (opened_retry sr sm.contexts) sm.streams,
    ap (λ i. some i.context) (sym e),
  )
  started-owned g (there m) live =
      let (sr', e, o) = h.owned g m live in
      (
        sr',
        lookup-insert_ne (full_name (some g.stream)) n (opened_retry sr sm.contexts) sm.streams
              (λ same. none_some (
                sym idle
                ∙ ap StreamRetry.cancel_open
                    (some_unique at (sym (ap (λ i. lookup i sm.streams) same) ∙ e))
                ∙ o))
            ∙ e,
        o,
      )

  started-kept :
      (m : String) (sr' : StreamRetry) (c : ℕ)
      → lookup m (started n sr s sm).streams ≡ some sr'
      → sr'.cancel_open ≡ some c
      → (g : Goroutine) × Elem g (started n sr s sm).goroutines
        × (g.cancelled ≡ false)
        × (g.context ≡ c)
        × (g.stream ≡ sr'.stream)
  started-kept m sr' c e o =
      elim (lookup-insert_cases m n (opened_retry sr sm.contexts) sm.streams e) [
        | inl (same, e') ↦ (
          _,
          here refl,
          refl,
          some_inj (sym (ap StreamRetry.cancel_open e') ∙ o),
          sym (ap StreamRetry.stream e'),
        )
        | inr (other, e') ↦
            (let (g, member, live, same, from) = h.kept m sr' c e' o in
              (g, there member, live, same, from))
      ]

  started-distinct :
      (m k : String) (sr1 sr2 : StreamRetry) (c : ℕ)
      → lookup m (started n sr s sm).streams ≡ some sr1
      → lookup k (started n sr s sm).streams ≡ some sr2
      → sr1.cancel_open ≡ some c
      → sr2.cancel_open ≡ some c
      → m ≡ k
  started-distinct m k sr1 sr2 c e1 e2 o1 o2 =
      elim (lookup-insert_cases m n (opened_retry sr sm.contexts) sm.streams e1) [
        | inl (same1, e1') ↦
            elim (lookup-insert_cases k n (opened_retry sr sm.contexts) sm.streams e2) [
              | inl (same2, e2') ↦ same1 ∙ sym same2
              | inr (other2, e2') ↦ absurd (
                  omega (
                    arith,
                    held_before k sr2 c e2' o2,
                    some_inj (sym (ap StreamRetry.cancel_open e1') ∙ o1),
                  ))
            ]
        | inr (other1, e1') ↦
            elim (lookup-insert_cases k n (opened_retry sr sm.contexts) sm.streams e2) [
              | inl (same2, e2') ↦ absurd (
                  omega (
                    arith,
                    held_before m sr1 c e1' o1,
                    some_inj (sym (ap StreamRetry.cancel_open e2') ∙ o2),
                  ))
              | inr (other2, e2') ↦ h.distinct m k sr1 sr2 c e1' e2' o1 o2
            ]
      ]

  started-fresh :
      (g : Goroutine) → Elem g (started n sr s sm).goroutines → g.context < suc sm.contexts
  started-fresh g (here e) = omega (arith, ap Goroutine.context e)
  started-fresh g (there m) = omega (arith, h.fresh g m)

  pub started-IsOpening : IsOpening (with_at n true wanted) (started n sr s sm)
  started-IsOpening = record {
    keyed = λ k sr' e. elim (lookup-insert_cases k n (opened_retry sr sm.contexts) sm.streams e) [
      | inl (same, e') ↦ ap (λ i. full_name (some i.stream)) e' ∙ h.keyed n sr at ∙ sym same
      | inr (other, e') ↦ h.keyed k sr' e'
    ];
    opening = λ k sr' e. elim (lookup-insert_cases k n (opened_retry sr sm.contexts) sm.streams e) [
      | inl (same, e') ↦ ground (arith, ap StreamRetry.cancel_open e')
      | inr (other, e') ↦ ground (arith, h.opening k sr' e')
    ];
    owned = started-owned;
    kept = started-kept;
    fresh = started-fresh;
    distinct = started-distinct;
  }
