-- ===== src/Ambassador/Stream/Exclusive.antt =====
-- No two enabled entries have one identifier.
use mathlib.Core.Path.{fun_ext}
use meridio.Base.{
  ℕ, ◌≡◌, ◌≢◌, refl, ap, sym, subst, ◌∙◌, inl, inr, some, String, List, [], ◌∷◌, ◌==◌, string_eq,
  nat_eq, Bool-cases,
}
use meridio.Base.Tests.{eq→≡}
use meridio.Base.Dict.{lookup-nil, lookup}
use meridio.Nsp.{Status, Target, status_eq, type_eq}
use meridio.Nsp.KeepAlive.Entries.{remove_entry}
use meridio.Ambassador.Messages
use meridio.Ambassador.Stream.{
  Stream, Calls, ret, drawing, register, unregister, get_targets, open_stream, close_stream,
  identifier_of,
}
use meridio.Ambassador.Stream.Exchange
use meridio.Ambassador.Stream.Exchange.{System, Event, Delivery, put, deliver, entry_of}
use meridio.Ambassador.Stream.Keeps.{open_stream-Keeps, close_stream-Keeps}
use meridio.Ambassador.Stream.Protocol
use meridio.Ambassador.Stream.Protocol.{Claim, free, holding, claimed, learn, entered}
use meridio.Ambassador.Stream.Entries.{none-ne-some, key, AreDistinct, identifier_of-entry}
use meridio.Ambassador.Stream.Moves.{IsExclusive, IsMove, move-IsExclusive}
use meridio.Ambassador.Stream.Effects.{kept-IsMove, removed-IsMove, delivered}

same_at : (i : ℕ) (cs : ℕ → Calls) (j : ℕ) → put i (cs i) cs j ≡ cs j
same_at i cs j = elim (Bool-cases (j == i)) [
  | inl e ↦ rw e (ap cs (sym (eq→≡ j i e)))
  | inr e ↦ rw e refl
]

put_same : (i : ℕ) (cs : ℕ → Calls) → put i (cs i) cs ≡ cs
put_same i cs = fun_ext (same_at i cs)

module _ (stream : Messages.Stream) (ips : ℕ → List String) where
  module _ (distinct : AreDistinct stream ips) where
    quiet-free :
        (i : ℕ) (c : Calls) (κ : Claim)
        → Exchange.IsQuiet c
        → Protocol.Keeps stream ips i c κ
        → Protocol.Keeps stream ips i c free
    quiet-free i (ret z r) κ quiet k = record {
      of_stream = k.of_stream;
      of_ips = k.of_ips;
      of_claim = λ e. absurd (quiet e);
    }
    quiet-free i (drawing z) κ quiet k = absurd quiet
    quiet-free i (register t c) κ quiet k = absurd quiet
    quiet-free i (unregister t c) κ quiet k = absurd quiet
    quiet-free i (get_targets t c) κ quiet k = absurd quiet

    started :
        (s : System) (g : IsExclusive stream ips s) (i : ℕ) (f : Stream → Calls) (c : Calls)
        → ((z : Stream)
            → Protocol.Fits stream ips i (g.claims i) z
            → Protocol.Keeps stream ips i (f z) (g.claims i))
        → Protocol.Keeps stream ips i c (g.claims i)
        → IsMove stream ips i (g.claims i) (Exchange.start f c) s.entries s g.claims
    unfolding Exchange.start
    started s g i f (ret z r) method k = kept-IsMove stream ips distinct s g i (f z) (method z k)
    started s g i f (drawing z) method k = kept-IsMove stream ips distinct s g i (drawing z) k
    started s g i f (register t c) method k = kept-IsMove stream ips distinct s g i (register t c) k
    started s g i f (unregister t c) method k =
        kept-IsMove stream ips distinct s g i (unregister t c) k
    started s g i f (get_targets t c) method k =
        kept-IsMove stream ips distinct s g i (get_targets t c) k

    step-IsExclusive :
        (e : Event) (s : System)
        → Exchange.IsTimely stream ips e s
        → IsExclusive stream ips s
        → IsExclusive stream ips (Exchange.step stream ips e s)
    unfolding Exchange.step
    step-IsExclusive (Exchange.opened i draws rounds max) s timely g =
        move-IsExclusive stream ips s g i (g.claims i) _ s.entries (
          started s g i (open_stream draws rounds max (ips i)) (s.clients i)
            (λ z f. open_stream-Keeps stream ips i draws rounds max z (g.claims i) f)
            (g.local i).keeps)
    step-IsExclusive (Exchange.closed i) s timely g =
        move-IsExclusive stream ips s g i (g.claims i) _ s.entries (
          started s g i close_stream (s.clients i)
            (λ z f. close_stream-Keeps stream ips i z (g.claims i) f) (g.local i).keeps)
    step-IsExclusive (Exchange.called i d) s timely g =
        let (κ, m) = delivered stream ips distinct s g i d (s.clients i) (g.local i).keeps in
        move-IsExclusive stream ips s g i κ (deliver d (s.clients i) s.entries).1
          (deliver d (s.clients i) s.entries).0 m
    step-IsExclusive (Exchange.expired i) s timely g =
        let m =
          removed-IsMove stream ips distinct s g i "" Status.any (s.clients i)
            (quiet-free i (s.clients i) (g.claims i) timely (g.local i).keeps) in
        let es' = remove_entry (entry_of stream ips i "" Status.any) s.entries in
        subst (λ cs. IsExclusive stream ips (record { entries = es'; clients = cs }))
          (put_same i s.clients) (move-IsExclusive stream ips s g i free (s.clients i) es' m)

    run-IsExclusive :
        (es : List Event) (s : System)
        → Exchange.AreTimely stream ips es s
        → IsExclusive stream ips s
        → IsExclusive stream ips (Exchange.run stream ips es s)
    unfolding Exchange.run
    run-IsExclusive [] s timely g = g
    run-IsExclusive (e ∷ es) s timely g =
        run-IsExclusive es (Exchange.step stream ips e s) timely.1 (step-IsExclusive e s timely.0 g)

    initial-IsExclusive : IsExclusive stream ips (Exchange.initial stream)
    initial-IsExclusive = record {
      claims = λ i. free;
      local = λ i. record {
        keeps = record { of_stream = refl; of_ips = λ n e. cc; of_claim = λ e. cc };
        shape = λ t h. absurd (none-ne-some (lookup-nil {V = Target} (key stream ips i)) h);
        present = tt;
      };
      apart = λ i j x ne a b. elim a [
        | inl e ↦ cc
        | inr h ↦ none-ne-some (lookup-nil {V = Target} (key stream ips i)) h
      ];
    }

    -- From an empty registry and streams that were never opened, after any timely events: two
    -- entries of different targets that are both enabled have different identifiers.
    pub run-exclusive :
        (es : List Event)
        → Exchange.AreTimely stream ips es (Exchange.initial stream)
        → (i j : ℕ) (t u : Target) → i ≢ j
        → lookup (key stream ips i) (Exchange.run stream ips es (Exchange.initial stream)).entries
          ≡ some t
        → lookup (key stream ips j) (Exchange.run stream ips es (Exchange.initial stream)).entries
          ≡ some u
        → t.status ≡ Status.enabled
        → u.status ≡ Status.enabled
        → identifier_of t ≢ identifier_of u
    run-exclusive es timely i j t u ne ht hu et eu same =
        let g = run-IsExclusive es (Exchange.initial stream) timely initial-IsExclusive in
        let (x, st, e) = (g.local i).shape t ht in
        let (y, su, f) = (g.local j).shape u hu in
        let named_t = ap identifier_of e ∙ identifier_of-entry stream ips i x st in
        let named_u = ap identifier_of f ∙ identifier_of-entry stream ips j y su in
        let xy : x ≡ y = sym named_t ∙ same ∙ named_u in
        g.apart i j x ne
          (inr (ht ∙ ap some (e ∙ ap (entry_of stream ips i x) (sym (ap (λ v. v.status) e) ∙ et))))
          (inr (
            hu
            ∙ ap some (
                f
                ∙ ap (λ z. entry_of stream ips j z su) (sym xy)
                ∙ ap (entry_of stream ips j x) (sym (ap (λ v. v.status) f) ∙ eu))))
