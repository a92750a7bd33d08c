-- ===== src/Ambassador/Stream/Effects.antt =====
-- What each call of a target does to the entries, and what the target knows then.
use meridio.Base.{
  some_inj, ℕ, ◌≡◌, ◌≢◌, refl, ap, sym, subst, ◌∙◌, inl, inr, true, false, none, some, String, List,
  [], ◌∷◌, string_eq, nat_eq, if◌then◌else◌, Bool-cases, contains,
}
use meridio.Base.Dict.{Dict}
use meridio.Nsp.{Status, status_eq, type_eq}
use meridio.Nsp.Registry.{filter}
use meridio.Nsp.KeepAlive.Entries.{set_entry, remove_entry, get_entries}
use meridio.Ambassador.Messages
use meridio.Ambassador.Stream.{
  new, selector, Calls, ret, drawing, register, unregister, get_targets, identifiers_in_use,
}
use meridio.Ambassador.Stream.Exchange.{System, Delivery, deliver, entry_of}
use meridio.Ambassador.Stream.Protocol
use meridio.Ambassador.Stream.Protocol.{Claim, free, holding, claimed, learn, entered}
use meridio.Ambassador.Stream.Entries.{
  AreDistinct, Has, set_other, set_disabled, set_held, remove_other, remove_own, seen_in,
}
use meridio.Ambassador.Stream.Moves.{Present, IsOwner, IsExclusive, IsMove}

abbrev first_value : Dict String String → String
first_value [] = ""
first_value ((k, v) ∷ d) = v

learn-none : (l : List String) (κ : Claim) → learn l κ none ≡ κ
learn-none l free = refl
learn-none l (holding x) = refl
learn-none l (claimed x) = refl

module _ (stream : Messages.Stream) (ips : ℕ → List String) where
  module _ (distinct : AreDistinct stream ips) (s : System) (g : IsExclusive stream ips s)
      (i : ℕ) where
    -- The entries stay as they are.
    pub silent-IsMove :
        (κ : Claim) (c : Calls)
        → Protocol.Keeps stream ips i c κ
        → Present stream ips i κ s.entries
        → ((x : String) (j : ℕ)
            → j ≢ i
            → κ ≡ claimed x
            → IsOwner stream ips j (g.claims j) x s.entries
            → ⊥)
        → IsMove stream ips i κ c s.entries s g.claims
    silent-IsMove κ c keeps present takes = record {
      after = record { keeps = keeps; shape = (g.local i).shape; present = present };
      others = λ j ne. refl;
      takes_none = λ x j ne own old. elim own [
        | inl e ↦ takes x j ne e old
        | inr h ↦ g.apart i j x (λ e. ne (sym e)) (inr h) old
      ];
    }

    -- The claim stays as it is.
    pub kept-IsMove :
        (c : Calls)
        → Protocol.Keeps stream ips i c (g.claims i)
        → IsMove stream ips i (g.claims i) c s.entries s g.claims
    kept-IsMove c keeps =
        silent-IsMove (g.claims i) c keeps (g.local i).present
          (λ x j ne e old. g.apart i j x (λ e'. ne (sym e')) (inl e) old)

    -- The claim is given up.
    pub free-IsMove :
        (c : Calls)
        → Protocol.Keeps stream ips i c free
        → IsMove stream ips i free c s.entries s g.claims
    free-IsMove c keeps = silent-IsMove free c keeps tt (λ x j ne e old. cc)

    pub disabled-IsMove :
        (x : String) (κ : Claim) (c : Calls)
        → Protocol.Keeps stream ips i c κ
        → (Has stream ips i x (set_entry (entry_of stream ips i x Status.disabled) s.entries)
            → Present stream ips i κ
                (set_entry (entry_of stream ips i x Status.disabled) s.entries))
        → ((y : String) → κ ≢ claimed y)
        → IsMove stream ips i κ c
            (set_entry (entry_of stream ips i x Status.disabled) s.entries)
            s
            g.claims
    disabled-IsMove x κ c keeps present unclaimed =
        let stored = set_disabled stream ips distinct i x s.entries in
        record {
          after = record {
            keeps = keeps;
            shape = λ t h. (x, Status.disabled, some_inj (sym h ∙ stored));
            present = present (Status.disabled, stored);
          };
          others = λ j ne. set_other stream ips distinct i j x Status.disabled s.entries ne;
          takes_none = λ y j ne own old. elim own [
            | inl e ↦ unclaimed y e
            | inr h ↦ cc (ap (λ t. t.status) (some_inj (sym stored ∙ h)))
          ];
        }

    pub enabled-IsMove :
        (x : String) (c : Calls)
        → g.claims i ≡ claimed x
        → Protocol.Keeps stream ips i c (claimed x)
        → IsMove stream ips i
            (claimed x)
            c
            (set_entry (entry_of stream ips i x Status.enabled) s.entries)
            s
            g.claims
    enabled-IsMove x c own keeps =
        let held = subst (λ κ. Present stream ips i κ s.entries) own (g.local i).present in
        let stored = set_held stream ips distinct i x x Status.enabled s.entries held in
        record {
          after = record {
            keeps = keeps;
            shape = λ t h. (x, Status.enabled, some_inj (sym h ∙ stored));
            present = (Status.enabled, stored);
          };
          others = λ j ne. set_other stream ips distinct i j x Status.enabled s.entries ne;
          takes_none = λ y j ne o old.
              let same : x ≡ y = elim o [
                | inl e ↦ cc
                | inr h ↦ ap (λ t. first_value t.context) (some_inj (sym stored ∙ h))
              ] in
              g.apart i j y (λ e. ne (sym e)) (inl (own ∙ ap claimed same)) old;
        }

    pub removed-IsMove :
        (x : String) (st : Status) (c : Calls)
        → Protocol.Keeps stream ips i c free
        → IsMove stream ips i free c
            (remove_entry (entry_of stream ips i x st) s.entries)
            s
            g.claims
    removed-IsMove x st c keeps =
        let gone = remove_own stream ips distinct i x st s.entries in
        record {
          after = record { keeps = keeps; shape = λ t h. cc (gone, h); present = tt };
          others = λ j ne. remove_other stream ips distinct i j x st s.entries ne;
          takes_none = λ y j ne o old. elim o [ inl e ↦ cc | inr h ↦ cc (gone, h) ];
        }

    -- What the list shows of the owner of an identifier.
    pub seen :
        (j : ℕ) (x : String)
        → j ≢ i
        → Has stream ips j x s.entries
        → contains
            (identifiers_in_use (ips i) (get_entries (some (selector (new stream))) s.entries))
            x
          ≡ true
    unfolding filter
    seen j x ne (st, h) = seen_in stream ips distinct i j x st ne s.entries h

    pub owner-Has :
        (j : ℕ) (x : String)
        → IsOwner stream ips j (g.claims j) x s.entries
        → Has stream ips j x s.entries
    owner-Has j x (inl e) = subst (λ κ. Present stream ips j κ s.entries) e (g.local j).present
    owner-Has j x (inr h) = (Status.enabled, h)

    pub read-IsMove :
        (κ : Claim) (c : Calls)
        → g.claims i ≡ κ
        → Protocol.Keeps stream ips i c
            (learn (ips i) κ (some (get_entries (some (selector (new stream))) s.entries)))
        → (κ' : Claim) × IsMove stream ips i κ' c s.entries s g.claims
    read-IsMove free c e keeps = (free, free-IsMove c keeps)
    read-IsMove (claimed x) c e keeps =
        (g.claims i, kept-IsMove c (subst (λ κ. Protocol.Keeps stream ips i c κ) (sym e) keeps))
    read-IsMove (holding x) c e keeps =
        let has = subst (λ κ. Present stream ips i κ s.entries) e (g.local i).present in
        let listed =
          identifiers_in_use (ips i) (get_entries (some (selector (new stream))) s.entries) in
        elim (Bool-cases (
          contains
            (identifiers_in_use (ips i) (get_entries (some (selector (new stream))) s.entries))
            x)) [
              | inl taken ↦ (
                holding x,
                silent-IsMove (holding x) c
                    (subst (λ b. Protocol.Keeps stream ips i c (if b then holding x else claimed x))
                      taken keeps)
                    has (λ y j ne e' old. cc),
              )
              | inr alone ↦ (
                claimed x,
                silent-IsMove (claimed x) c
                    (subst (λ b. Protocol.Keeps stream ips i c (if b then holding x else claimed x))
                      alone keeps)
                    has
                    (λ y j ne e' old.
                      let same : x ≡ y = cc in
                      cc (
                        subst (λ z. contains listed z ≡ true) (sym same)
                            (seen j y ne (owner-Has j y old)),
                        alone,
                      )),
              )
            ]

    pub delivered :
        (d : Delivery) (c : Calls)
        → Protocol.Keeps stream ips i c (g.claims i)
        → (κ : Claim) × IsMove stream ips i κ
            (deliver d c s.entries).1
            (deliver d c s.entries).0
            s
            g.claims
    unfolding deliver
    delivered d (ret z r) k = (g.claims i, kept-IsMove (ret z r) k)
    delivered d (drawing z) k = (g.claims i, kept-IsMove (drawing z) k)
    delivered Delivery.answered (register t k) (inl (x, e, h)) = (
      holding x,
      subst (λ u. IsMove stream ips i (holding x) (k true) (set_entry u s.entries) s g.claims)
          (sym e) (disabled-IsMove x (holding x) (k true) (h true) (λ has. has) (λ y e. cc)),
    )
    delivered Delivery.answer_lost (register t k) (inl (x, e, h)) = (
      free,
      subst (λ u. IsMove stream ips i free (k false) (set_entry u s.entries) s g.claims) (sym e)
          (disabled-IsMove x free (k false) (h false) (λ has. tt) (λ y e. cc)),
    )
    delivered Delivery.not_served (register t k) (inl (x, e, h)) =
        (free, free-IsMove (k false) (h false))
    delivered Delivery.answered (register t k) (inr (x, e, own, h)) = (
      claimed x,
      subst (λ u. IsMove stream ips i (claimed x) (k true) (set_entry u s.entries) s g.claims)
          (sym e) (enabled-IsMove x (k true) own (h true)),
    )
    delivered Delivery.answer_lost (register t k) (inr (x, e, own, h)) = (
      claimed x,
      subst (λ u. IsMove stream ips i (claimed x) (k false) (set_entry u s.entries) s g.claims)
          (sym e) (enabled-IsMove x (k false) own (h false)),
    )
    delivered Delivery.not_served (register t k) (inr (x, e, own, h)) = (
      g.claims i,
      kept-IsMove (k false)
          (subst (λ κ. Protocol.Keeps stream ips i (k false) κ) (sym own) (h false)),
    )
    delivered Delivery.answered (unregister t k) (x, st, e, h) = (
      free,
      subst (λ u. IsMove stream ips i free (k true) (remove_entry u s.entries) s g.claims) (sym e)
          (removed-IsMove x st (k true) (h true)),
    )
    delivered Delivery.answer_lost (unregister t k) (x, st, e, h) = (
      free,
      subst (λ u. IsMove stream ips i free (k false) (remove_entry u s.entries) s g.claims) (sym e)
          (removed-IsMove x st (k false) (h false)),
    )
    delivered Delivery.not_served (unregister t k) (x, st, e, h) =
        (free, free-IsMove (k false) (h false))
    delivered Delivery.answered (get_targets t k) (e, h) =
        read-IsMove (g.claims i) (k (some (get_entries (some t) s.entries))) refl (
          subst
            (λ u.
              Protocol.Keeps stream ips i (k (some (get_entries (some t) s.entries)))
                (learn (ips i) (g.claims i) (some (get_entries (some u) s.entries))))
            e (h (some (get_entries (some t) s.entries))))
    delivered Delivery.answer_lost (get_targets t k) (e, h) = (
      g.claims i,
      kept-IsMove (k none) (
          subst (λ κ. Protocol.Keeps stream ips i (k none) κ) (learn-none (ips i) (g.claims i))
            (h none)),
    )
    delivered Delivery.not_served (get_targets t k) (e, h) = (
      g.claims i,
      kept-IsMove (k none) (
          subst (λ κ. Protocol.Keeps stream ips i (k none) κ) (learn-none (ips i) (g.claims i))
            (h none)),
    )
