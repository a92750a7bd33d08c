-- ===== src/Webhook/Accepted.antt =====
-- api/v1/flow_webhook.go, validatePorts: the lists that are accepted are those of ranges that have no
-- port in common.
use meridio.Base.{
  ℕ, ◌≡◌, ◌↔◌, refl, ap, sym, subst, ◌∙◌, Bool, true, false, Option, none, some, none_some,
  some_inj, some_unique, String, List, [], ◌∷◌, ◌++◌, inl, inr, if◌then◌else◌, ltb, All, Bool-cases,
  Option-cases, arith, ◌==◌, string_eq, nat_eq, contains,
}
use meridio.Base.Strconv.{codes, parse_uint16}
use meridio.Webhook.{
  PortRange, new_port, new_port_of, of_parts, split, valid_ports_format, check_ports_overlapping,
  validate_loop, validate_ports,
}
use meridio.Webhook.Repeats.{IsRange}
use meridio.Webhook.Ports.{IsDisjoint, IsOrdered, inserted, check-Outcome}
use meridio.Webhook.Insertion.{
  AreApart, inserted-IsOrdered, below_and_above, AreNew, later_new, new_later,
}

-- The ranges of the entries, if all have the right form.
unfoldable pub ranges_of : List String → Option (List PortRange)
ranges_of [] = some []
ranges_of (p ∷ ports) = elim (valid_ports_format p) [
  | none ↦ none
  | some c ↦ elim (ranges_of ports) [ none ↦ none | some cs ↦ some (c ∷ cs) ]
]

new_port-IsRange : (a b : ℕ) (c : PortRange) → new_port a b ≡ some c → IsRange c
new_port-IsRange a b c e = elim (Bool-cases (ltb b a)) [
  | inl back ↦ absurd (ground (arith, e, back))
  | inr ahead ↦
      subst IsRange
        (some_inj
          (ap (λ t. if t then none else some (record { start = a; end = b })) (sym ahead) ∙ e))
        (ground (arith, ahead))
]

new_port_of-IsRange : (a b : Option ℕ) (c : PortRange) → new_port_of a b ≡ some c → IsRange c
new_port_of-IsRange none b c e = none_some e
new_port_of-IsRange (some a) none c e = none_some e
new_port_of-IsRange (some a) (some b) c e = new_port-IsRange a b c e

of_parts-IsRange : (ws : List (List ℕ)) (c : PortRange) → of_parts ws ≡ some c → IsRange c
of_parts-IsRange [] c e = none_some e
of_parts-IsRange (a ∷ []) c e = none_some e
of_parts-IsRange (a ∷ b ∷ []) c e = new_port_of-IsRange (parse_uint16 a) (parse_uint16 b) c e
of_parts-IsRange (a ∷ b ∷ x ∷ ws) c e = none_some e

if-IsRange :
    (b : Bool) (o o' : Option PortRange) (c : PortRange)
    → (o ≡ some c → IsRange c)
    → (o' ≡ some c → IsRange c)
    → (if b then o else o') ≡ some c
    → IsRange c
if-IsRange true o o' c h h' e = h e
if-IsRange false o o' c h h' e = h' e

valid_ports_format-IsRange :
    (p : String) (c : PortRange) → valid_ports_format p ≡ some c → IsRange c
unfolding valid_ports_format
valid_ports_format-IsRange p c e =
    if-IsRange (contains (codes p) b'-') _ _ c (of_parts-IsRange (split b'-' (codes p)) c)
      (if-IsRange (p == "any") _ _ c (new_port-IsRange 0 65535 c)
        (new_port_of-IsRange (parse_uint16 (codes p)) (parse_uint16 (codes p)) c))
      e

unfoldable Accepts : (ℕ → Bool) → List PortRange → List String → Type 0
Accepts room all ports =
    (validate_loop room all ports ≡ none)
    ↔ ((cs : List PortRange) × (ranges_of ports ≡ some cs) × AreNew all cs)

module _ (room : ℕ → Bool) (p : String) (ports : List String) where
  validate-malformed :
      (all : List PortRange) → valid_ports_format p ≡ none → Accepts room all (p ∷ ports)
  unfolding validate_loop ranges_of Accepts
  validate-malformed all e =
      rw (e, validate_loop, ranges_of)
        ((λ accepted. none_some (sym accepted)), (λ found. none_some found.1))

  validate-refused :
      (all : List PortRange) (c : PortRange)
      → valid_ports_format p ≡ some c
      → check_ports_overlapping room all c ≡ none
      → validate_loop room all (p ∷ ports) ≡ some p
  unfolding validate_loop
  validate-refused all c e k = rw (e, k, validate_loop) refl

  validate-goes_on :
      (all all' : List PortRange) (c : PortRange)
      → valid_ports_format p ≡ some c
      → check_ports_overlapping room all c ≡ some all'
      → validate_loop room all (p ∷ ports) ≡ validate_loop room all' ports
  unfolding validate_loop
  validate-goes_on all all' c e k = rw (e, k, validate_loop) refl

  ranges_of-held :
      (c : PortRange) (cs : List PortRange)
      → valid_ports_format p ≡ some c
      → ranges_of ports ≡ some cs
      → ranges_of (p ∷ ports) ≡ some (c ∷ cs)
  unfolding ranges_of
  ranges_of-held c cs e r = rw (e, r, ranges_of) refl

  ranges_of_out :
      (c : PortRange)
      → valid_ports_format p ≡ some c
      → ranges_of ports ≡ none
      → ranges_of (p ∷ ports) ≡ none
  unfolding ranges_of
  ranges_of_out c e out = rw (e, out, ranges_of) refl

  ranges_of-cons :
      (c : PortRange) (cs : List PortRange)
      → valid_ports_format p ≡ some c
      → ranges_of (p ∷ ports) ≡ some cs
      → (ds : List PortRange) × (ranges_of ports ≡ some ds) × (cs ≡ c ∷ ds)
  ranges_of-cons c cs e r = elim (Option-cases (ranges_of ports)) [
    | inl out ↦ none_some (sym (ranges_of_out c e out) ∙ r)
    | inr (ds, found) ↦ (ds, found, some_unique r (ranges_of-held c ds e found))
  ]

  validate-overlapping :
      (all : List PortRange) (c : PortRange)
      → valid_ports_format p ≡ some c
      → check_ports_overlapping room all c ≡ none
      → (All (IsDisjoint c) all → ⊥)
      → Accepts room all (p ∷ ports)
  unfolding Accepts
  validate-overlapping all c e k overlaps = (
    (λ accepted. none_some (sym accepted ∙ validate-refused all c e k)),
    (λ found.
        (let (ds, r, same) = ranges_of-cons c found.0 e found.1 in
          absurd (overlaps (subst (AreNew all) same found.2).0.0))),
  )

  validate-next :
      (c : PortRange) (n : ℕ) (q s : List PortRange)
      → valid_ports_format p ≡ some c
      → check_ports_overlapping room (q ++ s) c ≡ some (inserted c n q s)
      → All (IsDisjoint c) (q ++ s)
      → Accepts room (inserted c n q s) ports
      → Accepts room (q ++ s) (p ∷ ports)
  unfolding Accepts
  validate-next c n q s e k apart h = (
    (λ accepted.
        (let (cs, r, new) =
            h.0 (sym (validate-goes_on (q ++ s) (inserted c n q s) c e k) ∙ accepted) in
          let (own, others) = later_new c n q s cs new.0 in
          (c ∷ cs, ranges_of-held c cs e r, ((apart, others), (own, new.1))))),
    (λ found.
        (let (ds, r, same) = ranges_of-cons c found.0 e found.1 in
          let new = subst (AreNew (q ++ s)) same found.2 in
          validate-goes_on (q ++ s) (inserted c n q s) c e k
          ∙ h.1 (ds, r, (new_later c n q s ds new.1.0 new.0.1, new.1.1)))),
  )

validate_loop-Accepts :
    (room : ℕ → Bool) (ports : List String) (all : List PortRange)
    → IsOrdered all
    → Accepts room all ports
unfolding Accepts validate_loop ranges_of
validate_loop-Accepts room [] all o = ((λ accepted. ([], refl, (tt, tt))), (λ found. refl))
validate_loop-Accepts room (p ∷ ports) all o = elim (Option-cases (valid_ports_format p)) [
  | inl e ↦ validate-malformed room p ports all e
  | inr (c, e) ↦ elim (check-Outcome room c (valid_ports_format-IsRange p c e) all o) [
    | inl (k, overlaps) ↦ validate-overlapping room p ports all c e k overlaps
    | inr (q, s, n, same, below, above, k) ↦
        subst (λ i. Accepts room i (p ∷ ports)) (sym same)
          (validate-next room p ports c n q s e
            (ap (λ i. check_ports_overlapping room i c) (sym same) ∙ k)
            (below_and_above c q s below above)
            (validate_loop-Accepts room ports (inserted c n q s) (
              inserted-IsOrdered c n q s (valid_ports_format-IsRange p c e) below above
                (subst IsOrdered same o))))
  ]
]

All-nothing : (cs : List PortRange) → All (λ d. All (IsDisjoint d) []) cs
All-nothing [] = tt
All-nothing (c ∷ cs) = (tt, All-nothing cs)

-- Whenever the array of the list grows: the ports of a flow are accepted if and only if every entry
-- is a port, a range whose start is not behind its end, or "any", and no two of them have a port in
-- common.
pub validate_ports_iff :
    (room : ℕ → Bool) (ports : List String)
    → (validate_ports room ports ≡ none)
      ↔ ((cs : List PortRange) × (ranges_of ports ≡ some cs) × AreApart cs)
unfolding Accepts
validate_ports_iff room ports =
    let h = validate_loop-Accepts room ports [] tt in
    (
      (λ accepted. (let (cs, r, new) = h.0 accepted in (cs, r, new.1))),
      (λ found. h.1 (found.0, found.1, (All-nothing found.0, found.2))),
    )
