-- ===== src/Webhook/Ports.antt =====
-- api/v1/flow_webhook.go, checkPortsOverlapping: it refuses what overlaps, and inserts in order.
use meridio.Base.{
  ℕ, suc, ◌-◌, ◌<◌, ◌≡◌, refl, ap, sym, subst, ◌∙◌, Bool, true, false, Option, none, some, List, [],
  ◌∷◌, ◌++◌, ◌⊎◌, inl, inr, if◌then◌else◌, ltb, length, replicate, All, Bool-cases, arith,
  length-append, All-append, All-right, ◌==◌, nat_eq,
}
use meridio.Webhook.{PortRange, insert_port_list, overlapping_loop, check_ports_overlapping}
use meridio.Webhook.Repeats.{IsRange, IsBelow, IsAbove, snoc-append, plus_one, loop-inserted}

-- Two ranges have no port in common.
abbrev pub IsDisjoint : PortRange → PortRange → Type 0
IsDisjoint c x = (x.end < c.start) ⊎ (c.end < x.start)

-- Ranges in order, in which a range may stand several times.
abbrev pub IsOrdered : List PortRange → Type 0
IsOrdered [] = Unit
IsOrdered (x ∷ xs) = IsRange x × All (λ y. (y ≡ x) ⊎ (x.end < y.start)) xs × IsOrdered xs

-- The list that an insertion leaves: the candidate once or several times.
abbrev pub inserted : PortRange → ℕ → List PortRange → List PortRange → List PortRange
inserted c n p s = p ++ (c ∷ (replicate n c ++ s))

-- The candidate overlaps a range of the list, or it has been inserted between those below it and
-- those above it.
abbrev pub Outcome : PortRange → List PortRange → Option (List PortRange) → Type 0
Outcome c all o =
    ((o ≡ none) × (All (IsDisjoint c) all → ⊥))
    ⊎ ((p : List PortRange) × (s : List PortRange) × (n : ℕ) × (all ≡ p ++ s)
        × All (IsBelow c) p
        × All (IsAbove c) s
        × (o ≡ some (inserted c n p s)))

rest-IsAbove :
    (c v : PortRange) (rest : List PortRange)
    → IsAbove c v
    → All (λ y. (y ≡ v) ⊎ (v.end < y.start)) rest
    → IsOrdered rest
    → All (IsAbove c) rest
rest-IsAbove c v [] a h o = tt
rest-IsAbove c v (y ∷ rest) a h o = (
  (
    elim (h.0) [
      | inl same ↦ subst (λ i. c.end < i.start) (sym same) a.0
      | inr later ↦ omega (arith, a.0, a.1, later)
    ],
    o.0,
  ),
  rest-IsAbove c v rest a h.1 o.2,
)

append_nil : (p : List PortRange) → p ≡ p ++ []
append_nil [] = refl
append_nil (x ∷ p) = ap (λ i. x ∷ i) (append_nil p)

insert_end : (p : List PortRange) (c : PortRange) → insert_port_list p (length p) c ≡ p ++ c ∷ []
insert_end [] c = refl
insert_end (x ∷ p) c = ap (λ i. x ∷ i) (insert_end p c)

at_last : (p : List PortRange) (v : PortRange) → (length p == length (p ++ v ∷ []) - 1) ≡ true
at_last p v = ground (arith, length-append p (v ∷ []))

not_last :
    (p : List PortRange) (v w : PortRange) (rest : List PortRange)
    → (length p == length (p ++ v ∷ w ∷ rest) - 1) ≡ false
not_last p v w rest = ground (arith, length-append p (v ∷ w ∷ rest))

module _ (room : ℕ → Bool) (c : PortRange) (own : IsRange c) where
  loop_below :
      (k : ℕ) (shares : Bool) (j : ℕ) (v : PortRange) (rest all : List PortRange)
      → IsBelow c v
      → overlapping_loop room c (suc k) shares j (v ∷ rest) all
        ≡ overlapping_loop room c k shares
            (suc j)
            rest
            (if j == length all - 1 then insert_port_list all (length all) c else all)
  unfolding overlapping_loop
  loop_below k shares j v rest all below = rw (outside, overlapping_loop) refl
    where
      outside : ltb v.end c.start ≡ true
      outside = ground (arith, below)

  loop_overlaps :
      (k : ℕ) (shares : Bool) (j : ℕ) (v : PortRange) (rest all : List PortRange)
      → ltb v.end c.start ≡ false
      → ltb c.end v.start ≡ false
      → overlapping_loop room c (suc k) shares j (v ∷ rest) all ≡ none
  unfolding overlapping_loop
  loop_overlaps k shares j v rest all e e' = rw (e, e', overlapping_loop) refl

  overlaps-Outcome :
      (rest : List PortRange) (v : PortRange) (p : List PortRange)
      → ltb v.end c.start ≡ false
      → ltb c.end v.start ≡ false
      → All (IsDisjoint c) (p ++ v ∷ rest)
      → ⊥
  overlaps-Outcome rest v p e e' h = elim ((All-right (IsDisjoint c) p (v ∷ rest) h).0) [
    | inl under ↦ ground (arith, e, under)
    | inr over ↦ ground (arith, e', over)
  ]

  inserted-Outcome :
      (rest : List PortRange) (v : PortRange) (shares : Bool) (p : List PortRange)
      → ltb c.end v.start ≡ true
      → IsOrdered (v ∷ rest)
      → All (IsBelow c) p
      → Outcome c
          (p ++ v ∷ rest)
          (overlapping_loop room c (length (v ∷ rest)) shares (length p) (v ∷ rest) (p ++ v ∷ rest))
  inserted-Outcome rest v shares p e o below =
      let above : IsAbove c v = (ground (arith, e), o.0) in
      let higher = rest-IsAbove c v rest above o.1 o.2 in
      inr (
        p,
        v ∷ rest,
        length rest,
        refl,
        below,
        (above, higher),
        loop-inserted room c own shares v rest p above higher,
      )

  unless_below :
      (rest : List PortRange) (v : PortRange) (shares : Bool) (p : List PortRange)
      → ltb v.end c.start ≡ false
      → IsOrdered (v ∷ rest)
      → All (IsBelow c) p
      → Outcome c
          (p ++ v ∷ rest)
          (overlapping_loop room c (length (v ∷ rest)) shares (length p) (v ∷ rest) (p ++ v ∷ rest))
  unless_below rest v shares p e o below = elim (Bool-cases (ltb c.end v.start)) [
    | inl e' ↦ inserted-Outcome rest v shares p e' o below
    | inr e' ↦ inl (
      loop_overlaps (length rest) shares (length p) v rest (p ++ v ∷ rest) e e',
      overlaps-Outcome rest v p e e',
    )
  ]

  loop-Outcome :
      (rest : List PortRange) (v : PortRange) (shares : Bool) (p : List PortRange)
      → IsOrdered (v ∷ rest)
      → All (IsBelow c) p
      → Outcome c
          (p ++ v ∷ rest)
          (overlapping_loop room c (length (v ∷ rest)) shares (length p) (v ∷ rest) (p ++ v ∷ rest))
  unfolding overlapping_loop
  loop-Outcome [] v shares p o below = elim (Bool-cases (ltb v.end c.start)) [
    | inl e ↦ inr (
      p ++ v ∷ [],
      [],
      0,
      append_nil (p ++ v ∷ []),
      All-append (IsBelow c) p (v ∷ []) below (ground (arith, e), tt),
      tt,
      loop_below 0 shares (length p) v [] (p ++ v ∷ []) (ground (arith, e))
          ∙ ap
              (λ b. some (
                if b then insert_port_list (p ++ v ∷ []) (length (p ++ v ∷ [])) c else p ++ v ∷ []))
              (at_last p v)
          ∙ ap (λ i. some i) (insert_end (p ++ v ∷ []) c),
    )
    | inr e ↦ unless_below [] v shares p e o below
  ]
  loop-Outcome (w ∷ rest) v shares p o below = elim (Bool-cases (ltb v.end c.start)) [
    | inl e ↦
        subst (Outcome c (p ++ v ∷ w ∷ rest))
          (sym (
            loop_below (length (w ∷ rest)) shares (length p) v (w ∷ rest) (p ++ v ∷ w ∷ rest)
              (ground (arith, e))
            ∙ ap
                (λ b.
                  overlapping_loop room c (length (w ∷ rest)) shares (suc (length p)) (w ∷ rest) (
                    if b
                    then insert_port_list (p ++ v ∷ w ∷ rest) (length (p ++ v ∷ w ∷ rest)) c
                    else p ++ v ∷ w ∷ rest))
                (not_last p v w rest)
            ∙ ap
                (λ j.
                  overlapping_loop room c (length (w ∷ rest)) shares j (w ∷ rest)
                    (p ++ v ∷ w ∷ rest))
                (sym (plus_one (length p)) ∙ sym (length-append p (v ∷ [])))))
          (subst
            (λ all. Outcome c all (
              overlapping_loop room c (length (w ∷ rest)) shares (length (p ++ v ∷ [])) (w ∷ rest)
                all))
            (snoc-append p (w ∷ rest) v)
            (loop-Outcome rest w shares (p ++ v ∷ []) o.2
              (All-append (IsBelow c) p (v ∷ []) below (ground (arith, e), tt))))
    | inr e ↦ unless_below (w ∷ rest) v shares p e o below
  ]

  pub check-Outcome :
      (all : List PortRange) → IsOrdered all → Outcome c all (check_ports_overlapping room all c)
  unfolding check_ports_overlapping
  check-Outcome [] o = inr ([], [], 0, refl, tt, tt, refl)
  check-Outcome (v ∷ vs) o = loop-Outcome vs v true [] o tt
