-- ===== src/Webhook/Repeats.antt =====
-- api/v1/flow_webhook.go, checkPortsOverlapping: its loop once the candidate has been inserted.
use meridio.Base.{
  ℕ, zero, suc, ◌+◌, ◌<◌, ◌≤◌, ◌≡◌, refl, ap, ◌∙◌, Bool, true, false, ◌&&◌, some, List, [], ◌∷◌,
  ◌++◌, if◌then◌else◌, ltb, length, take, drop, replicate, All, arith, length-append, nat_eq,
}
use meridio.Webhook.{
  PortRange, insert_port_list, shifted, overlapping_loop, check_ports_overlapping,
}

-- The start of a range is not behind its end.
abbrev pub IsRange : PortRange → Type 0
IsRange x = x.start ≤ x.end

abbrev pub IsBelow : PortRange → PortRange → Type 0
IsBelow c x = x.end < c.start

abbrev pub IsAbove : PortRange → PortRange → Type 0
IsAbove c x = (c.end < x.start) × IsRange x

take-append : (p s : List PortRange) → take (length p) (p ++ s) ≡ p
take-append [] s = refl
take-append (x ∷ p) s = ap (λ i. x ∷ i) (take-append p s)

drop-append : (p s : List PortRange) → drop (length p) (p ++ s) ≡ s
drop-append [] s = refl
drop-append (x ∷ p) s = drop-append p s

insert-append :
    (p s : List PortRange) (c : PortRange) → insert_port_list (p ++ s) (length p) c ≡ p ++ c ∷ s
insert-append p s c = rw (take-append p s, drop-append p s) refl

shifted-IsAbove :
    (c v : PortRange) (rest : List PortRange)
    → IsAbove c v
    → All (IsAbove c) rest
    → All (IsAbove c) (shifted v rest)
shifted-IsAbove c v [] a h = tt
shifted-IsAbove c v (x ∷ rest) a h = (a, shifted-IsAbove c x rest h.0 h.1)

length-shifted : (v : PortRange) (rest : List PortRange) → length (shifted v rest) ≡ length rest
length-shifted v [] = refl
length-shifted v (x ∷ rest) = ap (λ i. suc i) (length-shifted x rest)

pub snoc-append : (p s : List PortRange) (c : PortRange) → (p ++ c ∷ []) ++ s ≡ p ++ c ∷ s
snoc-append [] s c = refl
snoc-append (x ∷ p) s c = ap (λ i. x ∷ i) (snoc-append p s c)

pub plus_one : (n : ℕ) → n + 1 ≡ suc n
plus_one n = omega arith

module _ (room : ℕ → Bool) (c : PortRange) (own : IsRange c) where
  -- The rest of the slice that the loop sees after an insertion.
  abbrev seen : Bool → PortRange → List PortRange → List PortRange
  seen moved v rest = if moved then shifted v rest else rest

  seen-IsAbove :
      (moved : Bool) (v : PortRange) (rest : List PortRange)
      → IsAbove c v
      → All (IsAbove c) rest
      → All (IsAbove c) (seen moved v rest)
  seen-IsAbove true v rest a h = shifted-IsAbove c v rest a h
  seen-IsAbove false v rest a h = h

  length-seen :
      (moved : Bool) (v : PortRange) (rest : List PortRange)
      → length (seen moved v rest) ≡ length rest
  length-seen true v rest = length-shifted v rest
  length-seen false v rest = refl

  loop_above :
      (k : ℕ) (shares : Bool) (v : PortRange) (rest p s : List PortRange)
      → IsAbove c v
      → overlapping_loop room c (suc k) shares (length p) (v ∷ rest) (p ++ s)
        ≡ overlapping_loop room c k
            (shares && room (length (p ++ s)))
            (length (p ++ c ∷ []))
            (seen (shares && room (length (p ++ s))) v rest)
            ((p ++ c ∷ []) ++ s)
  unfolding overlapping_loop
  loop_above k shares v rest p s a =
      rw
        (
          outside,
          inside,
          insert-append p s c,
          snoc-append p s c,
          length-append p (c ∷ []),
          plus_one (length p),
          overlapping_loop,
        )
        refl
    where
      outside : ltb v.end c.start ≡ false
      outside = ground (arith, a.0, a.1, own)

      inside : ltb c.end v.start ≡ true
      inside = ground (arith, a.0)

  -- Once the candidate has been inserted, each further round inserts it again.
  again :
      (k : ℕ) (shares : Bool) (rest p s : List PortRange)
      → All (IsAbove c) rest
      → length rest ≡ k
      → overlapping_loop room c k shares (length p) rest (p ++ s) ≡ some (p ++ (replicate k c ++ s))
  unfolding overlapping_loop
  again zero shares rest p s h e = refl
  again (suc k) shares [] p s h e = absurd (omega (arith, e))
  again (suc k) shares (v ∷ rest) p s h e =
      loop_above k shares v rest p s h.0
      ∙ again k (shares && room (length (p ++ s))) (seen (shares && room (length (p ++ s))) v rest)
          (p ++ c ∷ []) s (seen-IsAbove (shares && room (length (p ++ s))) v rest h.0 h.1)
          (length-seen (shares && room (length (p ++ s))) v rest ∙ omega (arith, e))
      ∙ ap (λ i. some i) (snoc-append p (replicate k c ++ s) c)

  -- The loop from the first range above the candidate.
  pub loop-inserted :
      (shares : Bool) (v : PortRange) (rest p : List PortRange)
      → IsAbove c v
      → All (IsAbove c) rest
      → overlapping_loop room c (suc (length rest)) shares (length p) (v ∷ rest) (p ++ v ∷ rest)
        ≡ some (p ++ (c ∷ (replicate (length rest) c ++ v ∷ rest)))
  loop-inserted shares v rest p above higher =
      let moved = shares && room (length (p ++ v ∷ rest)) in
      loop_above (length rest) shares v rest p (v ∷ rest) above
      ∙ again (length rest) moved (seen moved v rest) (p ++ c ∷ []) (v ∷ rest)
          (seen-IsAbove moved v rest above higher) (length-seen moved v rest)
      ∙ ap (λ i. some i) (snoc-append p (replicate (length rest) c ++ v ∷ rest) c)

-- A candidate below all ranges is inserted once for each of them, so that the list doubles.
pub check-doubles :
    (room : ℕ → Bool) (c v : PortRange) (vs : List PortRange)
    → IsRange c
    → All (IsAbove c) (v ∷ vs)
    → check_ports_overlapping room (v ∷ vs) c ≡ some (replicate (length (v ∷ vs)) c ++ v ∷ vs)
unfolding check_ports_overlapping
check-doubles room c v vs own h = loop-inserted room c own true v vs [] h.0 h.1
