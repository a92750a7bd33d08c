-- ===== src/Webhook/Insertion.antt =====
-- api/v1/flow_webhook.go: lists of ranges, and what an insertion does to them.
use meridio.Base.{
  ℕ, zero, suc, ◌<◌, ◌≡◌, refl, List, [], ◌∷◌, ◌++◌, ◌⊎◌, inl, inr, replicate, All, All-append,
  All-left, All-right, string_eq, nat_eq,
}
use meridio.Webhook.{PortRange}
use meridio.Webhook.Repeats.{IsRange, IsBelow, IsAbove}
use meridio.Webhook.Ports.{IsDisjoint, IsOrdered, inserted}

-- No two ranges have a port in common.
abbrev pub AreApart : List PortRange → Type 0
AreApart [] = Unit
AreApart (c ∷ cs) = All (IsDisjoint c) cs × AreApart cs

-- What an insertion does to a property of all ranges.
All-replicate : (P : PortRange → Type 0) (n : ℕ) (c : PortRange) → P c → All P (replicate n c)
All-replicate P zero c h = tt
All-replicate P (suc n) c h = (h, All-replicate P n c h)

module _ (P : PortRange → Type 0) (c : PortRange) (n : ℕ) (p s : List PortRange) where
  All-inserted : P c → All P (p ++ s) → All P (inserted c n p s)
  All-inserted own h =
      All-append P p (c ∷ (replicate n c ++ s)) (All-left P p s h)
        (own, All-append P (replicate n c) s (All-replicate P n c own) (All-right P p s h))

  inserted-All : All P (inserted c n p s) → P c × All P (p ++ s)
  inserted-All h =
      let rest = All-right P p (c ∷ (replicate n c ++ s)) h in
      (
        rest.0,
        All-append P p s (All-left P p (c ∷ (replicate n c ++ s)) h)
            (All-right P (replicate n c) s rest.1),
      )

IsAbove-apart :
    (c : PortRange) (s : List PortRange)
    → All (IsAbove c) s
    → All (λ y. (y ≡ c) ⊎ (c.end < y.start)) s
IsAbove-apart c [] h = tt
IsAbove-apart c (x ∷ s) h = (inr h.0.0, IsAbove-apart c s h.1)

repeated-IsOrdered :
    (c : PortRange) (n : ℕ) (s : List PortRange)
    → IsRange c
    → All (IsAbove c) s
    → IsOrdered s
    → IsOrdered (c ∷ (replicate n c ++ s))
repeated-IsOrdered c zero s own above o = (own, IsAbove-apart c s above, o)
repeated-IsOrdered c (suc n) s own above o =
    let rest = repeated-IsOrdered c n s own above o in (own, (inl refl, rest.1), rest)

pub inserted-IsOrdered :
    (c : PortRange) (n : ℕ) (p s : List PortRange)
    → IsRange c
    → All (IsBelow c) p
    → All (IsAbove c) s
    → IsOrdered (p ++ s)
    → IsOrdered (inserted c n p s)
inserted-IsOrdered c n [] s own below above o = repeated-IsOrdered c n s own above o
inserted-IsOrdered c n (x ∷ p) s own below above o = (
  o.0,
  All-inserted (λ y. (y ≡ x) ⊎ (x.end < y.start)) c n p s (inr below.0) o.1,
  inserted-IsOrdered c n p s own below.1 above o.2,
)

pub below_and_above :
    (c : PortRange) (p s : List PortRange)
    → All (IsBelow c) p
    → All (IsAbove c) s
    → All (IsDisjoint c) (p ++ s)
below_and_above c [] [] below above = tt
below_and_above c [] (x ∷ s) below above = (inr above.0.0, below_and_above c [] s tt above.1)
below_and_above c (x ∷ p) s below above = (inl below.0, below_and_above c p s below.1 above)

IsDisjoint-comm : (c x : PortRange) → IsDisjoint c x → IsDisjoint x c
IsDisjoint-comm c x (inl below) = inr below
IsDisjoint-comm c x (inr above) = inl above

-- All ranges are apart from each other and from those of the list.
abbrev pub AreNew : List PortRange → List PortRange → Type 0
AreNew all cs = All (λ d. All (IsDisjoint d) all) cs × AreApart cs

module _ (c : PortRange) (n : ℕ) (p s : List PortRange) where
  pub later_new :
      (cs : List PortRange)
      → All (λ d. All (IsDisjoint d) (inserted c n p s)) cs
      → All (IsDisjoint c) cs × All (λ d. All (IsDisjoint d) (p ++ s)) cs
  later_new [] h = (tt, tt)
  later_new (d ∷ cs) h =
      let (first, rest) = inserted-All (IsDisjoint d) c n p s h.0 in
      let (own, others) = later_new cs h.1 in ((IsDisjoint-comm d c first, own), (rest, others))

  pub new_later :
      (cs : List PortRange)
      → All (IsDisjoint c) cs
      → All (λ d. All (IsDisjoint d) (p ++ s)) cs
      → All (λ d. All (IsDisjoint d) (inserted c n p s)) cs
  new_later [] h k = tt
  new_later (d ∷ cs) h k =
      (All-inserted (IsDisjoint d) c n p s (IsDisjoint-comm c d h.0) k.0, new_later cs h.1 k.1)
