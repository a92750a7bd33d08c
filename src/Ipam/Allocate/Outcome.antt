-- ===== src/Ipam/Allocate/Outcome.antt =====
-- What `AllocateWithBlocklist` returns, over any store.
use meridio.Base.{
  ℕ, zero, suc, ◌≤◌, ◌<◌, ◌≡◌, ◌≢◌, refl, ap, ◌⊎◌, inl, inr, true, some, List, [], ◌∷◌, ◌++◌,
  String, arith, Bool-cases, Option-cases, length, All, All-right, leb,
}
use meridio.Base.Result.{Result, ok, err, Result-cases}
use meridio.Net.{Ip, IpNet, Cidr, network, parse_cidr, to_cidr}
use meridio.Net.Parse.{Parsed, parse_cidr-Parsed}
use meridio.Ipam.Ip.Overlap.{Within}
use meridio.Ipam.Prefix.{
  Prefix, below, get_name, get_cidr, get_parent, equals, prefix_collide_with, cidrs,
}
use meridio.Ipam.Storage.{Storage}
use meridio.Ipam.Allocate.{
  AllocError, out_of_fuel, nil_dereference, invalid_length, parse_failed, Request, SearchResult,
  found, failed, Round, done, again, search, search_fuel, is_refused, only_itself, undo, verify,
  attempt, allocate_loop, start, allocate_with_blocklist,
}
use meridio.Ipam.Allocate.Searching.{IsCandidate, search-found}
use meridio.Ipam.Allocate.Candidate.{
  Disjoint, first_cidr, request_of, first-IsCandidate, candidate-Within, collide-Disjoint,
}

-- What a caller may rely on: the prefix, its place in the tree and in the parent's range, the
-- blocked ranges, and the last look at the store, where nothing else collided with it.
pub record IsAllocated (S : Storage) (parent : Prefix) (name : String) (length : ℕ)
    (blocklist : List Cidr) (s : S.State) (p : Prefix) : Type 0 where
  pub named : get_name p ≡ name
  pub child : get_parent p ≡ some parent
  pub sized : (get_cidr p).length ≡ length
  pub within : (z : Ip) → Within z (get_cidr p) → Within z (get_cidr parent)
  pub unblocked : All (λ c. Disjoint (get_cidr p) c) blocklist
  pub alone :
      (childs : List Prefix) × (q : Prefix) × (S.get_childs parent s ≡ ok childs)
      × (prefix_collide_with p childs ≡ q ∷ [])
      × (equals p (some q) ≡ true)

pub SearchResult-cases :
    (r : SearchResult) → ((n : IpNet) × (r ≡ found n)) ⊎ ((e : AllocError) × (r ≡ failed e))
SearchResult-cases (found n) = inl (n, refl)
SearchResult-cases (failed e) = inr (e, refl)

Round-cases :
    (r : Round)
    → ((a : Result AllocError Prefix) × (r ≡ done a)) ⊎ ((cs : List Cidr) × (r ≡ again cs))
Round-cases (done a) = inl (a, refl)
Round-cases (again cs) = inr (cs, refl)

module _ (S : Storage) where
  undo_not_ok :
      (c : Prefix) (childs : List Prefix) (s : S.State) {s' : S.State} {p : Prefix}
      → ¬ (undo S c childs s ≡ (s', done (ok p)))
  unfolding undo
  undo_not_ok c childs s h = ground arith

  only_itself-cases :
      (c : Prefix) (qs : List Prefix)
      → only_itself c qs ≡ true
      → (q : Prefix) × (qs ≡ q ∷ []) × (equals c (some q) ≡ true)
  only_itself-cases c [] h = absurd (ground arith)
  only_itself-cases c (q ∷ []) h = (q, refl, h)
  only_itself-cases c (q ∷ q' ∷ qs) h = absurd (ground arith)

  attempt-ok :
      (parent c : Prefix) (s s' : S.State) (p : Prefix)
      → attempt S parent c s ≡ (s', done (ok p))
      → (p ≡ c)
        × ((childs : List Prefix) × (S.get_childs parent s' ≡ ok childs)
            × (only_itself c (prefix_collide_with c childs) ≡ true))
  unfolding attempt verify
  attempt-ok parent c s s' p h = elim (Bool-cases (is_refused (S.add c s).1)) [
    | inl no_add ↦ absurd (ground arith)
    | inr added ↦ elim (Result-cases (S.get_childs parent (S.add c s).0)) [
      | inr (e, bad) ↦ absurd (ground arith)
      | inl (childs, read) ↦ elim (Bool-cases (only_itself c (prefix_collide_with c childs))) [
        | inl alone ↦ (ground arith, (childs, ground arith, alone))
        | inr crowded ↦
            absurd (ground (arith, undo_not_ok c childs (S.add c s).0 {s' = s'} {p = p}))
      ]
    ]
  ]

  loop-IsAllocated :
      (fuel : ℕ) (rq : Request) (childs : List Cidr) (cur : IpNet) (s s' : S.State) (p : Prefix)
      → IsCandidate rq cur
      → (get_cidr rq.parent).length ≤ rq.length
      → allocate_loop S fuel rq childs cur s ≡ (s', ok p)
      → IsAllocated S rq.parent rq.name rq.length rq.blocklist s' p
  unfolding allocate_loop
  loop-IsAllocated zero rq childs cur s s' p v l h = absurd (ground arith)
  loop-IsAllocated (suc fuel) rq childs cur s s' p v l h =
      elim (SearchResult-cases (search (search_fuel rq.first) rq (childs ++ rq.blocklist) cur)) [
        | inr (e, gone) ↦ absurd (ground arith)
        | inl (n, hit) ↦
            let c = below rq.name (to_cidr n) rq.parent in
            let (v', free) =
              search-found (search_fuel rq.first) rq (childs ++ rq.blocklist) cur n v hit in
            elim (Round-cases (attempt S rq.parent c s).1) [
              | inl (a, last) ↦
                  let (same, (seen, read, only)) = attempt-ok rq.parent c s s' p (ground arith) in
                  let (q, one, eq) = only_itself-cases c (prefix_collide_with c seen) only in
                  rw same (record {
                    named = refl;
                    child = refl;
                    sized = v'.ones;
                    within = candidate-Within rq n v' l;
                    unblocked =
                        All-right _ childs rq.blocklist
                          (collide-Disjoint (to_cidr n) (childs ++ rq.blocklist) free);
                    alone = (seen, q, read, one, eq);
                  })
              | inr (cs, next) ↦
                  loop-IsAllocated fuel rq cs n (attempt S rq.parent c s).0 s' p v' l (ground arith)
            ]
      ]

  -- The checks before the loops: one of them fails and the store is not touched, or the loops
  -- start at the first candidate.
  pub allocate-start :
      (fuel : ℕ) (parent : Prefix) (name : String) (length : ℕ) (blocklist : List Cidr)
      (s : S.State)
      → ((e : AllocError) × (e ≢ out_of_fuel)
          × (allocate_with_blocklist S fuel parent name length blocklist s ≡ (s, err e)))
        ⊎ (Parsed (get_cidr parent)
            × Parsed (first_cidr parent length)
            × ((get_cidr parent).length < length)
            × (allocate_with_blocklist S fuel parent name length blocklist s
                ≡ start S fuel (request_of parent name length blocklist) s))
  unfolding allocate_with_blocklist network
  allocate-start fuel parent name length blocklist s =
      elim (Option-cases (parse_cidr (get_cidr parent))) [
        | inl e ↦ inl (nil_dereference, (λ e. cc), rw (e, allocate_with_blocklist))
        | inr ((a, pn), e) ↦
            let (same, pp) = parse_cidr-Parsed (get_cidr parent) e in
            elim (Bool-cases (leb length pn.ones)) [
              | inl short ↦
                  inl (invalid_length, (λ e. cc), rw (e, allocate_with_blocklist) (rw short))
              | inr long ↦
                  elim (Option-cases (parse_cidr (record { address = pn.ip; length = length }))) [
                    | inl f ↦
                        inl (
                          parse_failed,
                          (λ e. cc),
                          rw (e, allocate_with_blocklist) (rw long (rw f)),
                        )
                    | inr ((b, fn), f) ↦
                        let long_enough : (get_cidr parent).length < length =
                          let l : pn.ones < length = ground arith in
                          omega (arith, l, ap (λ (t : IpNet). t.ones) same) in
                        let (same', pf) =
                          parse_cidr-Parsed (record { address = pn.ip; length = length }) f in
                        inr (
                          pp,
                          rw same at pf,
                          long_enough,
                          rw (e, allocate_with_blocklist) (rw long (rw f (rw same' (rw same)))),
                        )
                  ]
            ]
      ]

  -- Whatever the store does: an allocated prefix has the requested name, parent and length, lies
  -- in the parent, meets no blocked range, and is alone in its range among the parent's children
  -- when the store is read after the write.
  pub allocate_with_blocklist-IsAllocated :
      (fuel : ℕ) (parent : Prefix) (name : String) (length : ℕ) (blocklist : List Cidr)
      (s s' : S.State) (p : Prefix)
      → allocate_with_blocklist S fuel parent name length blocklist s ≡ (s', ok p)
      → IsAllocated S parent name length blocklist s' p
  unfolding allocate_with_blocklist
  allocate_with_blocklist-IsAllocated fuel parent name length blocklist s s' p h =
      elim (allocate-start fuel parent name length blocklist s) [
        | inl (e, _, stop) ↦ absurd (ground arith)
        | inr (pp, pf, l, go) ↦ elim (Result-cases (S.get_childs parent s)) [
          | inr (e, bad) ↦ absurd (unfold start in ground arith)
          | inl (childs, read) ↦
              loop-IsAllocated fuel rq (cidrs childs) rq.first s s' p
                (first-IsCandidate rq pp pf (omega (arith, l)) refl) (omega (arith, l))
                (unfold start in ground arith)
        ]
      ]
    where
      rq : Request
      rq = request_of parent name length blocklist
