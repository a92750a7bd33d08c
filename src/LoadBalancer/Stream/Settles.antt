-- ===== src/LoadBalancer/Stream/Settles.antt =====
-- `setTargets`, one identifier at a time: what each loop makes of the two maps of targets and of
-- the map of new targets.
use meridio.Base.{
  ◌≡◌, refl, ◌∙◌, inl, inr, true, false, Option, none, some, [], ◌∷◌, ◌==◌, arith, Bool-cases,
  if◌then◌else◌, eq→≡,
}
use meridio.Base.Dict.{Dict, lookup, erase, NodupKeys, erase-NodupKeys, lookup-erase}
use meridio.Base.Int.{ℤ, int_eq}
use meridio.LoadBalancer.Env.{Env}
use meridio.LoadBalancer.Target.{Target}
use meridio.LoadBalancer.Stream.{LoadBalancer, remove_target}
use meridio.LoadBalancer.Stream.Keyed.{Keyed, erase-Keyed}
use meridio.LoadBalancer.Stream.Steps.{Removed, remove_target_with-Removed}
use meridio.LoadBalancer.Stream.Watch.{is_unchanged, pending_loop, targets_loop}

module _ (E : Env) where
  -- What the three maps hold under an identifier: new, active, pending.
  abbrev pub Slot : Type 0
  Slot = Option (Target E) × (Option (Target E) × Option (Target E))

  abbrev pub slot : ℤ → Dict ℤ (Target E) → LoadBalancer E → Slot
  slot j new lb = (lookup j new, (lookup j lb.targets, lookup j lb.pending_targets))

  -- A loop over the targets that are held, seen from one identifier: an unchanged target stays and
  -- is no longer new, any other one is gone.
  abbrev pub settle : Option (Target E) → Slot → Slot
  settle none s = s
  settle (some t) (n, held) = if is_unchanged E t n then (none, held) else (n, (none, none))

  -- What the loops need of the state, and keep.
  pub record IsSound (new : Dict ℤ (Target E)) (lb : LoadBalancer E) : Type 0 where
    pub keyed_new : Keyed E new
    pub nodup_new : NodupKeys new
    pub keyed : Keyed E lb.targets
    pub nodup : NodupKeys lb.targets

  erase-IsSound :
      (k : ℤ) (new : Dict ℤ (Target E)) (lb : LoadBalancer E)
      → IsSound new lb
      → IsSound (erase k new) lb
  erase-IsSound k new lb h = record {
    keyed_new = erase-Keyed E k new h.keyed_new;
    nodup_new = erase-NodupKeys k new h.nodup_new;
    keyed = h.keyed;
    nodup = h.nodup;
  }

  remove-Removed :
      (k : ℤ) (lb : LoadBalancer E) → Keyed E lb.targets → Removed E k lb (remove_target E k lb).0
  unfolding remove_target
  remove-Removed k lb h = remove_target_with-Removed E k true lb h

  Removed-IsSound :
      (k : ℤ) (new : Dict ℤ (Target E)) (lb lb' : LoadBalancer E)
      → Removed E k lb lb'
      → IsSound new lb
      → IsSound new lb'
  Removed-IsSound k new lb lb' r h = record {
    keyed_new = h.keyed_new;
    nodup_new = h.nodup_new;
    keyed = rw r.targets (erase-Keyed E k lb.targets h.keyed);
    nodup = rw r.targets (erase-NodupKeys k lb.targets h.nodup);
  }

  slot-erase :
      (j k : ℤ) (new : Dict ℤ (Target E)) (lb : LoadBalancer E)
      → slot j (erase k new) lb ≡ (
          if j == k
          then (none, (lookup j lb.targets, lookup j lb.pending_targets))
          else slot j new lb)
  slot-erase j k new lb = ground (arith, lookup-erase j k new)

  slot-Removed :
      (j k : ℤ) (new : Dict ℤ (Target E)) (lb lb' : LoadBalancer E)
      → Removed E k lb lb'
      → slot j new lb' ≡ (if j == k then (lookup j new, (none, none)) else slot j new lb)
  slot-Removed j k new lb lb' r =
      rw (r.targets, r.pending)
        (ground (arith, lookup-erase j k lb.targets, lookup-erase j k lb.pending_targets))

  -- A round of a loop for an unchanged target, and for any other one.
  settle-erase :
      (j k : ℤ) (t : Target E) (ts new : Dict ℤ (Target E)) (lb : LoadBalancer E)
      → lookup k ts ≡ none
      → is_unchanged E t (lookup k new) ≡ true
      → settle (lookup j ts) (slot j (erase k new) lb)
        ≡ settle (if j == k then some t else lookup j ts) (slot j new lb)
  settle-erase j k t ts new lb last same = elim (Bool-cases (j == k)) [
    | inl e ↦
        let id = eq→≡ j k e in
        rw e (rw (slot-erase j k new lb) (rw e (rw id (rw last (ground (arith, same))))))
    | inr e ↦ rw e (rw (slot-erase j k new lb) (rw e refl))
  ]

  settle-Removed :
      (j k : ℤ) (t : Target E) (ts new : Dict ℤ (Target E)) (lb lb' : LoadBalancer E)
      → lookup k ts ≡ none
      → is_unchanged E t (lookup k new) ≡ false
      → Removed E k lb lb'
      → settle (lookup j ts) (slot j new lb')
        ≡ settle (if j == k then some t else lookup j ts) (slot j new lb)
  settle-Removed j k t ts new lb lb' last other r = elim (Bool-cases (j == k)) [
    | inl e ↦
        let id = eq→≡ j k e in
        rw e (rw (slot-Removed j k new lb lb' r) (rw e (rw id (rw last (ground (arith, other))))))
    | inr e ↦ rw e (rw (slot-Removed j k new lb lb' r) (rw e refl))
  ]

  pub pending_loop-settle :
      (ts new : Dict ℤ (Target E)) (lb : LoadBalancer E)
      → NodupKeys ts
      → IsSound new lb
      → (let r = pending_loop E ts new lb in IsSound r.1.0 r.0)
        × ((j : ℤ)
            → (let r = pending_loop E ts new lb in slot j r.1.0 r.0)
              ≡ settle (lookup j ts) (slot j new lb))
  unfolding pending_loop lookup
  pending_loop-settle [] new lb n h = (h, λ j. refl)
  pending_loop-settle ((k, t) ∷ ts) new lb n h =
      elim (Bool-cases (is_unchanged E t (lookup k new))) [
        | inl same ↦
            let (h', f) = pending_loop-settle ts (erase k new) lb n.1 (erase-IsSound k new lb h) in
            (rw same h', λ j. rw same (f j ∙ settle-erase j k t ts new lb n.0 same))
        | inr other ↦
            let r = remove-Removed k lb h.keyed in
            let (h', f) =
              pending_loop-settle ts new (remove_target E k lb).0 n.1
                (Removed-IsSound k new lb _ r h) in
            (rw other h', λ j. rw other (f j ∙ settle-Removed j k t ts new lb _ n.0 other r))
      ]

  pub targets_loop-settle :
      (ts new : Dict ℤ (Target E)) (lb : LoadBalancer E)
      → NodupKeys ts
      → IsSound new lb
      → (let r = targets_loop E ts new lb in IsSound r.1.0 r.0)
        × ((j : ℤ)
            → (let r = targets_loop E ts new lb in slot j r.1.0 r.0)
              ≡ settle (lookup j ts) (slot j new lb))
  unfolding targets_loop lookup
  targets_loop-settle [] new lb n h = (h, λ j. refl)
  targets_loop-settle ((k, t) ∷ ts) new lb n h =
      elim (Bool-cases (is_unchanged E t (lookup k new))) [
        | inl same ↦
            let (h', f) = targets_loop-settle ts (erase k new) lb n.1 (erase-IsSound k new lb h) in
            (rw same h', λ j. rw same (f j ∙ settle-erase j k t ts new lb n.0 same))
        | inr other ↦
            let r = remove-Removed k lb h.keyed in
            let (h', f) =
              targets_loop-settle ts new (remove_target E k lb).0 n.1
                (Removed-IsSound k new lb _ r h) in
            (rw other h', λ j. rw other (f j ∙ settle-Removed j k t ts new lb _ n.0 other r))
      ]
