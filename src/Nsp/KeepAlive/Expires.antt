-- ===== src/Nsp/KeepAlive/Expires.antt =====
-- Targets that are not refreshed go: what every step keeps, and what follows for the timers.
use meridio.Base.{
  ℕ, suc, ◌≡◌, sym, ap, subst, ◌∙◌, inl, inr, Option, none, some, String, List, [], ◌∷◌, ◌++◌, ◌==◌,
  string_eq, nat_eq, arith, Bool-cases, Option-cases,
}
use meridio.Base.Lists.{Elem, here, there}
use meridio.Base.Tests.{eq_refl}
use meridio.Base.Dict.{is_some, lookup, erase, lookup-nil, lookup-erase, lookup-erase_cases}
use meridio.Nsp.{TargetType, Target}
use meridio.Nsp.Sqlite.{get_target_id}
use meridio.Nsp.KeepAlive.{TargetRegistry, KeepAliveTarget, Timer, cancel_timer, cancel}
use meridio.Nsp.KeepAlive
use meridio.Nsp.KeepAlive.Guarded.{
  timer_of, AreGuarded, erase-AreGuarded, without-AreGuarded, add-AreGuarded,
}

position : (t : Timer) (ts : List Timer) → Elem t ts → (i : ℕ) × (KeepAlive.timer_at i ts ≡ some t)
position t [] m = elim m [ ]
position t (u ∷ us) (here e) = (0, ap some (sym e))
position t (u ∷ us) (there m) = let (i, at) = position t us m in (suc i, at)

module _ (R : TargetRegistry) where
  abbrev IsGuarded : KeepAlive.KeepAlive R → Type 0
  IsGuarded ka = AreGuarded ka.targets ka.timers ka.next_context

  removed-IsGuarded :
      (t : Target) (ka : KeepAlive.KeepAlive R)
      → AreGuarded (erase (get_target_id t) ka.targets) ka.timers ka.next_context
      → IsGuarded (KeepAlive.remove R t ka).0
  unfolding KeepAlive.remove
  removed-IsGuarded t ka g = elim (Option-cases ka.target_registry) [
    | inl e ↦ rw e g
    | inr (r, e) ↦ rw e g
  ]

  remove-IsGuarded :
      (t : Target) (ka : KeepAlive.KeepAlive R)
      → IsGuarded ka
      → IsGuarded (KeepAlive.remove R t ka).0
  remove-IsGuarded t ka g = removed-IsGuarded t ka (erase-AreGuarded g (get_target_id t))

  set-IsGuarded :
      (t : Target) (ka : KeepAlive.KeepAlive R) → IsGuarded ka → IsGuarded (KeepAlive.set R t ka).0
  unfolding KeepAlive.set
  set-IsGuarded t ka g = elim (Option-cases ka.target_registry) [
    | inl e ↦
        rw e
          (add-AreGuarded g (KeepAlive.admitted (is_some (lookup (get_target_id t) ka.targets)) t))
    | inr (r, e) ↦
        let t' = KeepAlive.admitted (is_some (lookup (get_target_id t) ka.targets)) t in
        rw e (elim (Bool-cases (R.set t' r).1) [
          | inl done ↦ rw done (add-AreGuarded g t')
          | inr failed ↦ rw failed g
        ])
  ]

  -- A timer that fires: the target that it is about goes with it, and no other waits for it.
  timeout-IsGuarded :
      (i : ℕ) (t : Timer) (ka : KeepAlive.KeepAlive R)
      → KeepAlive.timer_at i ka.timers ≡ some t
      → IsGuarded ka
      → IsGuarded (
          KeepAlive.timeout R t.context t.target
            (record ka { timers = KeepAlive.without i ka.timers }))
  unfolding KeepAlive.timeout
  timeout-IsGuarded i t ka at g =
      let id = get_target_id t.target in
      let ka' = record ka { timers = KeepAlive.without i ka.timers } in
      let about =
        λ (j : String) (k : KeepAliveTarget) (same : timer_of k ≡ t)
            (own : get_target_id k.target ≡ j).
          sym own ∙ ap (λ u. get_target_id u.target) same in
      elim (Option-cases (lookup id ka.targets)) [
        | inl e ↦
            rw (e, KeepAlive.timeout)
              (without-AreGuarded g i t at
                (λ j k h same. absurd (cc (e, h, about j k same (g.own_id j k h)))))
        | inr (held, e) ↦
            rw (e, KeepAlive.timeout)
              (elim (Bool-cases (held.context == t.context)) [
                | inl c ↦ rw c (
                    removed-IsGuarded t.target ka' (
                      without-AreGuarded (erase-AreGuarded g id) i t at (λ j k h same.
                        let (ne, old) = lookup-erase_cases j id ka.targets h in
                        ne (about j k same (g.own_id j k old)))))
                | inr c ↦ rw c (
                    without-AreGuarded g i t at (λ j k h same.
                      let hk : lookup id ka.targets ≡ some k =
                        subst (λ x. lookup x ka.targets ≡ some k) (about j k same (g.own_id j k h))
                          h in
                      ground (arith, hk, ap (λ u. u.context) same)))
              ])
      ]

  fire-IsGuarded :
      (i : ℕ) (ka : KeepAlive.KeepAlive R) → IsGuarded ka → IsGuarded (KeepAlive.fire R i ka)
  unfolding KeepAlive.fire
  fire-IsGuarded i ka g = elim (Option-cases (KeepAlive.timer_at i ka.timers)) [
    | inl e ↦ rw (e, KeepAlive.fire) g
    | inr (t, e) ↦ rw (e, KeepAlive.fire) (timeout-IsGuarded i t ka e g)
  ]

  end_cancelled-IsGuarded :
      (i : ℕ) (ka : KeepAlive.KeepAlive R)
      → IsGuarded ka
      → IsGuarded (KeepAlive.end_cancelled R i ka)
  end_cancelled-IsGuarded i ka g = elim (Option-cases (KeepAlive.timer_at i ka.timers)) [
    | inl e ↦ rw (e, KeepAlive.end_cancelled) g
    | inr (t, e) ↦
        rw (e, KeepAlive.end_cancelled)
          (elim (Bool-cases t.cancelled) [
            | inl done ↦
                rw done
                  (without-AreGuarded g i t e (λ id k h same. cc (ap (λ u. u.cancelled) same)))
            | inr waiting ↦ rw waiting g
          ])
  ]

  step-IsGuarded :
      (e : KeepAlive.Event R) (ka : KeepAlive.KeepAlive R)
      → IsGuarded ka
      → IsGuarded (KeepAlive.step R e ka)
  unfolding KeepAlive.step
  step-IsGuarded (KeepAlive.set_called t) ka g = set-IsGuarded t ka g
  step-IsGuarded (KeepAlive.remove_called t) ka g = remove-IsGuarded t ka g
  step-IsGuarded (KeepAlive.fired i) ka g = fire-IsGuarded i ka g
  step-IsGuarded (KeepAlive.cancelled i) ka g = end_cancelled-IsGuarded i ka g

  run-IsGuarded :
      (es : List (KeepAlive.Event R)) (ka : KeepAlive.KeepAlive R)
      → IsGuarded ka
      → IsGuarded (KeepAlive.run R es ka)
  unfolding KeepAlive.run
  run-IsGuarded [] ka g = g
  run-IsGuarded (e ∷ es) ka g = run-IsGuarded es (KeepAlive.step R e ka) (step-IsGuarded e ka g)

  add_all-IsGuarded :
      (ts : List Target) (ka : KeepAlive.KeepAlive R)
      → IsGuarded ka
      → IsGuarded (KeepAlive.add_all R ts ka)
  unfolding KeepAlive.add_all KeepAlive.add
  add_all-IsGuarded [] ka g = g
  add_all-IsGuarded (t ∷ ts) ka g = add_all-IsGuarded ts (KeepAlive.add R t ka) (add-AreGuarded g t)

  restore-adds :
      (ka : KeepAlive.KeepAlive R) {ka' : KeepAlive.KeepAlive R}
      → KeepAlive.restore R ka ≡ some ka'
      → (ts : List Target) × (KeepAlive.add_all R ts ka ≡ ka')
  unfolding KeepAlive.restore
  restore-adds ka h =
      elim (Option-cases (KeepAlive.get R (some (KeepAlive.any_of TargetType.default)) ka)) [
        | inl e ↦ absurd (ground (arith, e))
        | inr (ts, e) ↦
            elim (Option-cases (KeepAlive.get R (some (KeepAlive.any_of TargetType.frontend)) ka)) [
              | inl e' ↦ absurd (ground (arith, e, e'))
              | inr (us, e') ↦ (ts ++ us, ground (arith, e, e'))
            ]
      ]

  new-IsGuarded :
      (r : Option R.State) {ka : KeepAlive.KeepAlive R} → KeepAlive.new R r ≡ some ka → IsGuarded ka
  unfolding KeepAlive.new
  new-IsGuarded r h =
      let (ts, e) = restore-adds _ h in
      subst IsGuarded e (
        add_all-IsGuarded ts _ (record {
          own_id = λ id k l. absurd (ground (arith, lookup-nil {V = KeepAliveTarget} id, l));
          below = λ id k l. absurd (ground (arith, lookup-nil {V = KeepAliveTarget} id, l));
          waits = λ id k l. absurd (ground (arith, lookup-nil {V = KeepAliveTarget} id, l));
          fits = tt;
        }))

  lookup-removed :
      (t : Target) (ka : KeepAlive.KeepAlive R)
      → lookup (get_target_id t) (KeepAlive.remove R t ka).0.targets ≡ none
  unfolding KeepAlive.remove
  lookup-removed t ka =
      let id = get_target_id t in
      let gone : lookup id (erase id ka.targets) ≡ none =
        ground (arith, lookup-erase id id ka.targets) in
      elim (Option-cases ka.target_registry) [ inl e ↦ rw e gone | inr (r, e) ↦ rw e gone ]

  fire-removes :
      (i : ℕ) (k : KeepAliveTarget) (ka : KeepAlive.KeepAlive R)
      → lookup (get_target_id k.target) ka.targets ≡ some k
      → KeepAlive.timer_at i ka.timers ≡ some (timer_of k)
      → lookup (get_target_id k.target) (KeepAlive.fire R i ka).targets ≡ none
  unfolding KeepAlive.fire
  fire-removes i k ka h at =
      rw (at, KeepAlive.fire)
        (rw (h, KeepAlive.timeout)
          (rw (eq_refl k.context)
            (lookup-removed k.target (record ka { timers = KeepAlive.without i ka.timers }))))

  -- After `New` and any events, for every target that is held: it has a timer that is not
  -- cancelled, and when that fires next, the target is held no longer.
  pub run-expires :
      (r : Option R.State) {ka : KeepAlive.KeepAlive R}
      → KeepAlive.new R r ≡ some ka
      → (es : List (KeepAlive.Event R)) (id : String) (k : KeepAliveTarget)
      → lookup id (KeepAlive.run R es ka).targets ≡ some k
      → (i : ℕ) × (KeepAlive.timer_at i (KeepAlive.run R es ka).timers ≡ some (timer_of k))
        × (lookup id (KeepAlive.fire R i (KeepAlive.run R es ka)).targets ≡ none)
  run-expires r {ka} h es id k held =
      let now = KeepAlive.run R es ka in
      let g = run-IsGuarded es ka (new-IsGuarded r h) in
      let (i, at) = position (timer_of k) now.timers (g.waits id k held) in
      let own = g.own_id id k held in
      (
        i,
        at,
        subst (λ x. lookup x (KeepAlive.fire R i now).targets ≡ none) own
            (fire-removes i k now (subst (λ x. lookup x now.targets ≡ some k) (sym own) held) at),
      )
