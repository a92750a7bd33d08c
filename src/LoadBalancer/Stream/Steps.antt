-- ===== src/LoadBalancer/Stream/Steps.antt =====
-- What `RemoveTarget` and `AddTarget` do to the two maps of targets.
use meridio.Base.{
  ◌≡◌, refl, inl, inr, Bool, none, [], ◌∷◌, arith, Bool-cases, Option-cases, if◌then◌else◌,
}
use meridio.Base.Dict.{Dict, is_some, lookup, insert, erase}
use meridio.Base.Int.{ℤ, int_eq, ◌+ℤ◌}
use meridio.LoadBalancer.Env.{Env}
use meridio.LoadBalancer.Target.{Target, configure, cleared}
use meridio.LoadBalancer.Stream.{
  LoadBalancer, drop_target, remove_target_with, add_target, activate_target, give_up, admit,
}
use meridio.LoadBalancer.Stream.Keyed.{Keyed, lookup-Keyed}

module _ (E : Env) where
  -- The identifier is gone from both maps, and nothing else is.
  pub record Removed (k : ℤ) (lb lb' : LoadBalancer E) : Type 0 where
    pub targets : lb'.targets ≡ erase k lb.targets
    pub pending : lb'.pending_targets ≡ erase k lb.pending_targets

  erase_missing : (k : ℤ) (d : Dict ℤ (Target E)) → lookup k d ≡ none → erase k d ≡ d
  unfolding erase lookup
  erase_missing k [] h = refl
  erase_missing k ((j, t) ∷ d) h = ground (arith, erase_missing k d)

  pub remove_target_with-Removed :
      (k : ℤ) (flag : Bool) (lb : LoadBalancer E)
      → Keyed E lb.targets
      → Removed k lb (remove_target_with E k flag lb).0
  unfolding remove_target_with drop_target
  remove_target_with-Removed k flag lb h = elim (Option-cases (lookup k lb.targets)) [
    | inl e ↦ record {
      targets = ground (arith, e, erase_missing k lb.targets e);
      pending = ground (arith, e);
    }
    | inr (t, e) ↦
        let id = lookup-Keyed E k t lb.targets h e in
        record { targets = ground (arith, e, id); pending = ground (arith, e) }
  ]

  -- The new target is active, or it waits; other identifiers are as they were.
  pub data Added (t : Target E) (lb lb' : LoadBalancer E) : Type 0 where
    active :
        (a : Target E)
        → a.nsp_target ≡ t.nsp_target
        → a.identifier ≡ t.identifier
        → lb'.targets ≡ insert t.identifier a lb.targets
        → lb'.pending_targets ≡ erase t.identifier lb.pending_targets
        → Added t lb lb'
    waiting :
        (a : Target E)
        → a.nsp_target ≡ t.nsp_target
        → a.identifier ≡ t.identifier
        → lb'.targets ≡ lb.targets
        → lb'.pending_targets ≡ (
            if is_some (lookup t.identifier lb.pending_targets)
            then lb.pending_targets
            else insert t.identifier a lb.pending_targets)
        → Added t lb lb'

  pub add_target-Added :
      (t : Target E) (lb : LoadBalancer E)
      → lookup t.identifier lb.targets ≡ none
      → Added t lb (add_target E t lb).0
  unfolding add_target activate_target give_up admit configure
  add_target-Added t lb h =
      let c = configure E t lb.world in
      elim (Bool-cases (c.1.1)) [
        | inl failed ↦
            waiting (cleared E c.1.0) refl refl (ground (arith, h, failed))
              (ground (arith, h, failed))
        | inr fine ↦
            elim (Bool-cases
              (E.activate t.identifier (t.identifier +ℤ lb.identifier_offset) c.0).1) [
                | inl failed ↦
                    waiting (cleared E c.1.0) refl refl (ground (arith, h, fine, failed))
                      (ground (arith, h, fine, failed))
                | inr done ↦
                    active c.1.0 refl refl (ground (arith, h, fine, done))
                      (ground (arith, h, fine, done))
              ]
      ]
