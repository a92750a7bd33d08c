-- ===== src/LoadBalancer/Stream/Available.antt =====
-- Removing targets, and the operations as a whole, against the registration of the stream.
use meridio.Base.{
  ◌≡◌, refl, sym, ap, ◌∙◌, inl, inr, Bool, false, String, [], ◌∷◌, arith, Bool-cases, Option-cases,
}
use meridio.Base.Dict.{Dict, lookup, erase}
use meridio.Base.Int.{ℤ, int_eq}
use meridio.LoadBalancer.Env.{Env}
use meridio.LoadBalancer.Target.{Target, get_ips, cleared, verify}
use meridio.LoadBalancer.Target
use meridio.LoadBalancer.Stream.{
  LoadBalancer, is_empty, add_pending_target, drop_target, remove_target_with, remove_target,
  verify_loop,
}
use meridio.LoadBalancer.Stream.Registered.{
  Observes, IsRegistered, delete-registered, lookup_not_empty, add_pending-fields,
}

module _ (E : Env) (name : String) (registered : E.World → Bool)
    (o : Observes E name registered) where
  -- The state of the world after a target is taken down.
  abbrev dropped : Target E → E.World → E.World
  dropped t w =
      (Target.delete E t (E.deactivate t.identifier (E.unregister_neighbors (get_ips E t) w)).0).0

  dropped-registered : (t : Target E) (w : E.World) → registered (dropped t w) ≡ registered w
  dropped-registered t w =
      let w1 = E.unregister_neighbors (get_ips E t) w in
      delete-registered E name registered o t (E.deactivate t.identifier w1).0
      ∙ o.deactivate t.identifier w1
      ∙ o.unregister_neighbors (get_ips E t) w

  -- `RemoveTarget` registers the loss of the last target.
  pub remove_target-IsRegistered :
      (k : ℤ) (lb : LoadBalancer E)
      → IsRegistered E name registered o lb
      → IsRegistered E name registered o (remove_target E k lb).0
  unfolding remove_target remove_target_with drop_target
  remove_target-IsRegistered k lb h = elim (Option-cases (lookup k lb.targets)) [
    | inl missing ↦ record {
      named = ground (arith, missing, h.named);
      agrees = ground (arith, missing, h.agrees);
    }
    | inr (t, found) ↦
        let some_left = lookup_not_empty E name registered o k t lb.targets found in
        let same = dropped-registered t lb.world in
        elim (Bool-cases (is_empty (erase t.identifier lb.targets))) [
          | inl last ↦ record {
            named = ground (arith, found, h.named);
            agrees = ground (arith, found, last, h.named, o.unregister_stream (dropped t lb.world));
          }
          | inr more ↦ record {
            named = ground (arith, found, h.named);
            agrees = ground (arith, found, more, h.agrees, some_left, same);
          }
        ]
  ]

  -- Without the update of the availability: the registration stays, and no target comes.
  pub record Quiet (lb lb' : LoadBalancer E) : Type 0 where
    pub named : lb'.name ≡ lb.name
    pub same : registered lb'.world ≡ registered lb.world
    pub fewer : is_empty lb'.targets ≡ false → is_empty lb.targets ≡ false

  remove_target-Quiet : (k : ℤ) (lb : LoadBalancer E) → Quiet lb (remove_target_with E k false lb).0
  unfolding remove_target_with drop_target
  remove_target-Quiet k lb = elim (Option-cases (lookup k lb.targets)) [
    | inl missing ↦ record {
      named = ground (arith, missing);
      same = ground (arith, missing);
      fewer = λ h. ground (arith, missing, h);
    }
    | inr (t, found) ↦ record {
      named = ground (arith, found);
      same = ground (arith, found, dropped-registered t lb.world);
      fewer = λ _. lookup_not_empty E name registered o k t lb.targets found;
    }
  ]

  Quiet-Quiet : {a b c : LoadBalancer E} → Quiet a b → Quiet b c → Quiet a c
  Quiet-Quiet p q = record {
    named = q.named ∙ p.named;
    same = q.same ∙ p.same;
    fewer = λ h. p.fewer (q.fewer h);
  }

  add_pending-Quiet : (t : Target E) (lb : LoadBalancer E) → Quiet lb (add_pending_target E t lb)
  add_pending-Quiet t lb =
      let (n, w, ts) = add_pending-fields E name registered o t lb in
      record { named = n; same = ap registered w; fewer = λ h. sym (ap is_empty ts) ∙ h }

  pub verify_loop-Quiet :
      (ts : Dict ℤ (Target E)) (lb : LoadBalancer E) → Quiet lb (verify_loop E ts lb)
  unfolding verify_loop
  verify_loop-Quiet [] lb = record { named = refl; same = refl; fewer = λ h. h }
  verify_loop-Quiet ((k, t) ∷ ts) lb = elim (Bool-cases (verify E t lb.world)) [
    | inl fine ↦ rw fine (verify_loop-Quiet ts lb)
    | inr broken ↦
        let lb1 = (remove_target_with E t.identifier false lb).0 in
        let lb2 = add_pending_target E (cleared E t) lb1 in
        rw broken (
          Quiet-Quiet
            (Quiet-Quiet (remove_target-Quiet t.identifier lb)
              (add_pending-Quiet (cleared E t) lb1))
            (verify_loop-Quiet ts lb2))
  ]
