-- ===== src/LoadBalancer/Stream/Availability.antt =====
-- Any calls against the registration of the stream.
use meridio.Base.{
  ◌≡◌, sym, ap, ◌∙◌, inl, inr, subst, Bool, true, not, String, [], ◌∷◌, string_eq, arith,
  Bool-cases,
}
use meridio.Base.Dict.{Dict}
use meridio.Base.Int.{ℤ, int_eq}
use meridio.LoadBalancer.Env.{Env}
use meridio.LoadBalancer.Target.{Target}
use meridio.LoadBalancer.Stream.{
  LoadBalancer, is_empty, add_target, verify_targets, retry_loop, retry_pending_targets, check,
}
use meridio.LoadBalancer.Stream.Registered.{
  Observes, IsRegistered, Registers, leaves, sets, add_target-Registers, Registers-IsRegistered,
}
use meridio.LoadBalancer.Stream.Available.{verify_loop-Quiet}

module _ (E : Env) (name : String) (registered : E.World → Bool)
    (o : Observes E name registered) where
  abbrev pub Registered : LoadBalancer E → Type 0
  Registered = IsRegistered E name registered o

  pub add_target-IsRegistered :
      (t : Target E) (lb : LoadBalancer E) → Registered lb → Registered (add_target E t lb).0
  add_target-IsRegistered t lb h =
      Registers-IsRegistered E name registered o
        (add_target-Registers E name registered o t lb h.named) h

  retry_loop-IsRegistered :
      (ts : Dict ℤ (Target E)) (lb : LoadBalancer E)
      → Registered lb
      → Registered (retry_loop E ts lb)
  unfolding retry_loop
  retry_loop-IsRegistered [] lb h = h
  retry_loop-IsRegistered ((k, t) ∷ ts) lb h =
      retry_loop-IsRegistered ts (add_target E t lb).0 (add_target-IsRegistered t lb h)

  -- While the stream is registered, adding targets leaves it so.
  record Stays (lb : LoadBalancer E) : Type 0 where
    named : lb.name ≡ name
    registers : registered lb.world ≡ true

  Registers-Stays :
      {lb lb' : LoadBalancer E} → Registers E name registered o lb lb' → Stays lb → Stays lb'
  Registers-Stays (leaves n w ts) h = record { named = n ∙ h.named; registers = w ∙ h.registers }
  Registers-Stays (sets n w ts) h = record { named = n ∙ h.named; registers = w }

  retry_loop-Stays :
      (ts : Dict ℤ (Target E)) (lb : LoadBalancer E) → Stays lb → Stays (retry_loop E ts lb)
  unfolding retry_loop
  retry_loop-Stays [] lb h = h
  retry_loop-Stays ((k, t) ∷ ts) lb h =
      retry_loop-Stays ts (add_target E t lb).0
        (Registers-Stays (add_target-Registers E name registered o t lb h.named) h)

  -- The verification and the retries, when they leave an empty map where there were targets.
  pub check-IsRegistered : (lb : LoadBalancer E) → Registered lb → Registered (check E lb)
  unfolding check verify_targets retry_pending_targets
  check-IsRegistered lb h =
      let q = verify_loop-Quiet E name registered o lb.targets lb in
      let v = verify_targets E lb in
      let r = retry_pending_targets E v in
      let named = q.named ∙ h.named in
      elim (Bool-cases (is_empty v.targets)) [
        | inr more ↦
            let wanted : Registered v = record {
              named = named;
              agrees = q.same ∙ h.agrees ∙ ap not (q.fewer more) ∙ ap not (sym more);
            } in
            subst Registered {x = r} {y = check E lb} (ground (arith, more))
              (retry_loop-IsRegistered v.pending_targets v wanted)
        | inl last ↦ elim (Bool-cases (is_empty lb.targets)) [
          | inl none_before ↦
              let wanted : Registered v = record {
                named = named;
                agrees = q.same ∙ h.agrees ∙ ap not none_before ∙ ap not (sym last);
              } in
              subst Registered {x = r} {y = check E lb} (ground (arith, none_before))
                (retry_loop-IsRegistered v.pending_targets v wanted)
          | inr some_before ↦
              let stays =
                retry_loop-Stays v.pending_targets v
                  (record { named = named; registers = q.same ∙ h.agrees ∙ ap not some_before }) in
              elim (Bool-cases (is_empty r.targets)) [
                | inl none_after ↦ record {
                  named = ground (arith, last, some_before, none_after, stays.named);
                  agrees =
                      ground (
                        arith,
                        last,
                        some_before,
                        none_after,
                        h.named,
                        o.unregister_stream r.world,
                      );
                }
                | inr some_after ↦ record {
                  named = ground (arith, last, some_before, some_after, stays.named);
                  agrees = ground (arith, last, some_before, some_after, stays.registers);
                }
              ]
        ]
      ]
