-- ===== src/LoadBalancer/Stream/Registered.antt =====
-- The stream is registered as able to forward exactly while it has an active target.
use meridio.Base.{
  ◌≡◌, refl, sym, ap, ◌∙◌, inl, inr, subst, Bool, true, false, not, some, String, List, [], ◌∷◌,
  ◌++◌, arith, Bool-cases, Option-cases,
}
use meridio.Base.Dict.{Dict, is_some, lookup, insert}
use meridio.Base.Int.{ℤ, int_eq, ◌+ℤ◌}
use meridio.Nsp
use meridio.LoadBalancer.Env.{Env}
use meridio.LoadBalancer.Target.{
  Target, get_ips, configure, configure_routes, delete_routes, cleared, verify, offset_id,
}
use meridio.LoadBalancer.Target
use meridio.LoadBalancer.Stream.{
  LoadBalancer, LbError, is_empty, add_pending_target, add_target, activate_target, give_up, admit,
}

-- What the other components do to the registration of the stream: `Register` and `Unregister` of
-- the forwarding availability service set it, and no other call touches it.
pub record Observes (E : Env) (name : String) (registered : E.World → Bool) : Type 0 where
  pub register_stream : (w : E.World) → registered (E.register_stream name w) ≡ true
  pub unregister_stream : (w : E.World) → registered (E.unregister_stream name w) ≡ false
  pub new_fwmark_route :
      (ip : String) (mark table : ℤ) (w : E.World)
      → registered (E.new_fwmark_route ip mark table w).0 ≡ registered w
  pub delete_route :
      (r : E.FwMarkRoute) (w : E.World) → registered (E.delete_route r w).0 ≡ registered w
  pub activate : (i j : ℤ) (w : E.World) → registered (E.activate i j w).0 ≡ registered w
  pub deactivate : (i : ℤ) (w : E.World) → registered (E.deactivate i w).0 ≡ registered w
  pub register_metrics :
      (i : ℤ) (t : Nsp.Target) (w : E.World) → registered (E.register_metrics i t w) ≡ registered w
  pub unregister_metrics :
      (i : ℤ) (w : E.World) → registered (E.unregister_metrics i w) ≡ registered w
  pub register_neighbors :
      (ips : List String) (w : E.World) → registered (E.register_neighbors ips w) ≡ registered w
  pub unregister_neighbors :
      (ips : List String) (w : E.World) → registered (E.unregister_neighbors ips w) ≡ registered w
  pub set_flow : (f : Nsp.Flow) (w : E.World) → registered (E.set_flow f w).0 ≡ registered w
  pub delete_flow : (f : Nsp.Flow) (w : E.World) → registered (E.delete_flow f w).0 ≡ registered w
  pub delete_nfqlb : (w : E.World) → registered (E.delete_nfqlb w).0 ≡ registered w
  pub set_serving : (w : E.World) → registered (E.set_serving w) ≡ registered w

module _ (E : Env) (name : String) (registered : E.World → Bool)
    (o : Observes E name registered) where
  routes-registered :
      (id : ℤ) (ips : List String) (rs : List E.FwMarkRoute) (w : E.World)
      → registered (configure_routes E id ips rs w).0 ≡ registered w
  unfolding configure_routes
  routes-registered id [] rs w = refl
  routes-registered id (ip ∷ ips) rs w = elim (Option-cases (E.new_fwmark_route ip id id w).1) [
    | inl e ↦ rw (e, configure_routes) (o.new_fwmark_route ip id id w)
    | inr (r, e) ↦
        rw (e, configure_routes)
          (routes-registered id ips (rs ++ r ∷ []) (E.new_fwmark_route ip id id w).0
            ∙ o.new_fwmark_route ip id id w)
  ]

  configure-registered :
      (t : Target E) (w : E.World) → registered (configure E t w).0 ≡ registered w
  unfolding configure
  configure-registered t w =
      let same = routes-registered (offset_id E t) (get_ips E t) t.fw_marks w in
      elim (Bool-cases (configure_routes E (offset_id E t) (get_ips E t) t.fw_marks w).1.1) [
        | inl e ↦ rw e same
        | inr e ↦ rw e (o.register_metrics (offset_id E t) t.nsp_target _ ∙ same)
      ]

  delete_routes-registered :
      (rs : List E.FwMarkRoute) (w : E.World) → registered (delete_routes E rs w).0 ≡ registered w
  unfolding delete_routes
  delete_routes-registered [] w = refl
  delete_routes-registered (r ∷ rs) w =
      delete_routes-registered rs (E.delete_route r w).0 ∙ o.delete_route r w

  pub delete-registered :
      (t : Target E) (w : E.World) → registered (Target.delete E t w).0 ≡ registered w
  unfolding Target.delete
  delete-registered t w =
      o.unregister_metrics (offset_id E t) _ ∙ delete_routes-registered t.fw_marks w

  -- The stream has the name, and is registered as it should be.
  pub record IsRegistered (lb : LoadBalancer E) : Type 0 where
    pub named : lb.name ≡ name
    pub agrees : registered lb.world ≡ not (is_empty lb.targets)

  insert_not_empty :
      (k : ℤ) (t : Target E) (d : Dict ℤ (Target E)) → is_empty (insert k t d) ≡ false
  unfolding insert
  insert_not_empty k t [] = refl
  insert_not_empty k t ((j, u) ∷ d) = ground arith

  pub lookup_not_empty :
      (k : ℤ) (t : Target E) (d : Dict ℤ (Target E)) → lookup k d ≡ some t → is_empty d ≡ false
  unfolding lookup
  lookup_not_empty k t [] e = cc
  lookup_not_empty k t ((j, u) ∷ d) e = refl

  -- How `AddTarget` ends: nothing changes for the registration, or there is a target and it is set.
  pub data Registers (lb lb' : LoadBalancer E) : Type 0 where
    leaves :
        lb'.name ≡ lb.name
        → registered lb'.world ≡ registered lb.world
        → lb'.targets ≡ lb.targets
        → Registers lb lb'
    sets :
        lb'.name ≡ lb.name
        → registered lb'.world ≡ true
        → is_empty lb'.targets ≡ false
        → Registers lb lb'

  pub add_pending-fields :
      (t : Target E) (lb : LoadBalancer E)
      → ((add_pending_target E t lb).name ≡ lb.name)
        × ((add_pending_target E t lb).world ≡ lb.world)
        × ((add_pending_target E t lb).targets ≡ lb.targets)
  add_pending-fields t lb = elim (Bool-cases (is_some (lookup t.identifier lb.pending_targets))) [
    | inl e ↦ rw e (refl, refl, refl)
    | inr e ↦ rw e (refl, refl, refl)
  ]

  give_up-Registers :
      (error : LbError) (t : Target E) (w : E.World) (lb : LoadBalancer E)
      → registered w ≡ registered lb.world
      → Registers lb (give_up E error t w lb).0
  unfolding give_up
  give_up-Registers error t w lb same =
      let deleted = (Target.delete E t w).0 in
      let (n, v, ts) = add_pending-fields (cleared E t) (record lb { world = deleted }) in
      leaves n (ap registered v ∙ delete-registered t w ∙ same) ts

  admit-Registers :
      (t : Target E) (w : E.World) (lb : LoadBalancer E)
      → lb.name ≡ name
      → Registers lb (admit E t w lb)
  unfolding admit
  admit-Registers t w lb named =
      sets refl (rw named (o.register_stream (E.register_neighbors (get_ips E t) w)))
        (insert_not_empty t.identifier t lb.targets)

  activate_target-Registers :
      (t : Target E) (w : E.World) (lb : LoadBalancer E)
      → lb.name ≡ name
      → registered w ≡ registered lb.world
      → Registers lb (activate_target E t w lb).0
  unfolding activate_target
  activate_target-Registers t w lb named same =
      let a = E.activate t.identifier (t.identifier +ℤ lb.identifier_offset) w in
      elim (Bool-cases a.1) [
        | inl failed ↦
            subst (Registers lb) {x = (give_up E LbError.activate_failed t a.0 lb).0}
              {y = (activate_target E t w lb).0} (ground (arith, failed))
              (give_up-Registers LbError.activate_failed t a.0 lb
                (o.activate t.identifier (t.identifier +ℤ lb.identifier_offset) w ∙ same))
        | inr fine ↦
            subst (Registers lb) {x = admit E t a.0 lb} {y = (activate_target E t w lb).0}
              (ground (arith, fine)) (admit-Registers t a.0 lb named)
      ]

  pub add_target-Registers :
      (t : Target E) (lb : LoadBalancer E) → lb.name ≡ name → Registers lb (add_target E t lb).0
  unfolding add_target
  add_target-Registers t lb named = elim (Option-cases (lookup t.identifier lb.targets)) [
    | inr (a, old) ↦ leaves (ground (arith, old)) (ground (arith, old)) (ground (arith, old))
    | inl new ↦
        let c = configure E t lb.world in
        let same = configure-registered t lb.world in
        elim (Bool-cases c.1.1) [
          | inl failed ↦
              subst (Registers lb) {x = (give_up E LbError.configure_failed c.1.0 c.0 lb).0}
                {y = (add_target E t lb).0} (ground (arith, new, failed))
                (give_up-Registers LbError.configure_failed c.1.0 c.0 lb same)
          | inr fine ↦
              subst (Registers lb) {x = (activate_target E c.1.0 c.0 lb).0}
                {y = (add_target E t lb).0} (ground (arith, new, fine))
                (activate_target-Registers c.1.0 c.0 lb named same)
        ]
  ]

  pub Registers-IsRegistered :
      {lb lb' : LoadBalancer E} → Registers lb lb' → IsRegistered lb → IsRegistered lb'
  Registers-IsRegistered (leaves n w ts) h = record {
    named = n ∙ h.named;
    agrees = w ∙ h.agrees ∙ ap (λ t. not (is_empty t)) (sym ts);
  }
  Registers-IsRegistered (sets n w ts) h = record {
    named = n ∙ h.named;
    agrees = w ∙ ap not (sym ts);
  }
