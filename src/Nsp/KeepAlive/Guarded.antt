-- ===== src/Nsp/KeepAlive/Guarded.antt =====
-- Every target that is held waits for a timer of its own.
use meridio.Base.{
  ℕ, zero, suc, ◌<◌, ◌≡◌, ◌≢◌, refl, sym, ap, ◌∙◌, inl, inr, false, Option, none, some, String,
  List, [], ◌∷◌, ◌++◌, string_eq, nat_eq, arith, All, All-append, All-map,
}
use meridio.Base.Lists.{Elem, here, there, All-Elem, Elem-append_left, Elem-append_right}
use meridio.Base.Dict.{Dict, lookup, insert, erase, lookup-insert_cases, lookup-erase_cases}
use meridio.Nsp.{Target}
use meridio.Nsp.Sqlite.{get_target_id}
use meridio.Nsp.KeepAlive.{TargetRegistry, KeepAliveTarget, Timer, cancel_timer, cancel}
use meridio.Nsp.KeepAlive

-- The timer that a held target waits for.
abbrev pub timer_of : KeepAliveTarget → Timer
timer_of k = record { context = k.context; target = k.target; cancelled = false }

-- A timer with the context of a held target is about that target, and contexts are below the next.
abbrev Fits : Dict String KeepAliveTarget → ℕ → Timer → Type 0
Fits held next t =
    (t.context < next)
    × ((id : String) (k : KeepAliveTarget)
        → lookup id held ≡ some k
        → t.context ≡ k.context
        → get_target_id t.target ≡ id)

-- The targets and the timers fit together: a held target stands under its identifier, has a
-- context of its own below the next one, and a timer that is not cancelled.
pub record AreGuarded (held : Dict String KeepAliveTarget) (timers : List Timer) (next : ℕ)
    : Type 0 where
  pub own_id :
      (id : String) (k : KeepAliveTarget) → lookup id held ≡ some k → get_target_id k.target ≡ id
  pub below : (id : String) (k : KeepAliveTarget) → lookup id held ≡ some k → k.context < next
  pub waits :
      (id : String) (k : KeepAliveTarget) → lookup id held ≡ some k → Elem (timer_of k) timers
  pub fits : All (Fits held next) timers

cancel_timer-other : (context : ℕ) (t : Timer) → t.context ≢ context → cancel_timer context t ≡ t
cancel_timer-other context t ne = ground arith

cancel_timer-same :
    (context : ℕ) (t : Timer)
    → ((cancel_timer context t).context ≡ t.context) × ((cancel_timer context t).target ≡ t.target)
cancel_timer-same context t = ground arith

cancel-keeps :
    (context : ℕ) (t : Timer) (ts : List Timer)
    → t.context ≢ context
    → Elem t ts
    → Elem t (cancel context ts)
unfolding cancel
cancel-keeps context t [] ne m = elim m [ ]
cancel-keeps context t (u ∷ us) ne (here e) =
    here (sym (cancel_timer-other context t ne) ∙ ap (cancel_timer context) e)
cancel-keeps context t (u ∷ us) ne (there m) = there (cancel-keeps context t us ne m)

cancel-All :
    (held : Dict String KeepAliveTarget) (next context : ℕ) (ts : List Timer)
    → All (Fits held next) ts
    → All (Fits held next) (cancel context ts)
unfolding cancel
cancel-All held next context [] h = tt
cancel-All held next context (t ∷ ts) h =
    let (same, about) = cancel_timer-same context t in
    (
      (
        omega (arith, same, h.0.0),
        λ id k held_k e. ap get_target_id about ∙ h.0.1 id k held_k (sym same ∙ e),
      ),
      cancel-All held next context ts h.1,
    )

without-keeps :
    (i : ℕ) (t u : Timer) (ts : List Timer)
    → KeepAlive.timer_at i ts ≡ some u
    → t ≢ u
    → Elem t ts
    → Elem t (KeepAlive.without i ts)
without-keeps i t u [] at ne m = elim m [ ]
without-keeps zero t u (x ∷ xs) at ne (here e) = absurd (ne (ground (arith, e)))
without-keeps zero t u (x ∷ xs) at ne (there m) = m
without-keeps (suc i) t u (x ∷ xs) at ne (here e) = here e
without-keeps (suc i) t u (x ∷ xs) at ne (there m) = there (without-keeps i t u xs at ne m)

without-All :
    (P : Timer → Type 0) (i : ℕ) (ts : List Timer) → All P ts → All P (KeepAlive.without i ts)
without-All P i [] h = tt
without-All P zero (x ∷ xs) h = h.1
without-All P (suc i) (x ∷ xs) h = (h.0, without-All P i xs h.1)

module _ {held : Dict String KeepAliveTarget} {timers : List Timer} {next : ℕ}
    (g : AreGuarded held timers next) where
  -- Two targets do not share a context.
  own_context :
      (i j : String) (k l : KeepAliveTarget)
      → lookup i held ≡ some k
      → lookup j held ≡ some l
      → k.context ≡ l.context
      → i ≡ j
  own_context i j k l hk hl e =
      sym (g.own_id i k hk) ∙ (All-Elem (Fits held next) timers g.fits (g.waits i k hk)).1 j l hl e

  -- Removing a target.
  pub erase-AreGuarded : (id : String) → AreGuarded (erase id held) timers next
  erase-AreGuarded id = record {
    own_id = λ j k h. g.own_id j k (lookup-erase_cases j id held h).1;
    below = λ j k h. g.below j k (lookup-erase_cases j id held h).1;
    waits = λ j k h. g.waits j k (lookup-erase_cases j id held h).1;
    fits =
        All-map (Fits held next) (Fits (erase id held) next)
          (λ t f. (f.0, λ j k h e. f.1 j k (lookup-erase_cases j id held h).1 e)) timers g.fits;
  }

  -- Taking out a timer that no target waits for.
  pub without-AreGuarded :
      (i : ℕ) (t : Timer)
      → KeepAlive.timer_at i timers ≡ some t
      → ((id : String) (k : KeepAliveTarget) → lookup id held ≡ some k → timer_of k ≢ t)
      → AreGuarded held (KeepAlive.without i timers) next
  without-AreGuarded i t at free = record {
    own_id = g.own_id;
    below = g.below;
    waits = λ id k h. without-keeps i (timer_of k) t timers at (free id k h) (g.waits id k h);
    fits = without-All (Fits held next) i timers g.fits;
  }

  cancel_held-All :
      (o : Option KeepAliveTarget) → All (Fits held next) (KeepAlive.cancel_held o timers)
  cancel_held-All none = g.fits
  cancel_held-All (some k) = cancel-All held next k.context timers g.fits

  -- The target of another identifier still waits when the timer of this one is cancelled.
  still_waits :
      (id : String) (o : Option KeepAliveTarget)
      → lookup id held ≡ o
      → (j : String) (k : KeepAliveTarget) → j ≢ id
      → lookup j held ≡ some k
      → Elem (timer_of k) (KeepAlive.cancel_held o timers)
  still_waits id none e j k ne h = g.waits j k h
  still_waits id (some l) e j k ne h =
      cancel-keeps l.context (timer_of k) timers (λ same. ne (own_context j id k l h e same))
        (g.waits j k h)

  -- A held target as it is after `add`, under its identifier or another one.
  pub add-AreGuarded :
      (target : Target)
      → AreGuarded
          (insert (get_target_id target) (record { context = next; target = target }) held)
          (KeepAlive.cancel_held (lookup (get_target_id target) held) timers
            ++ record { context = next; target = target; cancelled = false } ∷ [])
          (suc next)
  add-AreGuarded target = record {
    own_id = λ j k h. elim (lookup-insert_cases j id new held h) [
      | inl (e, e') ↦ ap (λ t. get_target_id t.target) e' ∙ sym e
      | inr (ne, old) ↦ g.own_id j k old
    ];
    below = λ j k h. elim (lookup-insert_cases j id new held h) [
      | inl (e, e') ↦ omega (arith, ap (λ t. t.context) e')
      | inr (ne, old) ↦ omega (arith, g.below j k old)
    ];
    waits = λ j k h. elim (lookup-insert_cases j id new held h) [
      | inl (e, e') ↦ Elem-append_right rest (timer_of new ∷ []) (here (ap timer_of e'))
      | inr (ne, old) ↦
          Elem-append_left rest (timer_of new ∷ [])
            (still_waits id (lookup id held) refl j k ne old)
    ];
    fits =
        All-append (Fits (insert id new held) (suc next)) rest (timer_of new ∷ [])
          (All-map (Fits held next) (Fits (insert id new held) (suc next)) older rest
            (cancel_held-All (lookup id held)))
          ((omega arith, newest), tt);
  }
    where
      id : String
      id = get_target_id target

      new : KeepAliveTarget
      new = record { context = next; target = target }

      rest : List Timer
      rest = KeepAlive.cancel_held (lookup id held) timers

      older : (t : Timer) → Fits held next t → Fits (insert id new held) (suc next) t
      older t f = (
        omega (arith, f.0),
        λ j k h e. elim (lookup-insert_cases j id new held h) [
          | inl (e1, e2) ↦ absurd (omega (arith, f.0, e ∙ ap (λ t. t.context) e2))
          | inr (ne, old) ↦ f.1 j k old e
        ],
      )

      newest :
          (j : String) (k : KeepAliveTarget)
          → lookup j (insert id new held) ≡ some k
          → next ≡ k.context
          → get_target_id target ≡ j
      newest j k h e = elim (lookup-insert_cases j id new held h) [
        | inl (e1, e2) ↦ sym e1
        | inr (ne, old) ↦ absurd (omega (arith, g.below j k old, e))
      ]
