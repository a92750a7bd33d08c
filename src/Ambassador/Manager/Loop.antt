-- ===== src/Ambassador/Manager/Loop.antt =====
-- pkg/ambassador/tap/conduit/manager.go: the loops over the streams of the manager.
use meridio.Base.{
  ◌≡◌, refl, ap, sym, ◌∙◌, Bool, true, some, String, string_eq, Option-cases, eq→≡, inl, inr, arith,
}
use meridio.Base.Dict.{Dict, lookup, insert, is_some, lookup-insert}
use meridio.Nsp
use meridio.Ambassador.Registry.{Registry}
use meridio.Ambassador.Manager.{StreamRetry, StreamManager, open_retry}
use meridio.Ambassador.Manager.Opening.{IsOpening, with_at, started-IsOpening}

-- Only what is wanted of the managed streams matters.
pub rewanted :
    (wanted wanted' : String → Bool) (sm : StreamManager)
    → ((m : String) (sr : StreamRetry) → lookup m sm.streams ≡ some sr → wanted m ≡ wanted' m)
    → IsOpening wanted sm
    → IsOpening wanted' sm
rewanted wanted wanted' sm same h = record {
  keyed = h.keyed;
  opening = λ n sr e. h.opening n sr e ∙ same n sr e;
  owned = h.owned;
  kept = h.kept;
  fresh = h.fresh;
  distinct = h.distinct;
}

-- The registry, the configuration and the status do not matter.
pub reframed :
    (wanted : String → Bool) (sm : StreamManager) (r : Registry) (d : Dict String Nsp.Stream)
    (b : Bool)
    → IsOpening wanted sm
    → IsOpening wanted (record sm { registry = r; conduit_streams = d; running = b })
reframed wanted sm r d b h = record {
  keyed = h.keyed;
  opening = h.opening;
  owned = h.owned;
  kept = h.kept;
  fresh = h.fresh;
  distinct = h.distinct;
}

with_at_same :
    (n : String) (b : Bool) (wanted : String → Bool) (m : String)
    → wanted n ≡ b
    → wanted m ≡ with_at n b wanted m
with_at_same n b wanted m e = ground (arith, eq→≡ m n)

pub open_retry-IsOpening :
    (wanted : String → Bool) (n : String) (sr : StreamRetry) (s : Nsp.Stream) (sm : StreamManager)
    → IsOpening wanted sm
    → lookup n sm.streams ≡ some sr
    → IsOpening (with_at n true wanted) (open_retry n sr s sm)
unfolding open_retry
open_retry-IsOpening wanted n sr s sm h at = elim (Option-cases sr.cancel_open) [
  | inl idle ↦ rw (idle, open_retry) (started-IsOpening wanted n sr s sm h at idle)
  | inr (c, held) ↦
      rw (held, open_retry)
        (rewanted wanted (with_at n true wanted) sm
          (λ m sr' e.
            with_at_same n true wanted m (sym (h.opening n sr at) ∙ ap (λ o. is_some o) held))
          h)
]

-- What the body of a loop does: the stream of the name is wanted afterwards as `wants` says, and no
-- other changes.
pub record IsBody (body : String → StreamRetry → StreamManager → StreamManager)
    (wants : Bool → Bool → Bool) : Type 0 where
  pub opens :
      (wanted : String → Bool) (n : String) (sr : StreamRetry) (sm : StreamManager)
      → IsOpening wanted sm
      → lookup n sm.streams ≡ some sr
      → IsOpening
          (with_at n (wants (is_some (lookup n sm.conduit_streams)) (wanted n)) wanted)
          (body n sr sm)
  pub config :
      (n : String) (sr : StreamRetry) (sm : StreamManager)
      → (body n sr sm).conduit_streams ≡ sm.conduit_streams
  pub status :
      (n : String) (sr : StreamRetry) (sm : StreamManager) → (body n sr sm).running ≡ sm.running
  pub present :
      (m n : String) (sr : StreamRetry) (sm : StreamManager)
      → lookup n sm.streams ≡ some sr
      → is_some (lookup m (body n sr sm).streams) ≡ is_some (lookup m sm.streams)
  pub again : (a b : Bool) → wants a (wants a b) ≡ wants a b

pub is_some-insert :
    (m n : String) (sr sr' : StreamRetry) (d : Dict String StreamRetry)
    → lookup n d ≡ some sr
    → is_some (lookup m (insert n sr' d)) ≡ is_some (lookup m d)
is_some-insert m n sr sr' d e = ground (arith, lookup-insert m n sr' d, eq→≡ m n)

module _ (n : String) (sr : StreamRetry) (s : Nsp.Stream) (sm : StreamManager) where
  pub open_retry-config : (open_retry n sr s sm).conduit_streams ≡ sm.conduit_streams
  unfolding open_retry
  open_retry-config = ground arith

  pub open_retry-status : (open_retry n sr s sm).running ≡ sm.running
  unfolding open_retry
  open_retry-status = ground arith

  pub open_retry-present :
      (m : String)
      → lookup n sm.streams ≡ some sr
      → is_some (lookup m (open_retry n sr s sm).streams) ≡ is_some (lookup m sm.streams)
  unfolding open_retry
  open_retry-present m e = elim (Option-cases sr.cancel_open) [
    | inl idle ↦ rw (idle, open_retry) (is_some-insert m n sr _ sm.streams e)
    | inr (c, held) ↦ rw (held, open_retry) refl
  ]
