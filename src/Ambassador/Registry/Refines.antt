-- ===== src/Ambassador/Registry/Refines.antt =====
-- pkg/ambassador/tap/stream/registry/registry.go: the registry is a map from streams to their status,
-- where streams are the same if their names and those of their conduits and trenches are.
use meridio.Base.{
  ◌≡◌, refl, ap, sym, subst, ◌∙◌, true, Option, none, some, List, [], ◌∷◌, string_eq, if◌then◌else◌,
  Bool-cases, Option-cases, inl, inr, arith,
}
use meridio.Ambassador.Messages.{Stream, stream_equals}
use meridio.Ambassador.Registry.{
  Status, StreamStatus, Registry, new, put, set_status, cut, remove, watch,
}

-- The map that the registry stands for.
abbrev Statuses : Type 0
Statuses = Option Stream → Option Status

-- A call of the registry.
pub data Call : Type 0 where
  set_one : Option Stream → Status → Call
  remove_one : Option Stream → Call
  watch_all : Option Stream → Call

-- What a call does to the map.
unfoldable pub meant : Call → Statuses → Statuses
meant (Call.set_one stream v) m t = if stream_equals t stream then some v else m t
meant (Call.remove_one stream) m t = if stream_equals t stream then none else m t
meant (Call.watch_all stream) m t = m t

unfoldable pub all_meant : List Call → Statuses → Statuses
all_meant [] m = m
all_meant (c ∷ cs) m = all_meant cs (meant c m)

unfoldable pub call : Call → Registry → Registry
call (Call.set_one stream v) r = set_status stream v r
call (Call.remove_one stream) r = remove stream r
call (Call.watch_all stream) r = watch stream r

unfoldable pub calls : List Call → Registry → Registry
calls [] r = r
calls (c ∷ cs) r = calls cs (call c r)

-- The status of a stream: that of its first entry.
unfoldable pub status_of : Option Stream → List StreamStatus → Option Status
status_of t [] = none
status_of t (s ∷ ss) = if stream_equals t s.stream then some s.status else status_of t ss

stream_equals_comm : (a b : Option Stream) → stream_equals a b ≡ stream_equals b a
unfolding stream_equals
stream_equals_comm a b = ground arith

stream_equals_joined :
    (a b c : Option Stream)
    → stream_equals a b ≡ true
    → stream_equals a c ≡ true
    → stream_equals b c ≡ true
unfolding stream_equals
stream_equals_joined a b c h k = ground arith

stream_equals_moved :
    (t a b : Option Stream) → stream_equals a b ≡ true → stream_equals t a ≡ stream_equals t b
unfolding stream_equals
stream_equals_moved t a b h = ground arith

-- No stream has two entries.
abbrev IsDistinct : List StreamStatus → Type 0
IsDistinct [] = Unit
IsDistinct (s ∷ ss) = (status_of s.stream ss ≡ none) × IsDistinct ss

status_of-put :
    (t s : Option Stream) (v : Status) (ss : List StreamStatus)
    → status_of t (put s v ss) ≡ (if stream_equals t s then some v else status_of t ss)
unfolding status_of put
status_of-put t s v [] = ground arith
status_of-put t s v (x ∷ ss) = ground (
  arith,
  status_of-put t s v ss,
  stream_equals_moved t s x.stream,
  stream_equals_joined t s x.stream,
)

put-IsDistinct :
    (s : Option Stream) (v : Status) (ss : List StreamStatus)
    → IsDistinct ss
    → IsDistinct (put s v ss)
unfolding put status_of
put-IsDistinct s v [] h = (refl, tt)
put-IsDistinct s v (x ∷ ss) h =
    ground (
      arith,
      put-IsDistinct s v ss h.1,
      status_of-put x.stream s v ss,
      stream_equals_comm x.stream s,
    )

-- What is left of the list after a removal.
unfoldable left : Option Stream → List StreamStatus → List StreamStatus
left s ss = elim (cut s ss) [ none ↦ ss | some rest ↦ rest ]

left-cons :
    (s : Option Stream) (x : StreamStatus) (ss : List StreamStatus)
    → left s (x ∷ ss) ≡ (if stream_equals s x.stream then ss else x ∷ left s ss)
unfolding cut left
left-cons s x ss = ground (arith, Option-cases (cut s ss))

status_of_moved :
    (a b : Option Stream) (ss : List StreamStatus)
    → stream_equals a b ≡ true
    → status_of a ss ≡ status_of b ss
unfolding status_of
status_of_moved a b [] h = refl
status_of_moved a b (x ∷ ss) h = ground (
  arith,
  status_of_moved a b ss h,
  stream_equals_joined a b x.stream h,
  stream_equals_joined b a x.stream (stream_equals_comm b a ∙ h),
)

left_first :
    (t s : Option Stream) (x : StreamStatus) (ss : List StreamStatus)
    → (stream_equals t x.stream ≡ true → status_of t ss ≡ status_of x.stream ss)
    → status_of x.stream ss ≡ none
    → status_of t (left s ss) ≡ (if stream_equals t s then none else status_of t ss)
    → status_of t (if stream_equals s x.stream then ss else x ∷ left s ss)
      ≡ (if stream_equals t s then none else status_of t (x ∷ ss))
unfolding status_of
left_first t s x ss moved alone rest =
    ground (
      arith,
      moved,
      alone,
      rest,
      stream_equals_moved t s x.stream,
      stream_equals_joined t s x.stream,
    )

status_of-left :
    (t s : Option Stream) (ss : List StreamStatus)
    → IsDistinct ss
    → status_of t (left s ss) ≡ (if stream_equals t s then none else status_of t ss)
unfolding status_of left cut
status_of-left t s [] h = ground arith
status_of-left t s (x ∷ ss) h =
    ap (status_of t) (left-cons s x ss)
    ∙ left_first t s x ss (status_of_moved t x.stream ss) h.0 (status_of-left t s ss h.1)

left-IsDistinct :
    (s : Option Stream) (ss : List StreamStatus) → IsDistinct ss → IsDistinct (left s ss)
unfolding left cut
left-IsDistinct s [] h = tt
left-IsDistinct s (x ∷ ss) h = subst IsDistinct (sym (left-cons s x ss)) (
    ground (
      arith,
      h.0,
      h.1,
      left-IsDistinct s ss h.1,
      status_of-left x.stream s ss h.1,
      Bool-cases (stream_equals x.stream s),
    ))

remove-left : (s : Option Stream) (r : Registry) → (remove s r).streams ≡ left s r.streams
unfolding remove left
remove-left s r = elim (Option-cases (cut s r.streams)) [
  | inl e ↦ rw (e, remove, left) refl
  | inr (rest, e) ↦ rw (e, remove, left) refl
]

call-IsDistinct : (c : Call) (r : Registry) → IsDistinct r.streams → IsDistinct (call c r).streams
unfolding call set_status watch
call-IsDistinct (Call.set_one s v) r h = put-IsDistinct s v r.streams h
call-IsDistinct (Call.remove_one s) r h =
    subst IsDistinct (sym (remove-left s r)) (left-IsDistinct s r.streams h)
call-IsDistinct (Call.watch_all s) r h = h

call-meant :
    (c : Call) (r : Registry) (t : Option Stream)
    → IsDistinct r.streams
    → status_of t (call c r).streams ≡ meant c (λ i. status_of i r.streams) t
unfolding call set_status watch meant
call-meant (Call.set_one s v) r t h = status_of-put t s v r.streams
call-meant (Call.remove_one s) r t h =
    ap (status_of t) (remove-left s r) ∙ status_of-left t s r.streams h
call-meant (Call.watch_all s) r t h = refl

meant_same :
    (c : Call) (m m' : Statuses) (t : Option Stream) → m t ≡ m' t → meant c m t ≡ meant c m' t
unfolding meant
meant_same (Call.set_one s v) m m' t e = ap (λ o. if stream_equals t s then some v else o) e
meant_same (Call.remove_one s) m m' t e = ap (λ o. if stream_equals t s then none else o) e
meant_same (Call.watch_all s) m m' t e = e

all_meant_same :
    (cs : List Call) (m m' : Statuses)
    → ((t : Option Stream) → m t ≡ m' t)
    → (t : Option Stream) → all_meant cs m t ≡ all_meant cs m' t
unfolding all_meant
all_meant_same [] m m' same t = same t
all_meant_same (c ∷ cs) m m' same t =
    all_meant_same cs (meant c m) (meant c m') (λ i. meant_same c m m' i (same i)) t

calls-from :
    (cs : List Call) (r : Registry) (t : Option Stream)
    → IsDistinct r.streams
    → status_of t (calls cs r).streams ≡ all_meant cs (λ i. status_of i r.streams) t
unfolding calls all_meant
calls-from [] r t h = refl
calls-from (c ∷ cs) r t h =
    calls-from cs (call c r) t (call-IsDistinct c r h)
    ∙ all_meant_same cs (λ i. status_of i (call c r).streams) (meant c (λ i. status_of i r.streams))
        (λ i. call-meant c r i h) t

-- After any calls of a new registry, the status of a stream is the one last set for it, unless it
-- was removed since: the calls do to the registry what they do to the map.
pub calls-refine :
    (cs : List Call) (t : Option Stream)
    → status_of t (calls cs new).streams ≡ all_meant cs (λ i. none) t
unfolding status_of
calls-refine cs t = calls-from cs new t tt
