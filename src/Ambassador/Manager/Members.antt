-- ===== src/Ambassador/Manager/Members.antt =====
-- pkg/ambassador/tap/conduit/manager.go: AddStream and RemoveStream, and the same for them.
use meridio.Base.{
  ◌≡◌, ◌≢◌, refl, ap, sym, subst, ◌∙◌, Bool, true, false, ◌&&◌, none, some, String, string_eq,
  Bool-cases, Option-cases, none_some, some_unique, eq→≡, inl, inr, arith,
}
use meridio.Base.Dict.{
  lookup, insert, erase, is_some, lookup-insert_self, lookup-insert_ne, lookup-insert_cases,
  lookup-erase_ne, lookup-erase_cases,
}
use meridio.Nsp
use meridio.Ambassador.Messages.{Stream, full_name}
use meridio.Ambassador.Registry.{Registry, Status, set_status}
use meridio.Ambassador.Registry
use meridio.Ambassador.Manager.{
  StreamRetry, Goroutine, StreamManager, set_status_of, get_nsp_stream, open_retry, close_retry,
  start, add_stream, remove_stream,
}
use meridio.Ambassador.Manager.Opening.{IsOpening, with_at}
use meridio.Ambassador.Manager.Closing.{close_retry-IsOpening}
use meridio.Ambassador.Manager.Loop.{
  rewanted, open_retry-IsOpening, open_retry-status, open_retry-config,
}
use meridio.Ambassador.Manager.Bodies.{set_status_of-IsOpening}
use meridio.Ambassador.Manager.Managed.{is_wanted, IsManaged, settled}

module _ (n : String) (sr : StreamRetry) (sm : StreamManager) where
  start_stopped : sm.running ≡ false → start n sr sm ≡ set_status_of sr Status.unavailable sm
  unfolding start
  start_stopped e = rw (e, start) refl

  start_undefined :
      sm.running ≡ true
      → get_nsp_stream sr sm ≡ none
      → start n sr sm ≡ set_status_of sr Status.undefined sm
  unfolding start
  start_undefined e out = ground (arith, e, out)

  start_opened :
      (s : Nsp.Stream)
      → sm.running ≡ true
      → get_nsp_stream sr sm ≡ some s
      → start n sr sm ≡ open_retry n sr s (set_status_of sr Status.pending sm)
  unfolding start
  start_opened s e found = ground (arith, e, found)

  -- What an opening leaves wanted.
  wanted-open_retry :
      (s : Nsp.Stream) (m : String) → is_wanted (open_retry n sr s sm) m ≡ is_wanted sm m
  wanted-open_retry s m =
      ap (λ b. b && is_some (lookup m (open_retry n sr s sm).conduit_streams))
        (open_retry-status n sr s sm)
      ∙ ap (λ d. sm.running && is_some (lookup m d)) (open_retry-config n sr s sm)

abbrev added : Stream → StreamRetry
added strm = record { stream = strm; cancel_open = none }

module _ (strm : Stream) (sm : StreamManager) (h : IsManaged sm)
    (absent : lookup (full_name (some strm)) sm.streams ≡ none) where
  abbrev name : String
  name = full_name (some strm)

  abbrev held : StreamManager
  held = record sm { streams = insert name (added strm) sm.streams }

  held-IsOpening : IsOpening (with_at name false (is_wanted sm)) held
  held-IsOpening = record {
    keyed = λ k sr e. elim (lookup-insert_cases k name (added strm) sm.streams e) [
      | inl (same, e') ↦ ap (λ i. full_name (some i.stream)) e' ∙ sym same
      | inr (other, e') ↦ h.keyed k sr e'
    ];
    opening = λ k sr e. elim (lookup-insert_cases k name (added strm) sm.streams e) [
      | inl (same, e') ↦ ground (arith, ap StreamRetry.cancel_open e')
      | inr (other, e') ↦ ground (arith, h.opening k sr e')
    ];
    owned = λ g m live.
        (let (sr, e, o) = h.owned g m live in
          (
            sr,
            lookup-insert_ne (full_name (some g.stream)) name (added strm) sm.streams
                  (λ same. none_some (sym absent ∙ sym (ap (λ i. lookup i sm.streams) same) ∙ e))
                ∙ e,
            o,
          ));
    kept = λ k sr c e o. elim (lookup-insert_cases k name (added strm) sm.streams e) [
      | inl (same, e') ↦ none_some (sym (ap StreamRetry.cancel_open e') ∙ o)
      | inr (other, e') ↦ h.kept k sr c e' o
    ];
    fresh = h.fresh;
    distinct = λ m k sr1 sr2 c e1 e2 o1 o2.
        elim (lookup-insert_cases m name (added strm) sm.streams e1) [
          | inl (same, e') ↦ none_some (sym (ap StreamRetry.cancel_open e') ∙ o1)
          | inr (other1, e1') ↦ elim (lookup-insert_cases k name (added strm) sm.streams e2) [
            | inl (same, e') ↦ none_some (sym (ap StreamRetry.cancel_open e') ∙ o2)
            | inr (other2, e2') ↦ h.distinct m k sr1 sr2 c e1' e2' o1 o2
          ]
        ];
  }

  -- A stream that is not wanted may be without a goroutine.
  unwanted :
      is_wanted sm name ≡ false
      → (m : String) → with_at name false (is_wanted sm) m ≡ is_wanted sm m
  unwanted out m = ground (arith, eq→≡ m name)

  wanted :
      is_wanted sm name ≡ true
      → (m : String) → with_at name true (with_at name false (is_wanted sm)) m ≡ is_wanted sm m
  wanted found m = ground (arith, eq→≡ m name)

  with_status :
      (v : Status) → is_wanted sm name ≡ false → IsManaged (set_status_of (added strm) v held)
  with_status v out =
      settled (with_at name false (is_wanted sm)) (set_status_of (added strm) v held)
        (set_status_of-IsOpening (with_at name false (is_wanted sm)) (added strm) v held
          held-IsOpening)
        (unwanted out)

  started-IsManaged : IsManaged (start name (added strm) held)
  started-IsManaged = elim (Bool-cases sm.running) [
    | inl e ↦ elim (Option-cases (get_nsp_stream (added strm) held)) [
      | inl out ↦
          subst IsManaged (sym (start_undefined name (added strm) held e out))
            (with_status Status.undefined (ground (arith, ap (λ o. is_some o) out)))
      | inr (s, found) ↦ subst IsManaged (sym (start_opened name (added strm) held s e found)) (
          settled (with_at name true (with_at name false (is_wanted sm)))
            (open_retry name (added strm) s (set_status_of (added strm) Status.pending held))
            (open_retry-IsOpening (with_at name false (is_wanted sm)) name (added strm) s
              (set_status_of (added strm) Status.pending held)
              (set_status_of-IsOpening (with_at name false (is_wanted sm)) (added strm)
                Status.pending held held-IsOpening)
              (lookup-insert_self name (added strm) sm.streams))
            (λ m.
              wanted (ground (arith, e, ap (λ o. is_some o) found)) m
              ∙ sym (
                  wanted-open_retry name (added strm)
                    (set_status_of (added strm) Status.pending held) s m)))
    ]
    | inr e ↦
        subst IsManaged (sym (start_stopped name (added strm) held e))
          (with_status Status.unavailable (ground arith))
  ]

pub add_stream-IsManaged :
    (made : Bool) (strm : Stream) (sm : StreamManager)
    → IsManaged sm
    → IsManaged (add_stream made strm sm).0
unfolding add_stream
add_stream-IsManaged made strm sm h =
    elim (Option-cases (lookup (full_name (some strm)) sm.streams)) [
      | inl absent ↦ elim (Bool-cases made) [
        | inl e ↦ rw (absent, e, add_stream) (started-IsManaged strm sm h absent)
        | inr e ↦ rw (absent, e, add_stream) h
      ]
      | inr (sr, present) ↦ rw (present, add_stream) h
    ]

module _ (n : String) (sr : StreamRetry) (sm : StreamManager) (r : Registry) (h : IsManaged sm)
    (present : lookup n sm.streams ≡ some sr) where
  abbrev closed : StreamManager
  closed = close_retry n sr sm

  abbrev left : StreamManager
  left = record closed { registry = r; streams = erase n closed.streams }

  closed_idle :
      (g : Goroutine) (sr' : StreamRetry)
      → lookup n closed.streams ≡ some sr'
      → sr'.cancel_open ≢ some g.context
  unfolding close_retry
  closed_idle g sr' e o = none_some (
      ap StreamRetry.cancel_open
        (some_unique (lookup-insert_self n (record sr { cancel_open = none }) sm.streams) e)
      ∙ o)

  left-IsOpening : IsOpening (with_at n false (is_wanted sm)) left
  left-IsOpening =
      let k = close_retry-IsOpening (is_wanted sm) n sr sm h present in
      record {
        keyed = λ m sr' e. k.keyed m sr' (lookup-erase_cases m n closed.streams e).1;
        opening = λ m sr' e. k.opening m sr' (lookup-erase_cases m n closed.streams e).1;
        owned = λ g member live.
            (let (sr', e, o) = k.owned g member live in
              (
                sr',
                lookup-erase_ne (full_name (some g.stream)) n closed.streams (λ same.
                      closed_idle g sr' (ap (λ i. lookup i closed.streams) (sym same) ∙ e) o)
                    ∙ e,
                o,
              ));
        kept = λ m sr' c e o. k.kept m sr' c (lookup-erase_cases m n closed.streams e).1 o;
        fresh = k.fresh;
        distinct = λ m m' sr1 sr2 c e1 e2 o1 o2.
            k.distinct m m' sr1 sr2 c (lookup-erase_cases m n closed.streams e1).1
              (lookup-erase_cases m' n closed.streams e2).1 o1 o2;
      }

  still_wanted : (m : String) → m ≢ n → with_at n false (is_wanted sm) m ≡ is_wanted left m
  unfolding close_retry
  still_wanted m other = ground arith

  pub left-IsManaged : IsManaged left
  left-IsManaged =
      rewanted (with_at n false (is_wanted sm)) (is_wanted left) left
        (λ m sr' e. still_wanted m (lookup-erase_cases m n closed.streams e).0) left-IsOpening

pub remove_stream-IsManaged :
    (fails : Bool) (strm : Stream) (sm : StreamManager)
    → IsManaged sm
    → IsManaged (remove_stream fails strm sm).0
unfolding remove_stream
remove_stream-IsManaged fails strm sm h =
    elim (Option-cases (lookup (full_name (some strm)) sm.streams)) [
      | inl absent ↦ rw (absent, remove_stream) h
      | inr (sr, present) ↦
          rw (present, remove_stream)
            (left-IsManaged (full_name (some strm)) sr sm
              (Registry.remove (some strm) (close_retry (full_name (some strm)) sr sm).registry) h
              present)
    ]
