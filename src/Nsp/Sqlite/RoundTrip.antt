-- ===== src/Nsp/Sqlite/RoundTrip.antt =====
-- What is read back from the rows of targets.
use Prim.Native.Char.{Char, code}
use text.Mathlib.TextEquality.{Char-path}
use Prim.Native.String
use text.Mathlib.TextLemmas.{nil-append, cons-append}
use meridio.Base.{
  ◌≡◌, ◌≢◌, refl, sym, ap, ◌∙◌, false, inl, inr, Option, none, some, String, List, [], ◌∷◌, ◌==◌,
  nat_eq, All, arith, Bool-cases,
}
use meridio.Base.Tests.{eq→≡}
use meridio.Base.Dict.{Dict}
use meridio.Base.Strconv.{itoa}
use meridio.Nsp.{Trench, Conduit, Stream, Target}
use meridio.Nsp.Sqlite.{
  serialize_ips, deserialize_ips, push_first, get_target_id, serialize_type, stream_id,
  stream_of_row, stream_to_row, to_row, of_row, joined,
}

abbrev semicolon : Char
semicolon = ";"

-- A text without the separator.
abbrev pub NoSeparator : String → Type 0
NoSeparator String.[] = Unit
NoSeparator (String.◌∷◌ c s) = (code c ≢ b';') × NoSeparator s

test_plain : (c : Char) → code c ≢ b';' → (code c == b';') ≡ false
test_plain c h = ground arith

serialize-push_first :
    (c : Char) (ps : List String)
    → ps ≢ []
    → serialize_ips (push_first (λ p. String.◌∷◌ c p) ps) ≡ String.◌∷◌ c (serialize_ips ps)
unfolding serialize_ips
serialize-push_first c [] ne = absurd (ne refl)
serialize-push_first c (p ∷ []) ne = refl
serialize-push_first c (p ∷ q ∷ ps) ne = cons-append c p _

push_first-ne-nil : (f : String → String) (ps : List String) → push_first f ps ≢ []
push_first-ne-nil f [] h = cc
push_first-ne-nil f (p ∷ ps) h = cc

deserialize-ne-nil : (s : String) → deserialize_ips s ≢ []
unfolding deserialize_ips
deserialize-ne-nil String.[] = λ e. cc
deserialize-ne-nil (String.◌∷◌ c s) = elim (Bool-cases (code c == b';')) [
  | inl e ↦ rw e (λ h. cc)
  | inr e ↦ rw e (push_first-ne-nil (λ p. String.◌∷◌ c p) (deserialize_ips s))
]

serialize-empty_first :
    (c : Char) (ps : List String)
    → ps ≢ []
    → code c ≡ b';'
    → serialize_ips ("" ∷ ps) ≡ String.◌∷◌ c (serialize_ips ps)
unfolding serialize_ips
serialize-empty_first c [] ne h = absurd (ne refl)
serialize-empty_first c (p ∷ ps) ne h =
    let r = serialize_ips (p ∷ ps) in
    nil-append (String.◌++◌ ";" r)
    ∙ cons-append semicolon "" r
    ∙ ap (λ t. String.◌∷◌ semicolon t) (nil-append r)
    ∙ ap (λ d. String.◌∷◌ d r) (sym (Char-path c semicolon h))

-- Joining undoes splitting.
serialize-deserialize : (s : String) → serialize_ips (deserialize_ips s) ≡ s
unfolding deserialize_ips
serialize-deserialize String.[] = unfold serialize_ips in refl
serialize-deserialize (String.◌∷◌ c s) = elim (Bool-cases (code c == b';')) [
  | inl e ↦ rw e (
      serialize-empty_first c (deserialize_ips s) (deserialize-ne-nil s) (eq→≡ (code c) b';' e)
      ∙ ap (λ r. String.◌∷◌ c r) (serialize-deserialize s))
  | inr e ↦ rw e (
      serialize-push_first c (deserialize_ips s) (deserialize-ne-nil s)
      ∙ ap (λ r. String.◌∷◌ c r) (serialize-deserialize s))
]

deserialize-joined :
    (p r : String)
    → NoSeparator p
    → deserialize_ips (String.◌++◌ p (String.◌++◌ ";" r)) ≡ p ∷ deserialize_ips r
unfolding deserialize_ips nat_eq
deserialize-joined String.[] r h =
    rw (nil-append (String.◌++◌ ";" r), cons-append semicolon "" r, nil-append r) refl
deserialize-joined (String.◌∷◌ c p) r h =
    rw (cons-append c p (String.◌++◌ ";" r), test_plain c h.0, deserialize-joined p r h.1) refl

deserialize_plain : (p : String) → NoSeparator p → deserialize_ips p ≡ p ∷ []
unfolding deserialize_ips
deserialize_plain String.[] h = refl
deserialize_plain (String.◌∷◌ c p) h = rw (test_plain c h.0, deserialize_plain p h.1) refl

-- Splitting undoes joining.
deserialize-serialize :
    (ips : List String) → ips ≢ [] → All NoSeparator ips → deserialize_ips (serialize_ips ips) ≡ ips
unfolding serialize_ips
deserialize-serialize [] ne h = absurd (ne refl)
deserialize-serialize (ip ∷ []) ne h = deserialize_plain ip h.0
deserialize-serialize (ip ∷ ip2 ∷ ips) ne h =
    deserialize-joined ip (serialize_ips (ip2 ∷ ips)) h.0
    ∙ ap (λ r. ip ∷ r) (deserialize-serialize (ip2 ∷ ips) (λ e. cc) h.1)

trench_id-row :
    (name conduit : String) (t : Option Trench)
    → stream_id (
        some (
          stream_of_row (
            stream_to_row (
              some
                (record { name = name; conduit = some (record { name = conduit; trench = t }) })))))
      ≡ stream_id
          (some (record { name = name; conduit = some (record { name = conduit; trench = t }) }))
trench_id-row name conduit none = refl
trench_id-row name conduit (some t) = refl

conduit_id-row :
    (name : String) (c : Option Conduit)
    → stream_id (some (stream_of_row (stream_to_row (some (record { name = name; conduit = c })))))
      ≡ stream_id (some (record { name = name; conduit = c }))
conduit_id-row name none = refl
conduit_id-row name (some c) = trench_id-row name c.name c.trench

stream_id-row :
    (s : Option Stream) → stream_id (some (stream_of_row (stream_to_row s))) ≡ stream_id s
stream_id-row none = refl
stream_id-row (some s) = conduit_id-row s.name s.conduit

module _ (marshal : Dict String String → String) (unmarshal : String → Dict String String) where
  -- The identifier of a target that is read back is that of the target stored, whatever its
  -- addresses and its stream.
  pub get_target_id-of_row :
      (t : Target)
      → get_target_id (of_row marshal unmarshal (to_row marshal unmarshal t)) ≡ get_target_id t
  unfolding get_target_id
  get_target_id-of_row t = λ i.
      joined (serialize-deserialize (serialize_ips t.ips) i) "-"
        (joined (itoa (serialize_type t.kind)) "-" (stream_id-row t.stream i))

  -- A target with a stream of a conduit of a trench and with addresses, none of which holds the
  -- separator, is read back as it was stored, when the context is read back from its JSON.
  pub of_row-to_row :
      (t : Target) (stream conduit trench : String)
      → unmarshal (marshal t.context) ≡ t.context
      → t.ips ≢ []
      → All NoSeparator t.ips
      → t.stream
        ≡ some (record {
          name = stream;
          conduit = some (record { name = conduit; trench = some (record { name = trench }) });
        })
      → of_row marshal unmarshal (to_row marshal unmarshal t) ≡ t
  of_row-to_row t stream conduit trench json ne plain complete =
      let ips = deserialize-serialize t.ips ne plain in
      let read : some (stream_of_row (stream_to_row t.stream)) ≡ t.stream = rw complete refl in
      λ i. record {
        ips = ips i;
        context = json i;
        status = t.status;
        kind = t.kind;
        stream = read i;
      }
