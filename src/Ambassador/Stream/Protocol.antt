-- ===== src/Ambassador/Stream/Protocol.antt =====
-- What a target may call when: the discipline that its methods keep, whatever the answers. It writes
-- an entry as enabled only under an identifier that it has claimed: it has read a list in which
-- nobody else has the identifier after it had entered its own.
use meridio.Base.{
  ℕ, ◌≡◌, ap, ◌∙◌, ◌⊎◌, Bool, true, false, Option, none, some, String, List, [], ◌∷◌, string_eq,
  if◌then◌else◌, contains,
}
use meridio.Base.Int.{pos}
use meridio.Base.Strconv.{itoa}
use meridio.Nsp.{Status, TargetType, Target, status_eq}
use meridio.Ambassador.Messages
use meridio.Ambassador.Stream.{
  Stream, new, Calls, ret, drawing, register, unregister, get_targets, identifiers_in_use, selector,
  get_target,
}
use meridio.Ambassador.Stream.Exchange.{entry_of}

-- What a target knows of its entry: nothing, that it is there as disabled with an identifier, or
-- that it is there with an identifier that is its own.
pub data Claim : Type 0 where
  free : Claim
  holding claimed : String → Claim

-- What it knows after a list of the targets.
abbrev pub learn : List String → Claim → Option (List Target) → Claim
learn ips free r = free
learn ips (claimed x) r = claimed x
learn ips (holding x) none = holding x
learn ips (holding x) (some ts) =
    if contains (identifiers_in_use ips ts) x then holding x else claimed x

abbrev pub entered : Bool → String → Claim
entered true x = holding x
entered false x = free

module _ (stream : Messages.Stream) (ips : ℕ → List String) where
  -- A target between two methods.
  pub record Fits (i : ℕ) (κ : Claim) (s : Stream) : Type 0 where
    pub of_stream : s.stream ≡ stream
    pub of_ips : (n : ℕ) → s.identifier ≡ pos n → s.ips ≡ ips i
    pub of_claim : s.target_status ≡ Status.enabled → κ ≡ claimed (itoa s.identifier)

  abbrev pub Keeps : ℕ → Calls → Claim → Type 0
  Keeps i (ret s r) κ = Fits i κ s
  Keeps i (drawing s) κ = Unit
  Keeps i (register t k) κ =
      ((x : String) × (t ≡ entry_of stream ips i x Status.disabled)
        × ((b : Bool) → Keeps i (k b) (entered b x)))
      ⊎ ((x : String) × (t ≡ entry_of stream ips i x Status.enabled)
          × (κ ≡ claimed x)
          × ((b : Bool) → Keeps i (k b) (claimed x)))
  Keeps i (unregister t k) κ =
      (x : String) × (st : Status) × (t ≡ entry_of stream ips i x st)
      × ((b : Bool) → Keeps i (k b) free)
  Keeps i (get_targets t k) κ =
      (t ≡ selector (new stream)) × ((r : Option (List Target)) → Keeps i (k r) (learn (ips i) κ r))

  -- A target in a method, with its stream not open.
  pub record IsReady (i : ℕ) (s : Stream) : Type 0 where
    pub of_stream : s.stream ≡ stream
    pub of_ips : s.ips ≡ ips i
    pub of_status : s.target_status ≡ Status.disabled

  pub IsReady-Fits : {i : ℕ} {s : Stream} → IsReady i s → (κ : Claim) → Fits i κ s
  IsReady-Fits r κ = record {
    of_stream = r.of_stream;
    of_ips = λ n e. r.of_ips;
    of_claim = λ e. cc (e, r.of_status);
  }

  pub entry_lem :
      (i : ℕ) (s : Stream)
      → s.stream ≡ stream
      → s.ips ≡ ips i
      → get_target s ≡ entry_of stream ips i (itoa s.identifier) s.target_status
  entry_lem i s es ei = λ j. record {
    ips = ei j;
    context = ("identifier", itoa s.identifier) ∷ [];
    status = s.target_status;
    kind = TargetType.default;
    stream = some (Messages.to_nsp (some (es j)));
  }

  pub get_target_lem :
      {i : ℕ} {s : Stream}
      → IsReady i s
      → get_target s ≡ entry_of stream ips i (itoa s.identifier) Status.disabled
  get_target_lem {i} {s} r =
      entry_lem i s r.of_stream r.of_ips
      ∙ ap (entry_of stream ips i (itoa s.identifier)) r.of_status

  -- After a registration as disabled, and after one that leaves the claim.
  pub entered-Keeps :
      (i : ℕ) (x : String) (p q : Calls)
      → Keeps i p (holding x)
      → Keeps i q free
      → (b : Bool) → Keeps i (if b then p else q) (entered b x)
  entered-Keeps i x p q hp hq true = hp
  entered-Keeps i x p q hp hq false = hq

  pub either-Keeps :
      (i : ℕ) (κ : Claim) (p q : Calls)
      → Keeps i p κ
      → Keeps i q κ
      → (b : Bool) → Keeps i (if b then p else q) κ
  either-Keeps i κ p q hp hq true = hp
  either-Keeps i κ p q hp hq false = hq
