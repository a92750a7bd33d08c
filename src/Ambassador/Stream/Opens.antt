-- ===== src/Ambassador/Stream/Opens.antt =====
-- The opening of a stream that is not open keeps the discipline.
use meridio.Base.{
  ℕ, zero, suc, ◌≡◌, refl, ap, subst, inl, inr, Bool, true, false, ◌&&◌, Option, none, some, String,
  List, ◌==◌, string_eq, if◌then◌else◌, leb, length, contains, arith, Bool-cases, Option-cases,
}
use meridio.Base.Strconv.{itoa}
use meridio.Base.Tests.{eq→≡}
use meridio.Nsp.{Status, Target, status_eq}
use meridio.Ambassador.Messages
use meridio.Ambassador.Stream.{
  Stream, StreamError, new, Calls, ret, identifiers_in_use, is_positive, set_identifier, selector,
  enable, change_identifier, collision_check, open_rounds, open_with, first_identifier,
  open_disabled,
}
use meridio.Ambassador.Stream.Protocol
use meridio.Ambassador.Stream.Protocol.{Claim, free, holding, claimed, learn, entered}

pub and_left : (a b : Bool) → (a && b) ≡ true → a ≡ true
and_left a b h = ground arith

module _ (stream : Messages.Stream) (ips : ℕ → List String) where
  change_identifier-Keeps :
      (i : ℕ) (draws : List ℕ) (max : ℕ) (in_use : List String) (s : Stream)
      (again : Stream → Calls)
      → Protocol.IsReady stream ips i s
      → ((s' : Stream)
          → Protocol.IsReady stream ips i s'
          → Protocol.Keeps stream ips i (again s') (holding (itoa s'.identifier)))
      → Protocol.Keeps stream ips i (change_identifier draws max in_use s again) free
  unfolding change_identifier
  change_identifier-Keeps i draws max in_use s again r next =
      elim (Option-cases (set_identifier draws in_use max s.identifier)) [
        | inl e ↦ rw (e, change_identifier) tt
        | inr (id, e) ↦
            let s' = record s { identifier = id } in
            let r' : Protocol.IsReady stream ips i s' = record {
              of_stream = r.of_stream;
              of_ips = r.of_ips;
              of_status = r.of_status;
            } in
            rw (e, change_identifier)
              (inl (
                itoa id,
                Protocol.get_target_lem stream ips r',
                Protocol.entered-Keeps stream ips i (itoa id) (again s')
                    (ret s' (some StreamError.register_failed)) (next s' r')
                    (Protocol.IsReady-Fits stream ips r' free),
              ))
      ]

  enable-Keeps :
      (i : ℕ) (s : Stream) (κ : Claim)
      → Protocol.IsReady stream ips i s
      → κ ≡ claimed (itoa s.identifier)
      → Protocol.Keeps stream ips i (enable s) κ
  enable-Keeps i s κ r e =
      let s' = record s { target_status = Status.enabled } in
      let fits : Protocol.Fits stream ips i (claimed (itoa s.identifier)) s' = record {
        of_stream = r.of_stream;
        of_ips = λ n e. r.of_ips;
        of_claim = λ e. refl;
      } in
      inr (itoa s.identifier, Protocol.entry_lem stream ips i s' r.of_stream r.of_ips, e, λ b. fits)

  known_alone :
      (i : ℕ) (s : Stream) (ts : List Target)
      → Protocol.IsReady stream ips i s
      → contains (identifiers_in_use s.ips ts) (itoa s.identifier) ≡ false
      → learn (ips i) (holding (itoa s.identifier)) (some ts) ≡ claimed (itoa s.identifier)
  known_alone i s ts r alone =
      let id = itoa s.identifier in
      let same = subst (λ l. contains (identifiers_in_use l ts) id ≡ false) r.of_ips alone in
      ap (λ b. if b then holding id else claimed id) same

  pub selector_lem : (s : Stream) → s.stream ≡ stream → selector s ≡ selector (new stream)
  selector_lem s e = λ j. selector (new (e j))

  collision_check-Keeps :
      (i : ℕ) (draws : List ℕ) (max : ℕ) (s : Stream) (again : Stream → Calls)
      → Protocol.IsReady stream ips i s
      → ((s' : Stream)
          → Protocol.IsReady stream ips i s'
          → Protocol.Keeps stream ips i (again s') (holding (itoa s'.identifier)))
      → (o : Option (List Target))
      → Protocol.Keeps stream ips i
          (collision_check draws max s again o)
          (learn (ips i) (holding (itoa s.identifier)) o)
  unfolding collision_check
  collision_check-Keeps i draws max s again r next none =
      Protocol.IsReady-Fits stream ips r (holding (itoa s.identifier))
  collision_check-Keeps i draws max s again r next (some ts) =
      let id = itoa s.identifier in
      let in_use = identifiers_in_use s.ips ts in
      let κ = learn (ips i) (holding id) (some ts) in
      let mine = Protocol.get_target_lem stream ips r in
      elim (Bool-cases (leb max (length in_use))) [
        | inl full ↦
            rw full (id, Status.disabled, mine, λ b. Protocol.IsReady-Fits stream ips r free)
        | inr room ↦ elim (Bool-cases (contains in_use id)) [
          | inl taken ↦
              rw (room, taken)
                (
                  id,
                  Status.disabled,
                  mine,
                  λ b. change_identifier-Keeps i draws max in_use s again r next,
                )
          | inr alone ↦
              let own : κ ≡ claimed id = known_alone i s ts r alone in
              rw (room, alone) (enable-Keeps i s κ r own)
        ]
      ]

  open_rounds-Keeps :
      (i : ℕ) (draws : ℕ → List ℕ) (rounds max : ℕ) (s : Stream)
      → Protocol.IsReady stream ips i s
      → Protocol.Keeps stream ips i (open_rounds draws rounds max s) (holding (itoa s.identifier))
  unfolding open_rounds
  open_rounds-Keeps i draws zero max s r =
      Protocol.IsReady-Fits stream ips r (holding (itoa s.identifier))
  open_rounds-Keeps i draws (suc rounds) max s r = (
    selector_lem s r.of_stream,
    collision_check-Keeps i (draws rounds) max s (open_rounds draws rounds max) r
        (λ s' r'. open_rounds-Keeps i draws rounds max s' r'),
  )

  open_with-Keeps :
      (i : ℕ) (draws : ℕ → List ℕ) (rounds max : ℕ) (s : Stream) (κ : Claim)
      → Protocol.IsReady stream ips i s
      → Protocol.Keeps stream ips i (open_with draws rounds max s) κ
  open_with-Keeps i draws rounds max s κ r = inl (
    itoa s.identifier,
    Protocol.get_target_lem stream ips r,
    Protocol.entered-Keeps stream ips i (itoa s.identifier) (open_rounds draws rounds max s)
        (ret s (some StreamError.register_failed)) (open_rounds-Keeps i draws rounds max s r)
        (Protocol.IsReady-Fits stream ips r free),
  )

  first_identifier-Keeps :
      (i : ℕ) (draws : ℕ → List ℕ) (rounds max : ℕ) (s : Stream) (κ : Claim)
      → Protocol.IsReady stream ips i s
      → (o : Option (List Target))
      → Protocol.Keeps stream ips i (first_identifier draws rounds max s o) κ
  unfolding first_identifier
  first_identifier-Keeps i draws rounds max s κ r none = Protocol.IsReady-Fits stream ips r κ
  first_identifier-Keeps i draws rounds max s κ r (some ts) =
      elim (Bool-cases (leb max (length (identifiers_in_use s.ips ts)))) [
        | inl full ↦ rw full (Protocol.IsReady-Fits stream ips r κ)
        | inr room ↦ elim (Bool-cases (is_positive s.identifier)) [
          | inl chosen ↦ rw (room, chosen) (open_with-Keeps i draws rounds max s κ r)
          | inr fresh ↦
              elim (Option-cases
                (set_identifier (draws rounds) (identifiers_in_use s.ips ts) max s.identifier)) [
                  | inl e ↦ rw (room, fresh, e) tt
                  | inr (id, e) ↦
                      rw (room, fresh, e)
                        (open_with-Keeps i draws rounds max (record s { identifier = id }) κ
                          (record {
                            of_stream = r.of_stream;
                            of_ips = r.of_ips;
                            of_status = r.of_status;
                          }))
                ]
        ]
      ]

  pub open_disabled-Keeps :
      (i : ℕ) (draws : ℕ → List ℕ) (rounds max : ℕ) (s : Stream) (κ : Claim)
      → Protocol.Fits stream ips i κ s
      → s.ips ≡ ips i
      → Protocol.Keeps stream ips i (open_disabled draws rounds max s) κ
  unfolding open_disabled
  open_disabled-Keeps i draws rounds max s κ f ei =
      elim (Bool-cases (s.target_status == Status.disabled)) [
        | inl e ↦
            let r : Protocol.IsReady stream ips i s = record {
              of_stream = f.of_stream;
              of_ips = ei;
              of_status = eq→≡ s.target_status Status.disabled e;
            } in
            rw e (
              selector_lem s f.of_stream,
              λ o. first_identifier-Keeps i draws rounds max s (learn (ips i) κ o) r o,
            )
        | inr e ↦ rw e f
      ]
