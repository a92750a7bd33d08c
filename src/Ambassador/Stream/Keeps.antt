-- ===== src/Ambassador/Stream/Keeps.antt =====
-- `Close`, the refresh and `Open` as a whole keep the discipline.
use meridio.Base.{
  ℕ, ◌≡◌, refl, ap, subst, ◌∙◌, inl, inr, ◌&&◌, Option, none, some, String, List, [], ◌∷◌, ◌==◌,
  string_eq, Bool-cases,
}
use meridio.Base.Int.{negsuc, ℤ-cases}
use meridio.Base.Strconv.{itoa}
use meridio.Base.Tests.{eq→≡}
use meridio.Nsp.{Status, Target, status_eq}
use meridio.Ambassador.Messages
use meridio.Ambassador.Stream.{
  Stream, StreamError, ret, get_targets, open_stream, close_stream, in_range, selector, refresh,
  found_enabled, verify_refresh,
}
use meridio.Ambassador.Stream.Exchange.{entry_of}
use meridio.Ambassador.Stream.Protocol
use meridio.Ambassador.Stream.Protocol.{Claim, free, holding, claimed, learn, entered}
use meridio.Ambassador.Stream.Opens.{and_left, selector_lem, open_disabled-Keeps}

module _ (stream : Messages.Stream) (ips : ℕ → List String) where
  closed-Fits :
      (s : Stream) {i : ℕ} {κ : Claim}
      → Protocol.Fits stream ips i κ s
      → (κ' : Claim)
      → Protocol.Fits stream ips i κ'
          (record s { identifier = negsuc 0; target_status = Status.disabled })
  closed-Fits s f κ' = record { of_stream = f.of_stream; of_ips = λ n e. cc; of_claim = λ e. cc }

  pub close_stream-Keeps :
      (i : ℕ) (s : Stream) (κ : Claim)
      → Protocol.Fits stream ips i κ s
      → Protocol.Keeps stream ips i (close_stream s) κ
  unfolding close_stream
  close_stream-Keeps i s κ f = elim (ℤ-cases s.identifier) [
    | inl (n, e) ↦
        rw (e, close_stream)
          (
            itoa s.identifier,
            s.target_status,
            Protocol.entry_lem stream ips i s f.of_stream (f.of_ips n e),
            λ b. closed-Fits s f free,
          )
    | inr (n, e) ↦ rw (e, close_stream) (closed-Fits s f κ)
  ]

  verify_refresh-Keeps :
      (i : ℕ) (draws : ℕ → List ℕ) (rounds max : ℕ) (s : Stream) (κ : Claim)
      → Protocol.Fits stream ips i κ s
      → s.ips ≡ ips i
      → (o : Option (List Target))
      → Protocol.Keeps stream ips i (verify_refresh draws rounds max s o) κ
  unfolding verify_refresh
  verify_refresh-Keeps i draws rounds max s κ f ei none = f
  verify_refresh-Keeps i draws rounds max s κ f ei (some ts) =
      elim (Bool-cases (found_enabled s.ips ts)) [
        | inl e ↦ rw e f
        | inr e ↦
            let s' = record s { target_status = Status.disabled } in
            rw e (
              open_disabled-Keeps stream ips i draws rounds max s' κ
                (record { of_stream = f.of_stream; of_ips = λ n e. ei; of_claim = λ e. cc }) ei)
      ]

  refresh-Keeps :
      (i : ℕ) (draws : ℕ → List ℕ) (rounds max : ℕ) (s : Stream) (κ : Claim)
      → Protocol.Fits stream ips i κ s
      → s.ips ≡ ips i
      → s.target_status ≡ Status.enabled
      → Protocol.Keeps stream ips i (refresh draws rounds max s) κ
  refresh-Keeps i draws rounds max s κ f ei enabled =
      let id = itoa s.identifier in
      let own = f.of_claim enabled in
      let f' : Protocol.Fits stream ips i (claimed id) s =
        subst (λ c. Protocol.Fits stream ips i c s) own f in
      inr (
        id,
        Protocol.entry_lem stream ips i s f.of_stream ei ∙ ap (entry_of stream ips i id) enabled,
        own,
        Protocol.either-Keeps stream ips i (claimed id)
            (get_targets (selector s) (verify_refresh draws rounds max s))
            (ret s (some StreamError.register_failed))
            (
              selector_lem stream ips s f.of_stream,
              verify_refresh-Keeps i draws rounds max s (claimed id) f' ei,
            )
            f',
      )

  opened-Keeps :
      (i : ℕ) (draws : ℕ → List ℕ) (rounds max : ℕ) (l : List String) (s : Stream) (κ : Claim)
      → l ≡ ips i
      → Protocol.Fits stream ips i κ s
      → Protocol.Keeps stream ips i (open_stream draws rounds max l s) κ
  unfolding open_stream
  opened-Keeps i draws rounds max [] s κ e f = record {
    of_stream = f.of_stream;
    of_ips = λ n p. e;
    of_claim = f.of_claim;
  }
  opened-Keeps i draws rounds max (ip ∷ l) s κ e f =
      let s' = record s { ips = ip ∷ l } in
      let f' : Protocol.Fits stream ips i κ s' = record {
        of_stream = f.of_stream;
        of_ips = λ n p. e;
        of_claim = f.of_claim;
      } in
      elim (Bool-cases (s.target_status == Status.enabled && in_range max s.identifier)) [
        | inl b ↦
            let enabled = eq→≡ s.target_status Status.enabled (and_left _ _ b) in
            rw b (refresh-Keeps i draws rounds max s' κ f' e enabled)
        | inr b ↦ rw b (open_disabled-Keeps stream ips i draws rounds max s' κ f' e)
      ]

  pub open_stream-Keeps :
      (i : ℕ) (draws : ℕ → List ℕ) (rounds max : ℕ) (s : Stream) (κ : Claim)
      → Protocol.Fits stream ips i κ s
      → Protocol.Keeps stream ips i (open_stream draws rounds max (ips i) s) κ
  open_stream-Keeps i draws rounds max s κ f = opened-Keeps i draws rounds max (ips i) s κ refl f
