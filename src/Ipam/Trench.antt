-- ===== src/Ipam/Trench.antt =====
-- pkg/ipam/trench/trench.go, over any store.
use meridio.Base.{ℕ, Option, none, some, String}
use meridio.Base.Result.{Result, ok, err}
use meridio.Ipam.Prefix.{Prefix, get_name}
use meridio.Ipam.Storage.{Storage}
use meridio.Ipam.Allocate
use meridio.Ipam.Node.{PrefixLengths, IpamError, get_failed, add_failed, wrap, release_under}
use meridio.Ipam.Conduit.{Conduit}

pub record Trench : Type 0 where
  pub prefix : Prefix
  pub prefix_lengths : PrefixLengths

abbrev pub to_conduit : Trench → Prefix → Conduit
to_conduit t p = record { prefix = p; prefix_lengths = t.prefix_lengths }

abbrev pub to_conduit_result : Trench → Result IpamError Prefix → Result IpamError Conduit
to_conduit_result t (ok p) = ok (to_conduit t p)
to_conduit_result t (err e) = err e

module _ (S : Storage) where
  -- `New`: the prefix is registered unless the store has its name already.
  unfoldable pub new : Prefix → PrefixLengths → S.State → S.State × Result IpamError Trench
  new prefix lengths s = elim (S.get (get_name prefix) none s) [
    | err _ ↦ (s, err get_failed)
    | ok (some p) ↦ (s, ok (record { prefix = p; prefix_lengths = lengths }))
    | ok none ↦
        let (s', e) = S.add prefix s in
        elim e [
          | none ↦ (s', ok (record { prefix = prefix; prefix_lengths = lengths }))
          | some _ ↦ (s', err add_failed)
        ]
  ]

  -- `GetConduit`
  unfoldable pub get_conduit : Trench → String → S.State → Result IpamError (Option Conduit)
  get_conduit t name s = elim (S.get name (some t.prefix) s) [
    | err _ ↦ err get_failed
    | ok none ↦ ok none
    | ok (some p) ↦ ok (some (to_conduit t p))
  ]

  -- `AddConduit`
  unfoldable pub add_conduit : ℕ → Trench → String → S.State → S.State × Result IpamError Conduit
  unfolding get_conduit
  add_conduit fuel t name s = elim (get_conduit t name s) [
    | err e ↦ (s, err e)
    | ok (some c) ↦ (s, ok c)
    | ok none ↦
        let (s', r) = Allocate.allocate S fuel t.prefix name t.prefix_lengths.conduit_length s in
        (s', to_conduit_result t (wrap r))
  ]

  -- `RemoveConduit`
  unfoldable pub remove_conduit : Trench → String → S.State → S.State × Option IpamError
  remove_conduit t name s = release_under S t.prefix name s
