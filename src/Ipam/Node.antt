-- ===== src/Ipam/Node.antt =====
-- pkg/ipam/node/node.go, over any store. The embedded prefix is the field `prefix`; the store is
-- the parameter of the section, its state an argument of each method.
pub mod Blocked
pub mod Repeat
use meridio.Base.{ℕ, Option, none, some, String, List, [], ◌∷◌}
use meridio.Base.Result.{Result, ok, err}
use meridio.Net.{Cidr, parse_cidr}
use meridio.Ipam.Ip.{last_ip}
use meridio.Ipam.Prefix.{Prefix, get_cidr}
use meridio.Ipam.Storage.{Storage, StoreError}
use meridio.Ipam.Allocate.{AllocError, allocate_with_blocklist}

-- `types.PrefixLengths`
pub record PrefixLengths : Type 0 where
  pub conduit_length : ℕ
  pub node_length : ℕ
  pub child_length : ℕ

pub record Node : Type 0 where
  pub prefix : Prefix
  pub prefix_lengths : PrefixLengths

-- The errors of the methods of nodes, conduits and trenches, by the call that failed.
pub data IpamError : Type 0 where
  get_failed add_failed update_failed delete_failed parse_failed : IpamError
  allocate_failed : AllocError → IpamError

abbrev pub wrap {ℓ} : {A : Type ℓ} → Result AllocError A → Result IpamError A
wrap (ok a) = ok a
wrap (err e) = err (allocate_failed e)

-- `getBlocklist`: the first and the last address; `none` is the error of ParseCIDR.
unfoldable pub get_blocklist : Node → Option (List Cidr)
get_blocklist n = elim (parse_cidr (get_cidr n.prefix)) [
  | none ↦ none
  | some (_, ip_net) ↦ some (
      record { address = ip_net.ip; length = n.prefix_lengths.child_length }
      ∷ record { address = last_ip ip_net; length = n.prefix_lengths.child_length }
      ∷ [])
]

module _ (S : Storage) where
  -- `Store.Update`, and then the prefix that was found.
  abbrev pub refresh {ℓ} : {A : Type ℓ} → Prefix → A → S.State → S.State × Result IpamError A
  refresh p a s =
      let (s', e) = S.update p s in elim e [ none ↦ (s', ok a) | some _ ↦ (s', err update_failed) ]

  -- The branch of `Allocate` for a name that the store does not have.
  allocate_new : ℕ → Node → String → S.State → S.State × Result IpamError Prefix
  allocate_new fuel n name s = elim (get_blocklist n) [
    | none ↦ (s, err parse_failed)
    | some blocklist ↦
        let (s', r) =
          allocate_with_blocklist S fuel n.prefix name n.prefix_lengths.child_length blocklist s in
        (s', wrap r)
  ]

  -- `Allocate`
  unfoldable pub allocate : ℕ → Node → String → S.State → S.State × Result IpamError Prefix
  unfolding allocate_new
  allocate fuel n name s = elim (S.get name (some n.prefix) s) [
    | err _ ↦ (s, err get_failed)
    | ok none ↦ allocate_new fuel n name s
    | ok (some p) ↦ refresh p p s
  ]

  -- `Store.Get` and `Store.Delete` of what was found, missing or not: the body of `Release`,
  -- `RemoveNode` and `RemoveConduit`.
  unfoldable pub release_under : Prefix → String → S.State → S.State × Option IpamError
  release_under parent name s = elim (S.get name (some parent) s) [
    | err _ ↦ (s, some get_failed)
    | ok p ↦
        let (s', e) = S.delete p s in
        elim e [ none ↦ (s', none) | some _ ↦ (s', some delete_failed) ]
  ]

  -- `Release`
  unfoldable pub release : Node → String → S.State → S.State × Option IpamError
  release n name s = release_under n.prefix name s
