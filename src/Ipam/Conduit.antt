-- ===== src/Ipam/Conduit.antt =====
-- pkg/ipam/conduit/conduit.go, over any store.
use meridio.Base.{ℕ, Option, none, some, String}
use meridio.Base.Result.{Result, ok, err}
use meridio.Ipam.Prefix.{Prefix}
use meridio.Ipam.Storage.{Storage}
use meridio.Ipam.Allocate
use meridio.Ipam.Node.{PrefixLengths, Node, IpamError, get_failed, wrap, refresh, release_under}

pub record Conduit : Type 0 where
  pub prefix : Prefix
  pub prefix_lengths : PrefixLengths

abbrev pub to_node : Conduit → Result IpamError Prefix → Result IpamError Node
to_node c (ok p) = ok (record { prefix = p; prefix_lengths = c.prefix_lengths })
to_node c (err e) = err e

module _ (S : Storage) where
  -- `addNode`
  unfoldable pub add_node : ℕ → Conduit → String → S.State → S.State × Result IpamError Node
  add_node fuel c name s =
      let (s', r) = Allocate.allocate S fuel c.prefix name c.prefix_lengths.node_length s in
      (s', to_node c (wrap r))

  -- `GetNode`
  unfoldable pub get_node : ℕ → Conduit → String → S.State → S.State × Result IpamError Node
  unfolding add_node
  get_node fuel c name s = elim (S.get name (some c.prefix) s) [
    | err _ ↦ (s, err get_failed)
    | ok none ↦ add_node fuel c name s
    | ok (some p) ↦ refresh S p (record { prefix = p; prefix_lengths = c.prefix_lengths }) s
  ]

  -- `RemoveNode`
  unfoldable pub remove_node : Conduit → String → S.State → S.State × Option IpamError
  remove_node c name s = release_under S c.prefix name s
