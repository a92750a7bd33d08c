-- ===== src/Ipam/Prefix.antt =====
-- pkg/ipam/prefix/prefix.go. A `types.Prefix` without a parent (nil) is `top`.
pub mod Paths
use meridio.Base.{
  ℕ, Bool, false, not, ◌&&◌, Option, none, some, String, List, [], ◌∷◌, ◌==◌, string_eq, keep_if,
}
use meridio.Base.Dict.{is_some}
use meridio.Net.{Cidr}
use meridio.Ipam.Ip.{overlapping_prefixes}

pub data Prefix : Type 0 where
  top : String → Cidr → Prefix
  below : String → Cidr → Prefix → Prefix

-- `New`
abbrev pub new : String → Cidr → Option Prefix → Prefix
new name cidr none = top name cidr
new name cidr (some parent) = below name cidr parent

abbrev pub get_name : Prefix → String
get_name (top name cidr) = name
get_name (below name cidr parent) = name

abbrev pub get_cidr : Prefix → Cidr
get_cidr (top name cidr) = cidr
get_cidr (below name cidr parent) = cidr

abbrev pub get_parent : Prefix → Option Prefix
get_parent (top name cidr) = none
get_parent (below name cidr parent) = some parent

-- `p.Equals(prefix)`: the names up to the root, and not the ranges. Without a parent of its own
-- `p.GetParent() == prefix.GetParent()` asks for none of the other.
unfoldable pub equals : Prefix → Option Prefix → Bool
equals p none = false
equals (top name cidr) (some prefix) = name == get_name prefix && not (is_some (get_parent prefix))
equals (below name cidr parent) (some prefix) =
    name == get_name prefix && equals parent (get_parent prefix)

-- `PrefixCollideWith`
unfoldable pub prefix_collide_with : Prefix → List Prefix → List Prefix
prefix_collide_with prefix =
    keep_if (λ child. overlapping_prefixes (get_cidr child) (get_cidr prefix))

-- `prefixSliceToStringSlice`
abbrev pub cidrs : List Prefix → List Cidr
cidrs [] = []
cidrs (p ∷ ps) = get_cidr p ∷ cidrs ps
