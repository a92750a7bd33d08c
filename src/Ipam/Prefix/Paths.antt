-- ===== src/Ipam/Prefix/Paths.antt =====
-- `Equals` compares the names on the way to the root.
use meridio.Base.{◌≡◌, ◌↔◌, true, some, String, List, [], ◌∷◌, arith, string_eq}
use meridio.Ipam.Prefix.{Prefix, top, below, equals}

-- The names from the prefix up to its root.
abbrev pub path : Prefix → List String
path (top name cidr) = name ∷ []
path (below name cidr parent) = name ∷ path parent

pub equals→path : (p q : Prefix) → equals p (some q) ≡ true → path p ≡ path q
unfolding equals
equals→path (top n c) (top m d) h = ground arith
equals→path (top n c) (below m d q) h = ground arith
equals→path (below n c p) (top m d) h = ground arith
equals→path (below n c p) (below m d q) h = ground (arith, equals→path p q)

pub path→equals : (p q : Prefix) → path p ≡ path q → equals p (some q) ≡ true
unfolding equals
path→equals (top n c) (top m d) h = ground arith
path→equals (top n c) (below m d (top _ _)) h = ground arith
path→equals (top n c) (below m d (below _ _ _)) h = ground arith
path→equals (below n c (top _ _)) (top m d) h = ground arith
path→equals (below n c (below _ _ _)) (top m d) h = ground arith
path→equals (below n c p) (below m d q) h = ground (arith, path→equals p q)

-- One prefix equals another exactly when the names from both up to their roots are the same,
-- whatever their ranges.
pub equals_iff : (p q : Prefix) → (equals p (some q) ≡ true) ↔ (path p ≡ path q)
equals_iff p q = (equals→path p q, path→equals p q)
