-- ===== src/Ipam/Memory/Lookup.antt =====
-- `Get` after `Add`.
use meridio.Base.{◌≡◌, refl, true, none, some, String, List, [], ◌∷◌, ◌++◌, arith}
use meridio.Net.{Cidr}
use meridio.Ipam.Prefix.{Prefix, below, equals}
use meridio.Ipam.Prefix.Paths.{path→equals}
use meridio.Ipam.Memory.{get_loop, get}

get_loop-append :
    (t p : Prefix) (s : List Prefix)
    → get_loop t s ≡ none
    → equals t (some p) ≡ true
    → get_loop t (s ++ p ∷ []) ≡ some p
unfolding get_loop
get_loop-append t p [] miss same = rw same
get_loop-append t p (q ∷ s) miss same = ground (arith, get_loop-append t p s)

-- A name that was missing is found once its prefix is appended.
pub get-append :
    (name : String) (parent : Prefix) (c : Cidr) (s : List Prefix)
    → get name (some parent) s ≡ none
    → get name (some parent) (s ++ below name c parent ∷ []) ≡ some (below name c parent)
unfolding get
get-append name parent c s miss =
    get_loop-append _ (below name c parent) s miss (path→equals _ (below name c parent) refl)
