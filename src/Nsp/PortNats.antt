-- ===== src/Nsp/PortNats.antt =====
-- api/nsp/v1/diff.go: `PortNatDiff`, and which port NATs it takes for the same.
use Prim.Native.String
use meridio.Base.{
  ℕ, ◌≡◌, refl, ◌∙◌, Bool, false, not, ◌&&◌, ◌||◌, List, [], ◌∷◌, String, ◌==◌, string_eq, nat_eq,
  if◌then◌else◌, contains, keep_if, map, arith,
}
use meridio.Base.Int.{pos}
use meridio.Base.Strconv.{itoa, itoa-dash}
use meridio.Base.Dict.{Dict, is_some, lookup, insert, lookup-insert, lookup-nil}
use meridio.Nsp.{Vip}

pub record PortNat : Type 0 where
  pub port : ℕ
  pub target_port : ℕ
  pub vips : List Vip
  pub protocol : String

-- `GetNatName`: "%d-%d-%s"
unfoldable pub get_nat_name : PortNat → String
get_nat_name pn =
    String.◌++◌ (itoa (pos pn.port))
      (String.◌++◌ "-" (String.◌++◌ (itoa (pos pn.target_port)) (String.◌++◌ "-" pn.protocol)))

-- The loop over set2.
pub by_name : List PortNat → Dict String PortNat → Dict String PortNat
by_name [] set2_map = set2_map
by_name (pn ∷ pns) set2_map = by_name pns (insert (get_nat_name pn) pn set2_map)

-- The loop over set1.
pub missing : Dict String PortNat → List PortNat → List PortNat
missing set2_map [] = []
missing set2_map (pn ∷ pns) =
    let rest = missing set2_map pns in
    if is_some (lookup (get_nat_name pn) set2_map) then rest else pn ∷ rest

-- `PortNatDiff`
unfoldable pub port_nat_diff : List PortNat → List PortNat → List PortNat
unfolding by_name missing
port_nat_diff set1 set2 = missing (by_name set2 []) set1

is_some-by_name :
    (n : String) (pns : List PortNat) (d : Dict String PortNat)
    → is_some (lookup n (by_name pns d))
      ≡ (contains (map get_nat_name pns) n || is_some (lookup n d))
unfolding by_name
is_some-by_name n [] d = refl
is_some-by_name n (pn ∷ pns) d = ground (
  arith,
  is_some-by_name n pns (insert (get_nat_name pn) pn d),
  lookup-insert n (get_nat_name pn) pn d,
)

missing_lem :
    (set2 set1 : List PortNat)
    → missing (by_name set2 []) set1
      ≡ keep_if (λ pn. not (contains (map get_nat_name set2) (get_nat_name pn))) set1
unfolding missing
missing_lem set2 [] = refl
missing_lem set2 (pn ∷ pns) = ground (
  arith,
  missing_lem set2 pns,
  is_some-by_name (get_nat_name pn) set2 [],
  lookup-nil {V = PortNat} (get_nat_name pn),
)

-- The same port, target port and protocol.
unfoldable pub is_same : PortNat → PortNat → Bool
is_same a b = a.port == b.port && a.target_port == b.target_port && a.protocol == b.protocol

abbrev pub has_same : List PortNat → PortNat → Bool
has_same [] pn = false
has_same (x ∷ xs) pn = is_same pn x || has_same xs pn

get_nat_name_inj :
    (a b : PortNat)
    → get_nat_name a ≡ get_nat_name b
    → (a.port ≡ b.port) × (a.target_port ≡ b.target_port) × (a.protocol ≡ b.protocol)
unfolding get_nat_name
get_nat_name_inj a b e =
    let (port, rest) = itoa-dash a.port b.port _ _ e in
    let (target_port, protocol) =
      itoa-dash a.target_port b.target_port a.protocol b.protocol rest in
    (port, target_port, protocol)

get_nat_name_same :
    (a b : PortNat)
    → a.port ≡ b.port
    → a.target_port ≡ b.target_port
    → a.protocol ≡ b.protocol
    → get_nat_name a ≡ get_nat_name b
unfolding get_nat_name
get_nat_name_same a b p t r i =
    String.◌++◌ (itoa (pos (p i)))
      (String.◌++◌ "-" (String.◌++◌ (itoa (pos (t i))) (String.◌++◌ "-" (r i))))

names-is_same : (a b : PortNat) → (get_nat_name a == get_nat_name b) ≡ is_same a b
unfolding is_same
names-is_same a b = ground (arith, get_nat_name_inj a b, get_nat_name_same a b)

contains-has_same :
    (pn : PortNat) (set2 : List PortNat)
    → contains (map get_nat_name set2) (get_nat_name pn) ≡ has_same set2 pn
contains-has_same pn [] = refl
contains-has_same pn (x ∷ xs) = ground (arith, names-is_same pn x, contains-has_same pn xs)

keep_if-has_same :
    (set2 set1 : List PortNat)
    → keep_if (λ pn. not (contains (map get_nat_name set2) (get_nat_name pn))) set1
      ≡ keep_if (λ pn. not (has_same set2 pn)) set1
keep_if-has_same set2 [] = refl
keep_if-has_same set2 (pn ∷ pns) =
    ground (arith, contains-has_same pn set2, keep_if-has_same set2 pns)

-- The difference is the port NATs of the first list, in order and with repetitions, whose port,
-- target port and protocol are together those of none in the second list, whatever their VIPs.
pub port_nat_diff_lem :
    (set1 set2 : List PortNat)
    → port_nat_diff set1 set2 ≡ keep_if (λ pn. not (has_same set2 pn)) set1
unfolding port_nat_diff
port_nat_diff_lem set1 set2 = missing_lem set2 set1 ∙ keep_if-has_same set2 set1
