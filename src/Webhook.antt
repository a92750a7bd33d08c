-- ===== src/Webhook.antt =====
-- api/v1: the checks of the ports of a flow before Kubernetes accepts it (flow_webhook.go, types.go).
-- A text is the list of its bytes. An error is none, or the refused entry: its text is left out.
pub mod Repeats
pub mod Ports
pub mod Insertion
pub mod Accepted
pub mod Tests
use meridio.Base.{
  ℕ, zero, suc, ◌-◌, Bool, true, false, ◌&&◌, Option, none, some, String, List, [], ◌∷◌, ◌++◌, ◌==◌,
  nat_eq, string_eq, if◌then◌else◌, ltb, length, take, drop, contains,
}
use meridio.Base.Strconv.{codes, parse_uint16}

-- `Ports`
pub record PortRange : Type 0 where
  pub start : ℕ
  pub end : ℕ

-- `NewPort`
abbrev pub new_port : ℕ → ℕ → Option PortRange
new_port start end = if ltb end start then none else some (record { start = start; end = end })

abbrev pub new_port_of : Option ℕ → Option ℕ → Option PortRange
new_port_of none end = none
new_port_of (some start) none = none
new_port_of (some start) (some end) = new_port start end

-- `NewPortFromString`
abbrev pub new_port_from_string : List ℕ → List ℕ → Option PortRange
new_port_from_string start end = new_port_of (parse_uint16 start) (parse_uint16 end)

abbrev push_first : ℕ → List (List ℕ) → List (List ℕ)
push_first c [] = (c ∷ []) ∷ []
push_first c (w ∷ ws) = (c ∷ w) ∷ ws

-- `strings.Split`, at one byte.
abbrev split : ℕ → List ℕ → List (List ℕ)
split sep [] = [] ∷ []
split sep (c ∷ cs) = let rest = split sep cs in if c == sep then [] ∷ rest else push_first c rest

abbrev of_parts : List (List ℕ) → Option PortRange
of_parts [] = none
of_parts (a ∷ []) = none
of_parts (a ∷ b ∷ []) = new_port_from_string a b
of_parts (a ∷ b ∷ c ∷ ws) = none

-- `validPortsFormat`
unfoldable pub valid_ports_format : String → Option PortRange
valid_ports_format p =
    if contains (codes p) b'-'
    then of_parts (split b'-' (codes p))
    else if p == "any"
    then new_port 0 65535
    else new_port_from_string (codes p) (codes p)

-- `insertPortList`; the position is one of the list or its end.
abbrev pub insert_port_list : List PortRange → ℕ → PortRange → List PortRange
insert_port_list pl i p = take i pl ++ p ∷ drop i pl

-- The rest of the range over a slice, after an insertion right before it into the same array.
abbrev pub shifted : PortRange → List PortRange → List PortRange
shifted p [] = []
shifted p (x ∷ xs) = p ∷ shifted x xs

-- The loop of `checkPortsOverlapping` at the index: over the slice as it was, while its elements go
-- into another. Both have one array until an insertion finds no room in it (`room`, by the length),
-- so that the loop sees them move. The first argument counts the rounds.
unfoldable pub overlapping_loop :
    (ℕ → Bool)
    → PortRange
    → ℕ
    → Bool
    → ℕ
    → List PortRange
    → List PortRange
    → Option (List PortRange)
overlapping_loop room c zero shares j rest all = some all
overlapping_loop room c (suc k) shares j [] all = some all
overlapping_loop room c (suc k) shares j (v ∷ rest) all =
    let after =
      overlapping_loop room c k shares (suc j) rest
        (if j == length all - 1 then insert_port_list all (length all) c else all) in
    let moved =
      overlapping_loop room c k (shares && room (length all)) (suc j)
        (if shares && room (length all) then shifted v rest else rest) (insert_port_list all j c) in
    if ltb v.end c.start then after else if ltb c.end v.start then moved else none

-- `checkPortsOverlapping`
unfoldable pub check_ports_overlapping :
    (ℕ → Bool) → List PortRange → PortRange → Option (List PortRange)
check_ports_overlapping room [] c = some (insert_port_list [] 0 c)
check_ports_overlapping room (v ∷ vs) c =
    overlapping_loop room c (length (v ∷ vs)) true 0 (v ∷ vs) (v ∷ vs)

-- The loop of `validatePorts`, with the list made so far; the result is the refused entry.
unfoldable pub validate_loop : (ℕ → Bool) → List PortRange → List String → Option String
validate_loop room all [] = none
validate_loop room all (p ∷ ports) = elim (valid_ports_format p) [
  | none ↦ some p
  | some c ↦ elim (check_ports_overlapping room all c) [
    | none ↦ some p
    | some all' ↦ validate_loop room all' ports
  ]
]

-- `validatePorts`
abbrev pub validate_ports : (ℕ → Bool) → List String → Option String
validate_ports room ports = validate_loop room [] ports
