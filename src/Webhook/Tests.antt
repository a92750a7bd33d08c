-- ===== src/Webhook/Tests.antt =====
-- Lists of ports that a flow may have, and others.
use meridio.Base.{
  ℕ, ◌≡◌, ◌↔◌, refl, Bool, true, none, some, String, List, [], ◌∷◌, string_eq, nat_eq, arith,
  replicate, ◌++◌,
}
use meridio.Base.Strconv.{parse_uint16}
use meridio.Webhook.{
  PortRange, valid_ports_format, overlapping_loop, check_ports_overlapping, validate_loop,
  validate_ports,
}
use meridio.Webhook.Accepted.{ranges_of, validate_ports_iff}
use meridio.Webhook.Repeats.{check-doubles}
use meridio.Webhook.Insertion.{AreApart}

-- An array that always has room, as far as the test goes.
abbrev roomy : ℕ → Bool
roomy n = true

abbrev some_ports : List String
some_ports = "80" ∷ "443" ∷ "1000-2000" ∷ "22" ∷ "90-100" ∷ []

accepted : validate_ports roomy some_ports ≡ none
unfolding valid_ports_format overlapping_loop check_ports_overlapping validate_loop parse_uint16
    string_eq nat_eq
accepted = refl

refused : validate_ports roomy ("80" ∷ "443" ∷ "22" ∷ "70-90" ∷ []) ≡ some "70-90"
unfolding valid_ports_format overlapping_loop check_ports_overlapping validate_loop parse_uint16
    string_eq nat_eq
refused = refl

too_large : validate_ports roomy ("65536" ∷ []) ≡ some "65536"
unfolding valid_ports_format validate_loop parse_uint16 string_eq nat_eq
too_large = refl

validate_ports_iff_example :
    (validate_ports roomy some_ports ≡ none)
    ↔ ((cs : List PortRange) × (ranges_of some_ports ≡ some cs) × AreApart cs)
validate_ports_iff_example = validate_ports_iff roomy some_ports

check-doubles_example :
    check_ports_overlapping roomy
      (record { start = 20; end = 20 } ∷ record { start = 30; end = 40 } ∷ [])
      (record { start = 10; end = 10 })
    ≡ some (
        replicate 2 (record { start = 10; end = 10 })
        ++ record { start = 20; end = 20 } ∷ record { start = 30; end = 40 } ∷ [])
check-doubles_example =
    check-doubles roomy (record { start = 10; end = 10 }) (record { start = 20; end = 20 })
      (record { start = 30; end = 40 } ∷ []) (omega arith)
      ((omega arith, omega arith), ((omega arith, omega arith), tt))
