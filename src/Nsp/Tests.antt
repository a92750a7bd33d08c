-- ===== src/Nsp/Tests.antt =====
-- Runs of the comparisons and filters on concrete messages.
use meridio.Base.{
  ℕ, All, ◌⊎◌, ◌≡◌, ◌↔◌, refl, true, not, none, some, String, List, [], ◌∷◌, length, contains,
  keep_if, string_eq, nat_eq,
}
use meridio.Base.Dict.{lookup, insert}
use meridio.Nsp.{
  Stream, Status, TargetType, Target, target_filter, stream_filter, conduit_filter, status_eq,
  type_eq,
}
use meridio.Nsp.Slices.{compare_slice, compare_slice_iff}
use meridio.Base.Strconv.{itoa}
use meridio.Nsp.PortNats.{PortNat, port_nat_diff, get_nat_name, has_same, port_nat_diff_lem}
use meridio.Nsp.Memory.{TargetRegistry, set}
use meridio.Nsp.Memory.Fresh
use meridio.Nsp.Memory.Fresh.{Event, sets, removes, watches, receives, IsFresh, run-IsFresh}
use meridio.Nsp.Memory.Stored.{HasKey, IsRefreshed, set-IsRefreshed}

abbrev stream : Stream
stream = record {
  name = "stream";
  conduit = some (record { name = "conduit"; trench = some (record { name = "trench" }) });
}

abbrev enabled_target : Target
enabled_target = record {
  ips = "10.0.0.1" ∷ [];
  context = [];
  status = Status.enabled;
  kind = TargetType.default;
  stream = some stream;
}

abbrev of_stream : Target
of_stream = record {
  ips = [];
  context = [];
  status = Status.enabled;
  kind = TargetType.default;
  stream = some (record { name = "stream"; conduit = none });
}

abbrev of_any : Target
of_any = record {
  ips = [];
  context = [];
  status = Status.any;
  kind = TargetType.default;
  stream = none;
}

wider : target_filter (some of_any) (some of_stream) ≡ true
unfolding target_filter status_eq type_eq stream_filter
wider = refl

narrower : target_filter (some of_stream) (some enabled_target) ≡ true
unfolding target_filter status_eq type_eq stream_filter conduit_filter string_eq
narrower = refl

abbrev tcp_udp : List String
tcp_udp = "tcp" ∷ "udp" ∷ []

abbrev udp_tcp : List String
udp_tcp = "udp" ∷ "tcp" ∷ []

compare_slice_iff_example :
    (compare_slice tcp_udp udp_tcp ≡ true)
    ↔ ((length tcp_udp ≡ length udp_tcp) × ((x : String) → contains tcp_udp x ≡ contains udp_tcp x))
compare_slice_iff_example = compare_slice_iff tcp_udp udp_tcp

-- The example of the source's comment: repetitions are not counted.
compare_repeated : compare_slice ("x" ∷ "x" ∷ "y" ∷ []) ("y" ∷ "y" ∷ "x" ∷ []) ≡ true
unfolding compare_slice insert lookup nat_eq string_eq
compare_repeated = refl

abbrev http : PortNat
http = record { port = 80; target_port = 8080; vips = []; protocol = "tcp" }

abbrev https : PortNat
https = record { port = 443; target_port = 8443; vips = []; protocol = "tcp" }

-- The names are those of Go.
http_name : get_nat_name http ≡ "80-8080-tcp"
unfolding get_nat_name itoa
http_name = refl

only_https : port_nat_diff (http ∷ https ∷ []) (http ∷ []) ≡ https ∷ []
unfolding port_nat_diff get_nat_name itoa lookup insert string_eq
only_https = refl

port_nat_diff_lem_example :
    port_nat_diff (http ∷ https ∷ []) (http ∷ [])
    ≡ keep_if (λ pn. not (has_same (http ∷ []) pn)) (http ∷ https ∷ [])
port_nat_diff_lem_example = port_nat_diff_lem (http ∷ https ∷ []) (http ∷ [])

-- The target is registered, watched, read, and changed.
abbrev events : List Event
events =
    sets enabled_target
    ∷ watches (some of_stream)
    ∷ receives 0
    ∷ sets enabled_target
    ∷ removes enabled_target
    ∷ []

run-IsFresh_example :
    All
      (IsFresh (Fresh.run events (record { targets = []; watchers = [] })).targets)
      (Fresh.run events (record { targets = []; watchers = [] })).watchers
run-IsFresh_example = run-IsFresh events

abbrev registry : TargetRegistry
registry = record { targets = enabled_target ∷ []; watchers = [] }

abbrev disabled_target : Target
disabled_target = record enabled_target { status = Status.disabled }

set-IsRefreshed_example :
    (All (λ t. ¬ HasKey disabled_target t) registry.targets
      × ((set disabled_target registry).targets ≡ enabled_target ∷ disabled_target ∷ []))
    ⊎ ((i : ℕ) × IsRefreshed disabled_target i registry.targets
          (set disabled_target registry).targets)
set-IsRefreshed_example = set-IsRefreshed disabled_target registry
