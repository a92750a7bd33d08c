-- ===== src/Nsp/Sqlite/Tests.antt =====
-- A target as a row, with a context that is written without an escape.
use meridio.Base.{◌≡◌, refl, String, [], ◌∷◌, nat_eq, arith, some}
use meridio.Base.Dict.{Dict}
use meridio.Nsp.{Status, TargetType, Target}
use meridio.Nsp.Sqlite.{of_row, to_row, get_target_id}
use meridio.Nsp.Sqlite.RoundTrip.{get_target_id-of_row, of_row-to_row}

abbrev marshal : Dict String String → String
marshal [] = ""
marshal ((k, v) ∷ d) = v

abbrev unmarshal : String → Dict String String
unmarshal s = ("identifier", s) ∷ []

abbrev target : Target
target = record {
  ips = "10.0.0.1" ∷ "fd00::1" ∷ [];
  context = ("identifier", "7") ∷ [];
  status = Status.enabled;
  kind = TargetType.default;
  stream = some (record {
    name = "s";
    conduit = some (record { name = "c"; trench = some (record { name = "t" }) });
  });
}

of_row-to_row_example : of_row marshal unmarshal (to_row marshal unmarshal target) ≡ target
of_row-to_row_example =
    of_row-to_row marshal unmarshal target "s" "c" "t" refl (λ e. cc) (omega arith) refl

get_target_id-of_row_example :
    get_target_id (of_row marshal unmarshal (to_row marshal unmarshal target))
    ≡ get_target_id target
get_target_id-of_row_example = get_target_id-of_row marshal unmarshal target
