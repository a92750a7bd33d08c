-- ===== src/Nsp/Symmetry.antt =====
-- The comparisons of api/nsp/v1/utils.go do not depend on the order of their arguments.
use meridio.Base.{◌≡◌, refl, Option, none, some, arith, string_eq, String}
use meridio.Nsp.{
  Trench, Conduit, Stream, Target, same_name, trench_equals, conduit_equals, stream_equals,
  target_equals, status_eq, type_eq,
}

same_name_comm : (a b : String) → same_name a b ≡ same_name b a
same_name_comm a b = ground arith

trench_equals_comm : (t t2 : Option Trench) → trench_equals t t2 ≡ trench_equals t2 t
unfolding trench_equals
trench_equals_comm none none = refl
trench_equals_comm none (some _) = refl
trench_equals_comm (some _) none = refl
trench_equals_comm (some t) (some t2) = same_name_comm t.name t2.name

conduit_equals_comm : (c c2 : Option Conduit) → conduit_equals c c2 ≡ conduit_equals c2 c
unfolding conduit_equals
conduit_equals_comm none none = refl
conduit_equals_comm none (some _) = refl
conduit_equals_comm (some _) none = refl
conduit_equals_comm (some c) (some c2) =
    rw (same_name_comm c.name c2.name, trench_equals_comm c.trench c2.trench) refl

stream_equals_comm : (s s2 : Option Stream) → stream_equals s s2 ≡ stream_equals s2 s
unfolding stream_equals
stream_equals_comm none none = refl
stream_equals_comm none (some _) = refl
stream_equals_comm (some _) none = refl
stream_equals_comm (some s) (some s2) =
    rw (same_name_comm s.name s2.name, conduit_equals_comm s.conduit s2.conduit) refl

-- Whether two targets are equal does not depend on which of them is asked.
pub target_equals_comm : (t t2 : Option Target) → target_equals t t2 ≡ target_equals t2 t
unfolding target_equals
target_equals_comm none none = refl
target_equals_comm none (some _) = refl
target_equals_comm (some _) none = refl
target_equals_comm (some t) (some t2) = rw (stream_equals_comm t.stream t2.stream) (ground arith)
