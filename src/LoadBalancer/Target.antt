-- ===== src/LoadBalancer/Target.antt =====
-- pkg/loadbalancer/stream/target.go. `MarshalJSON` is left out.
use meridio.Base.{
  Bool, true, false, not, ◌&&◌, ◌||◌, Option, none, some, String, List, [], ◌∷◌, ◌++◌, ◌==◌,
  if◌then◌else◌,
}
use meridio.Base.Dict.{lookup}
use meridio.Base.Int.{ℤ, ◌+ℤ◌}
use meridio.Base.Strconv.{atoi}
use meridio.Base.Tests.{string_eq}
use meridio.Nsp
use meridio.Nsp.{Status, status_eq}
use meridio.LoadBalancer.Env.{Env}

module _ (E : Env) where
  -- `target`. Its list of routes is never nil: `NewTarget` and `Delete` set it to an empty one.
  pub record Target : Type 0 where
    pub fw_marks : List E.FwMarkRoute
    pub nsp_target : Nsp.Target
    pub identifier : ℤ
    pub identifier_offset : ℤ

  abbrev pub get_ips : Target → List String
  get_ips t = t.nsp_target.ips

  abbrev pub offset_id : Target → ℤ
  offset_id t = t.identifier +ℤ t.identifier_offset

  -- `NewTarget`; `none` is its error.
  unfoldable pub new_target : Nsp.Target → ℤ → Option Target
  new_target nsp_target identifier_offset =
      if not (nsp_target.status == Status.enabled)
      then none
      else elim (lookup "identifier" nsp_target.context) [
        | none ↦ none
        | some id_str ↦ elim (atoi id_str) [
          | none ↦ none
          | some identifier ↦ some (record {
            fw_marks = [];
            nsp_target = nsp_target;
            identifier = identifier;
            identifier_offset = identifier_offset;
          })
        ]
      ]

  -- `Verify`
  unfoldable pub verify_routes : List E.FwMarkRoute → E.World → Bool
  verify_routes [] w = true
  verify_routes (fw_mark ∷ fw_marks) w = E.verify_route fw_mark w && verify_routes fw_marks w

  abbrev pub verify : Target → E.World → Bool
  verify t w = verify_routes t.fw_marks w

  -- The loop of `Configure` over the addresses: the routes so far, and whether one failed.
  unfoldable pub configure_routes :
      ℤ → List String → List E.FwMarkRoute → E.World → E.World × (List E.FwMarkRoute × Bool)
  configure_routes offset_id [] fw_marks w = (w, (fw_marks, false))
  configure_routes offset_id (ip ∷ ips) fw_marks w =
      let (w', r) = E.new_fwmark_route ip offset_id offset_id w in
      elim r [
        | none ↦ (w', (fw_marks, true))
        | some fw_mark ↦ configure_routes offset_id ips (fw_marks ++ fw_mark ∷ []) w'
      ]

  -- `Configure`: the target with the routes made, and whether there was an error.
  unfoldable pub configure : Target → E.World → E.World × (Target × Bool)
  configure t w =
      let (w', (fw_marks, failed)) = configure_routes (offset_id t) (get_ips t) t.fw_marks w in
      (
        (if failed then w' else E.register_metrics (offset_id t) t.nsp_target w'),
        (record t { fw_marks = fw_marks }, failed),
      )

  -- The loop of `Delete`: whether one of the routes could not be deleted.
  unfoldable pub delete_routes : List E.FwMarkRoute → E.World → E.World × Bool
  delete_routes [] w = (w, false)
  delete_routes (fw_mark ∷ fw_marks) w =
      let (w1, e) = E.delete_route fw_mark w in
      let (w2, e') = delete_routes fw_marks w1 in (w2, e || e')

  -- The target that `Delete` leaves.
  abbrev pub cleared : Target → Target
  cleared t = record t { fw_marks = [] }

  -- `Delete`
  unfoldable pub delete : Target → E.World → E.World × Bool
  unfolding delete_routes
  delete t w =
      let (w', failed) = delete_routes t.fw_marks w in
      (E.unregister_metrics (offset_id t) w', failed)
