-- ===== src/Ipam/Watcher.antt =====
-- pkg/ipam/trench/watcher.go: `SetConduits`. The map of current conduits is its list of names.
pub mod Difference
use meridio.Base.{Bool, true, false, not, String, List, [], ◌∷◌, ◌==◌, string_eq, keep_if}

-- `TrenchWatcher`; the results that the caller drops are left out.
pub record TrenchWatcher : Type 1 where
  pub State : Type 0
  pub add_conduit : String → State → State
  pub remove_conduit : String → State → State

-- `delete(cc, name)`
abbrev pub without : String → List String → List String
without name = keep_if (λ k. not (name == k))

module _ (W : TrenchWatcher) where
  -- The loop over the new conduits, with the copy `cc` of the current ones.
  pub add_loop : List String → List String → W.State → List String × W.State
  add_loop [] cc s = (cc, s)
  add_loop (c ∷ cs) cc s = add_loop cs (without c cc) (W.add_conduit c s)

  pub remove_loop : List String → W.State → W.State
  remove_loop [] s = s
  remove_loop (c ∷ cs) s = remove_loop cs (W.remove_conduit c s)

  -- `SetConduits`
  unfoldable pub set_conduits : List String → List String → W.State → W.State
  unfolding add_loop remove_loop
  set_conduits current_conduits new_conduits s =
      let (cc, s') = add_loop new_conduits current_conduits s in remove_loop cc s'
