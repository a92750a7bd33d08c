-- ===== src/Ipam/Watcher/Difference.antt =====
-- `SetConduits` adds every new conduit, and removes the current ones that are not new.
use mathlib.Core.List.{foldl, foldl-append}
use meridio.Base.{
  map, ◌++◌, ◌≡◌, refl, ap, sym, ◌∙◌, not, String, List, [], ◌∷◌, string_eq, contains, keep_if,
  arith,
}
use meridio.Ipam.Watcher.{TrenchWatcher, without, add_loop, remove_loop, set_conduits}

-- The current conduits that are not among the new ones.
abbrev pub gone : List String → List String → List String
gone new_conduits = keep_if (λ k. not (contains new_conduits k))

gone-cons : (c : String) (cs cur : List String) → gone cs (without c cur) ≡ gone (c ∷ cs) cur
gone-cons c cs [] = refl
gone-cons c cs (k ∷ cur) = ground (arith, gone-cons c cs cur)

gone-nil : (cur : List String) → gone [] cur ≡ cur
gone-nil [] = refl
gone-nil (k ∷ cur) = ap (λ t. k ∷ t) (gone-nil cur)

-- A call to the watcher.
pub data Call : Type 0 where
  added removed : String → Call

-- The calls that a change of the conduits asks for.
abbrev pub asked : List String → List String → List Call
asked current_conduits new_conduits =
    map Call.added new_conduits ++ map Call.removed (gone new_conduits current_conduits)

module _ (W : TrenchWatcher) where
  abbrev pub call : W.State → Call → W.State
  call s (Call.added c) = W.add_conduit c s
  call s (Call.removed c) = W.remove_conduit c s

  add_loop_lem :
      (cs cur : List String) (s : W.State)
      → add_loop W cs cur s ≡ (gone cs cur, foldl call s (map Call.added cs))
  unfolding add_loop
  add_loop_lem [] cur s = ap (λ t. (t, s)) (sym (gone-nil cur))
  add_loop_lem (c ∷ cs) cur s =
      add_loop_lem cs (without c cur) (W.add_conduit c s)
      ∙ ap (λ t. (t, foldl call (W.add_conduit c s) (map Call.added cs))) (gone-cons c cs cur)

  remove_loop_lem :
      (cs : List String) (s : W.State) → remove_loop W cs s ≡ foldl call s (map Call.removed cs)
  unfolding remove_loop
  remove_loop_lem [] s = refl
  remove_loop_lem (c ∷ cs) s = remove_loop_lem cs (W.remove_conduit c s)

  -- `SetConduits` calls the watcher in this order, and nothing else: to add each new conduit, known
  -- or not, and then to remove each current one that is not new, in the order of the map.
  pub set_conduits_lem :
      (current_conduits new_conduits : List String) (s : W.State)
      → set_conduits W current_conduits new_conduits s
        ≡ foldl call s (asked current_conduits new_conduits)
  unfolding set_conduits
  set_conduits_lem cur cs s = rw (add_loop_lem cs cur s) (
      remove_loop_lem (gone cs cur) (foldl call s (map Call.added cs))
      ∙ sym (foldl-append call s (map Call.added cs) (map Call.removed (gone cs cur))))
