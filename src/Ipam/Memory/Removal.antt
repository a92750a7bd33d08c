-- ===== src/Ipam/Memory/Removal.antt =====
-- Deleting only takes prefixes away.
use meridio.Base.{ℕ, zero, suc, Option, none, some, List, [], ◌∷◌, ◌++◌, All, take, drop}
use meridio.Ipam.Prefix.{Prefix}
use meridio.Ipam.Memory.{get_index, delete_index, get_childs, delete_childs, delete_tree, delete}

-- The first list is the second with some entries left out.
pub data Removes {ℓ} {A : Type ℓ} : List A → List A → Type ℓ where
  end : Removes [] []
  keep : {a : A} {xs ys : List A} → Removes xs ys → Removes (a ∷ xs) (a ∷ ys)
  skip : {a : A} {xs ys : List A} → Removes xs ys → Removes xs (a ∷ ys)

module _ {ℓ} {A : Type ℓ} where
  pub Removes-refl : (xs : List A) → Removes xs xs
  Removes-refl [] = end
  Removes-refl (x ∷ xs) = keep (Removes-refl xs)

  pub Removes-trans :
      {ys zs : List A} → Removes ys zs → {xs : List A} → Removes xs ys → Removes xs zs
  Removes-trans end r = r
  Removes-trans (skip q) r = skip (Removes-trans q r)
  Removes-trans (keep q) (keep r) = keep (Removes-trans q r)
  Removes-trans (keep q) (skip r) = skip (Removes-trans q r)

  cut-Removes : (i : ℕ) (xs : List A) → Removes (take i xs ++ drop (suc i) xs) xs
  cut-Removes zero [] = end
  cut-Removes zero (x ∷ xs) = skip (Removes-refl xs)
  cut-Removes (suc i) [] = end
  cut-Removes (suc i) (x ∷ xs) = keep (cut-Removes i xs)

  pub Removes-All {κ} : (P : A → Type κ) {xs ys : List A} → Removes xs ys → All P ys → All P xs
  Removes-All P end h = tt
  Removes-All P (keep r) h = (h.0, Removes-All P r h.1)
  Removes-All P (skip r) h = Removes-All P r h.1

delete_index-Removes : (i : Option ℕ) (s : List Prefix) → Removes (delete_index i s) s
unfolding delete_index
delete_index-Removes none s = Removes-refl s
delete_index-Removes (some i) s = cut-Removes i s

delete_childs-Removes :
    (del : Prefix → List Prefix → List Prefix)
    → ((p : Prefix) (s : List Prefix) → Removes (del p s) s)
    → (ps s : List Prefix) → Removes (delete_childs del ps s) s
unfolding delete_childs
delete_childs-Removes del h [] s = Removes-refl s
delete_childs-Removes del h (p ∷ ps) s =
    Removes-trans (h p s) (delete_childs-Removes del h ps (del p s))

delete_tree-Removes : (fuel : ℕ) (p : Prefix) (s : List Prefix) → Removes (delete_tree fuel p s) s
unfolding delete_tree
delete_tree-Removes zero p s = Removes-refl s
delete_tree-Removes (suc fuel) p s =
    let rest = delete_childs (delete_tree fuel) (get_childs p s) s in
    Removes-trans
      (delete_childs-Removes (delete_tree fuel) (delete_tree-Removes fuel) (get_childs p s) s)
      (delete_index-Removes (get_index p rest) rest)

pub delete-Removes : (p : Option Prefix) (s : List Prefix) → Removes (delete p s) s
unfolding delete
delete-Removes none s = Removes-refl s
delete-Removes (some p) s = delete_tree-Removes _ p s
