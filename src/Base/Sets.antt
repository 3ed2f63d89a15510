-- ===== src/Base/Sets.antt =====
-- Python sets as lists without order: the tests and updates that the code makes.
use pywssocks.Base.{
  ◌≡◌, refl, Bool, true, false, not, ◌&&◌, ◌||◌, List, [], ◌∷◌, arith, Eq, ◌==◌, eq_iff,
  if◌then◌else◌, Bool-cases, inl, inr,
}

module _ {ℓ} {A : Type ℓ} ⦃e : Eq A⦄ where
  -- `a in s`
  unfoldable pub elem : A → List A → Bool
  elem a [] = false
  elem a (x ∷ s) = x == a || elem a s

  -- `s.add(a)`
  unfoldable pub add : A → List A → List A
  add a s = if elem a s then s else a ∷ s

  -- `s.discard(a)`
  unfoldable pub discard : A → List A → List A
  discard a [] = []
  discard a (x ∷ s) = let rest = discard a s in if x == a then rest else x ∷ rest

  -- `s - t`
  unfoldable pub difference : List A → List A → List A
  difference [] t = []
  difference (x ∷ s) t = let rest = difference s t in if elem x t then rest else x ∷ rest

  pub elem-add : (a b : A) (s : List A) → elem b (add a s) ≡ (a == b || elem b s)
  unfolding elem add
  elem-add a b s = elim (Bool-cases (elem a s)) [
    | inl old ↦ rw old (ground (arith, eq_iff a b))
    | inr new ↦ rw new
  ]

  pub elem-discard :
      (a b : A) (s : List A) → elem b (discard a s) ≡ (if a == b then false else elem b s)
  unfolding elem discard
  elem-discard a b [] = ground arith
  elem-discard a b (x ∷ s) = ground (arith, eq_iff x a, eq_iff a b, eq_iff x b, elem-discard a b s)

  pub elem-difference :
      (b : A) (s t : List A) → elem b (difference s t) ≡ (elem b s && not (elem b t))
  unfolding elem difference
  elem-difference b [] t = refl
  elem-difference b (x ∷ s) t = ground (arith, eq_iff x b, elem-difference b s t)

  -- A set that is not empty has an element.
  pub elem_head : (x : A) (s : List A) → elem x (x ∷ s) ≡ true
  unfolding elem
  elem_head x s = ground (arith, eq_iff x x)
