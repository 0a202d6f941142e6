-- ===== src/ApiKeys/Views/Pages.antt =====
-- Paging by keys: the pages of a list, one after the other, are the list.
use appport_services.Common.{
  ℕ, zero, suc, ◌≡◌, refl, ◌≢◌, String, false, ◌==◌, eq_iff, eq_refl, some, List, [], ◌∷◌, ◌++◌,
  arith, take, ap, All, ◌∙◌,
}
use appport_services.ApiKeys.Views.{items_after, page}

take-nil {ℓ} : {A : Type ℓ} (n : ℕ) → ◌≡◌ {A = List A} (take n []) []
take-nil zero = refl
take-nil (suc n) = refl

module _ {ℓ} {A : Type ℓ} (id_of : A → String) where
  -- No two items have one id.
  abbrev pub HasDistinctIds : List A → Type ℓ
  HasDistinctIds [] = Unit
  HasDistinctIds (x ∷ xs) = All (λ y. id_of y ≢ id_of x) xs × HasDistinctIds xs

  All-last :
      (x : A) (pre : List A) (z : A) (rest : List A)
      → All (λ y. id_of y ≢ id_of x) (pre ++ z ∷ rest)
      → id_of z ≢ id_of x
  All-last x [] z rest h = h.0
  All-last x (y ∷ pre) z rest h = All-last x pre z rest h.1

  -- Behind the id of an item in the list stands the rest of the list.
  items_after-append :
      (pre : List A) (z : A) (rest : List A)
      → HasDistinctIds (pre ++ z ∷ rest)
      → items_after id_of (id_of z) (pre ++ z ∷ rest) ≡ rest
  unfolding items_after
  items_after-append [] z rest h = rw (eq_refl (id_of z)) refl
  items_after-append (x ∷ pre) z rest h =
      let other : (id_of x == id_of z) ≡ false =
        ground (arith, eq_iff (id_of x) (id_of z), All-last x pre z rest h.0) in
      rw other (items_after-append pre z rest h.1)

  items_after_unknown :
      (cursor : String) (xs : List A)
      → All (λ y. id_of y ≢ cursor) xs
      → items_after id_of cursor xs ≡ []
  unfolding items_after
  items_after_unknown cursor [] h = refl
  items_after_unknown cursor (x ∷ xs) h =
      ground (arith, eq_iff (id_of x) cursor, items_after_unknown cursor xs h.1)

  -- In a list with distinct ids, the page behind an item's id starts at the item that follows it
  -- and holds the next items up to the limit; a cursor that is no item's id gives an empty page.
  pub page-continues :
      (pre : List A) (z : A) (rest : List A) (unknown : String) (limit : ℕ)
      → HasDistinctIds (pre ++ z ∷ rest)
      → All (λ y. id_of y ≢ unknown) (pre ++ z ∷ rest)
      → (page id_of (pre ++ z ∷ rest) (some (id_of z)) limit ≡ take limit rest)
        × (page id_of (pre ++ z ∷ rest) (some unknown) limit ≡ [])
  unfolding page
  page-continues pre z rest unknown limit d u = (
    ap (take limit) (items_after-append pre z rest d),
    ap (take limit) (items_after_unknown unknown (pre ++ z ∷ rest) u) ∙ take-nil limit,
  )
