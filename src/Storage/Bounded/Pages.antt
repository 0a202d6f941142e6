-- ===== src/Storage/Bounded/Pages.antt =====
-- What a bounded read returns, and that it ends.
use appport_services.Common.{
  ℕ, zero, suc, ◌+◌, ◌-◌, ◌≤◌, ◌<◌, ◌≡◌, refl, ◌∙◌, ap, subst, ◌≢◌, String, Bool, true, false, ◌&&◌,
  ltb, Option, none, some, List, [], ◌∷◌, ◌++◌, length, take, keep, every, length-take-le,
  every-keep, Bool-cases, inl, inr, arith,
}
use appport_services.Storage.Bounded.{
  min, felt_db_query_page_limit, Page, Query, is_last, is_empty, after_page, one_round, pages,
  bounded_find, ended,
}
use appport_services.Exec.{Exec, ok, >>=-eq-ok}

module _ {T : Type 0} (p : T → Bool) where
  every-append : (xs ys : List T) → every p (xs ++ ys) ≡ (every p xs && every p ys)
  every-append [] ys = refl
  every-append (x ∷ xs) ys = ground (arith, every-append xs ys)

  every-take : (n : ℕ) (xs : List T) → every p xs ≡ true → every p (take n xs) ≡ true
  every-take zero xs h = refl
  every-take (suc n) [] h = refl
  every-take (suc n) (x ∷ xs) h = ground (arith, every-take n xs)

module _ {S T : Type 0} (query : Query S T) (matches : T → Bool) (max : ℕ) where
  -- A page that is not the last has records; the database returns only what matches.
  abbrev pub OnlyMatching : Type 0
  OnlyMatching =
      (n : ℕ) (cursor : Option String) (s : S) (page : Page T)
      → (query matches n cursor s).0 ≡ ok page
      → every matches page.records ≡ true

  abbrev IsPage : Option (List T) → Type 0
  IsPage none = Unit
  IsPage (some rows) = (length rows ≤ max) × (every matches rows ≡ true)

  taken :
      (xs : List T) (o : Option (List T))
      → every matches xs ≡ true
      → ok (some (take max xs)) ≡ ok o
      → IsPage o
  taken xs o h e =
      let same : some (take max xs) ≡ o = cc e in
      subst IsPage same (length-take-le max xs, every-take matches max xs h)

  after_page-IsPage :
      (found : List T) (next : Option String → List T → Exec S (Option (List T))) (page : Page T)
      (s : S) (o : Option (List T))
      → every matches found ≡ true
      → ((cursor : Option String) (more : List T) (t : S)
          → every matches more ≡ true
          → (next cursor more t).0 ≡ ok o
          → IsPage o)
      → (after_page query matches max found next page s).0 ≡ ok o
      → IsPage o
  unfolding after_page
  after_page-IsPage found next page s o h ih e =
      let all : every matches (found ++ keep matches page.records) ≡ true =
        every-append matches found (keep matches page.records)
        ∙ rw (h, every-keep matches page.records) refl in
      elim (Bool-cases (is_last page)) [
        | inl last ↦ taken (found ++ keep matches page.records) o all (rw last at e)
        | inr more ↦ ih page.next_cursor (found ++ keep matches page.records) s all (rw more at e)
      ]

  pages-IsPage :
      (fuel : ℕ) (cursor : Option String) (found : List T) (s : S) (o : Option (List T))
      → every matches found ≡ true
      → (pages query matches max fuel cursor found s).0 ≡ ok o
      → IsPage o
  unfolding pages one_round
  pages-IsPage zero cursor found s o h e = let same : none ≡ o = cc e in subst IsPage same tt
  pages-IsPage (suc fuel) cursor found s o h e = elim (Bool-cases (ltb (length found) max)) [
    | inl more ↦
        let (page, _, e₁) =
          >>=-eq-ok (query matches _ cursor)
            (after_page query matches max found (pages query matches max fuel)) s (rw more at e) in
        after_page-IsPage found (pages query matches max fuel) page _ o h
          (λ c m t. pages-IsPage fuel c m t o) e₁
    | inr full ↦ taken found o h (rw full at e)
  ]

  length-append : (xs ys : List T) → length (xs ++ ys) ≡ length xs + length ys
  length-append [] ys = omega arith
  length-append (x ∷ xs) ys = omega (arith, length-append xs ys)

  keep-all : (xs : List T) → every matches xs ≡ true → keep matches xs ≡ xs
  keep-all [] h = refl
  keep-all (x ∷ xs) h = ground (arith, keep-all xs)

  not_last-nonempty : (page : Page T) → is_last page ≡ false → 0 < length page.records
  not_last-nonempty page h = nonempty page.records (ground arith)
    where
      nonempty : (xs : List T) → is_empty xs ≡ false → 0 < length xs
      nonempty [] e = cc
      nonempty (x ∷ xs) e = omega arith

  after_page-ends :
      (found : List T) (next : Option String → List T → Exec S (Option (List T))) (page : Page T)
      (s : S)
      → every matches page.records ≡ true
      → ((cursor : Option String) (more : List T) (t : S)
          → length found < length more
          → (next cursor more t).0 ≢ ok none)
      → (after_page query matches max found next page s).0 ≢ ok none
  unfolding after_page
  after_page-ends found next page s all ih e = elim (Bool-cases (is_last page)) [
    | inl last ↦
        let done : ok (some (take max (found ++ keep matches page.records))) ≡ ok none =
          rw last at e in
        cc done
    | inr more ↦
        ih page.next_cursor (found ++ keep matches page.records) s
          (omega (
            arith,
            length-append found (keep matches page.records),
            ap length (keep-all page.records all),
            not_last-nonempty page more,
          ))
          (rw more at e)
  ]

  -- With a database that returns only what matches, the loop ends within the fuel.
  pages_end :
      OnlyMatching
      → (fuel : ℕ) (cursor : Option String) (found : List T) (s : S) → 0 < fuel
      → max < length found + fuel
      → (pages query matches max fuel cursor found s).0 ≢ ok none
  unfolding pages one_round
  pages_end only zero cursor found s some_fuel enough e = absurd (omega arith)
  pages_end only (suc fuel) cursor found s some_fuel enough e =
      elim (Bool-cases (ltb (length found) max)) [
        | inl more ↦
            let few = max - length found in
            let (page, got, e₁) =
              >>=-eq-ok (query matches (min felt_db_query_page_limit few) cursor)
                (after_page query matches max found (pages query matches max fuel)) s
                (rw more at e) in
            after_page-ends found (pages query matches max fuel) page _
              (only (min felt_db_query_page_limit few) cursor s page got)
              (λ c next t longer. pages_end only fuel c next t (ground arith) (omega arith)) e₁
        | inr full ↦ let done : ok (some (take max found)) ≡ ok none = rw full at e in cc done
      ]

  -- A bounded read that returns, after any number of rounds, returns at most as many records as
  -- asked for, and each of them matches, whatever the database returns.
  pub bounded_find-IsBounded :
      (rounds : ℕ) (s : S) (rows : List T)
      → (bounded_find query matches max rounds s).0 ≡ ok rows
      → (length rows ≤ max) × (every matches rows ≡ true)
  unfolding bounded_find
  bounded_find-IsBounded rounds s rows h =
      let (found, got, e) = >>=-eq-ok (pages query matches max rounds none []) _ s h in
      rows_of found _ (pages-IsPage rounds none [] s found refl got) e
    where
      rows_of :
          (o : Option (List T)) (t : S)
          → IsPage o
          → (ended query matches max o t).0 ≡ ok rows
          → (length rows ≤ max) × (every matches rows ≡ true)
      rows_of none t fits e = cc e
      rows_of (some r) t fits e =
          let same : r ≡ rows = cc e in
          subst (λ r'. (length r' ≤ max) × (every matches r' ≡ true)) same fits

  -- Where the database returns only what matches, the loop that follows the cursors of the pages
  -- comes to its end after at most one round more than the records asked for: it never runs out of
  -- the fuel that a bounded read gives it.
  pub bounded_find_ends :
      OnlyMatching → (s : S) → (pages query matches max (suc max) none [] s).0 ≢ ok none
  bounded_find_ends only s = pages_end only (suc max) none [] s (omega arith) (omega arith)
