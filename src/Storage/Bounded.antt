-- ===== src/Storage/Bounded.antt =====
-- storage/bounded.ts: reading at most so many records by bounded queries. The query is FeltDB's.
pub mod Pages
pub mod Checks
use appport_services.Common.{
  ℕ, zero, suc, ◌-◌, String, Bool, true, false, ◌&&◌, ◌||◌, ◌==◌, leb, ltb, Option, none, some,
  List, [], ◌∷◌, ◌++◌, length, take, keep, or_default, truthy, not, if◌then◌else◌,
}
use appport_services.Authority.Errors.{other_error}
use appport_services.Exec.{Exec, pure, throw, ◌>>=◌}

abbrev pub felt_db_query_page_limit : ℕ
felt_db_query_page_limit = 1000

pub record Page (T : Type 0) : Type 0 where
  pub records : List T
  pub exhausted : Bool
  pub next_cursor : Option String

-- A query has a condition, a limit and perhaps a cursor.
abbrev pub Query : Type 0 → Type 0 → Type 0
Query S T = (T → Bool) → ℕ → Option String → Exec S (Page T)

abbrev min : ℕ → ℕ → ℕ
min a b = if leb a b then a else b

abbrev is_empty : {T : Type 0} → List T → Bool
is_empty [] = true
is_empty (_ ∷ _) = false

-- `page.exhausted || !page.nextCursor || page.records.length === 0`.
abbrev pub is_last : {T : Type 0} → Page T → Bool
is_last page = page.exhausted || not (truthy page.next_cursor) || is_empty page.records

module _ {S T : Type 0} (query : Query S T) (matches : T → Bool) (max : ℕ) where
  -- The loop with fuel; `none` means that the fuel ran out.
  after_page :
      List T
      → (Option String → List T → Exec S (Option (List T)))
      → Page T
      → Exec S (Option (List T))
  after_page found next page =
      let more = found ++ keep matches page.records in
      if is_last page then pure (some (take max more)) else next page.next_cursor more

  one_round :
      Option String
      → List T
      → (Option String → List T → Exec S (Option (List T)))
      → Exec S (Option (List T))
  unfolding after_page
  one_round cursor found next =
      if ltb (length found) max
      then query matches (min felt_db_query_page_limit (max - length found)) cursor
        >>= after_page found next
      else pure (some (take max found))

  unfoldable pub pages : ℕ → Option String → List T → Exec S (Option (List T))
  unfolding one_round
  pages zero cursor found = pure none
  pages (suc fuel) cursor found = one_round cursor found (pages fuel)

  abbrev pub ended : Option (List T) → Exec S (List T)
  ended none = throw (other_error "the read goes on")
  ended (some found) = pure found

  -- A read of which so many rounds are looked at. One that goes on longer has no result yet: it
  -- stands as an error, which no read of the source throws.
  unfoldable pub bounded_find : ℕ → Exec S (List T)
  unfolding pages
  bounded_find rounds = pages rounds none [] >>= ended
