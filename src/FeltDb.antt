-- ===== src/FeltDb.antt =====
-- The versioned collections of @feltdb/core, which the package uses and does not contain. `S` is
-- the state of the world. Any call may throw.
use appport_services.Common.{ℕ, ◌+◌, ◌≤◌, ◌≡◌, ◌≢◌, String, Bool, Option, some, List}
use appport_services.Exec.{Exec, ok}

-- `update_if_version` merges an update into the record if it has the version that is expected, and
-- returns the merged record with its new version, or nothing. `insert_absent` is a transaction of
-- one operation with `requireAbsent`; it throws a conflict if there is a record.
pub record Collection (S T : Type 0) : Type 0 where
  pub get : String → Exec S (Option T)
  pub find : (T → Bool) → Exec S (List T)
  pub update_if_version : String → ℕ → (T → T) → Exec S (Option T)
  pub insert_absent : String → T → Exec S (Unit {0})

-- What the documentation of FeltDB says of compare-and-set: an update that succeeds leaves the
-- record that it returns, one version further; an update of a record at another version does
-- nothing; and no update takes a record back to an earlier version.
pub record HasVersions {S T : Type 0} (c : Collection S T) (version : T → ℕ) : Type 0 where
  pub updated :
      (id : String) (v : ℕ) (f : T → T) (s : S) (item : T)
      → (c.update_if_version id v f s).0 ≡ ok (some item)
      → (version item ≡ v + 1) × ((c.get id (c.update_if_version id v f s).1).0 ≡ ok (some item))
  pub stale :
      (id : String) (v : ℕ) (f : T → T) (s : S) (item : T)
      → (c.get id s).0 ≡ ok (some item)
      → version item ≢ v
      → (i : T) → (c.update_if_version id v f s).0 ≢ ok (some i)
  pub monotone :
      (id j : String) (v : ℕ) (f : T → T) (s : S) (item : T)
      → (c.get id s).0 ≡ ok (some item)
      → (item' : T) × ((c.get id (c.update_if_version j v f s).1).0 ≡ ok (some item'))
        × (version item ≤ version item')
