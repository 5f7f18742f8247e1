-- ===== src/Platform/Db.antt =====
-- internal/platform/platform.go: the database. A record is kept as the bytes that encoding/json
-- gives, of a type `R`; the encoding of the records of a type is the interface `Codec`.
pub mod RoundTrip
use Prim.Native.String.{String}
use text.Mathlib.Text.{◌==◌ as str_eq}
use loadgen.Base.{
  ◌≡◌, refl, Bool, ◌&&◌, if◌then◌else◌, List, [], ◌∷◌, Option, none, some, arith, Option-cases, inl,
  inr,
}
use loadgen.Platform.Assoc.{Assoc, lookup, insert, met, lookup-insert}

-- `json.Marshal`, which fails on what JSON cannot express, and `json.Unmarshal`.
pub record Codec (R A : Type 0) : Type 0 where
  pub marshal : A → Option R
  pub unmarshal : R → Option A
  -- What `raw, _ := json.Marshal(a)` leaves: on an error, `nil`.
  pub bytes : A → R

-- What is encoded is decoded to the same record.
pub record IsFaithful {R A : Type 0} (c : Codec R A) : Type 0 where
  pub bytes_marshal : (a : A) (r : R) → c.marshal a ≡ some r → c.bytes a ≡ r
  pub decoded : (a : A) (r : R) → c.marshal a ≡ some r → c.unmarshal r ≡ some a

pub data DbError : Type 0 where
  marshal_failed table_not_found record_not_found decode_failed : DbError

pub data Fetched (A : Type 0) : Type 0 where
  found : A → Fetched A
  failed : DbError → Fetched A

-- Tables, and their records by id.
abbrev pub Db : Type 0 → Type 0
Db R = Assoc (Assoc R)

abbrev pub new_db : {R : Type 0} → Db R
new_db = []

module _ {R : Type 0} where
  -- The table of a name, empty where it is missing.
  abbrev pub rows : String → Db R → Assoc R
  rows table db = elim (lookup table db) [ none ↦ [] | some tbl ↦ tbl ]

  -- The bytes that stand under an id.
  abbrev pub stored : String → String → Db R → Option R
  stored table id db = lookup id (rows table db)

  -- `List`, for the order in which this iteration of the map meets the ids: a missing table has no
  -- rows.
  unfoldable pub db_list : List String → String → Db R → List R
  db_list order table db = met order (rows table db)

  module _ {A : Type 0} ⦃c : Codec R A⦄ where
    -- The error, if any, and the database after it.
    unfoldable pub db_insert : String → String → A → Db R → Option DbError × Db R
    db_insert table id record_value db = elim (c.marshal record_value) [
      | none ↦ (some marshal_failed, db)
      | some raw ↦ (none, insert table (insert id raw (rows table db)) db)
    ]

    unfoldable pub db_get : String → String → Db R → Fetched A
    db_get table id db = elim (lookup table db) [
      | none ↦ failed table_not_found
      | some tbl ↦ elim (lookup id tbl) [
        | none ↦ failed record_not_found
        | some raw ↦ elim (c.unmarshal raw) [ none ↦ failed decode_failed | some a ↦ found a ]
      ]
    ]

    unfoldable pub db_update : String → String → A → Db R → Option DbError × Db R
    db_update table id record_value db = elim (c.marshal record_value) [
      | none ↦ (some marshal_failed, db)
      | some raw ↦ elim (lookup table db) [
        | none ↦ (some record_not_found, db)
        | some tbl ↦ elim (lookup id tbl) [
          | none ↦ (some record_not_found, db)
          | some _ ↦ (none, insert table (insert id raw tbl) db)
        ]
      ]
    ]
