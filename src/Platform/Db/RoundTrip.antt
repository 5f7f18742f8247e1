-- ===== src/Platform/Db/RoundTrip.antt =====
-- What the database gives back after a write.
use Prim.Native.String.{String}
use text.Mathlib.Text.{◌==◌ as str_eq}
use text.Mathlib.TextEquality.{eq_iff}
use text.Mathlib.TextPositions.{eq_refl}
use loadgen.Base.{◌≡◌, ◌&&◌, if◌then◌else◌, some, arith}
use loadgen.Platform.Assoc.{insert, lookup-insert}
use loadgen.Platform.Db.{Codec, found, Db, rows, stored, db_get}

module _ {R : Type 0} where
  pub stored-insert :
      (table table' id id' : String) (raw : R) (db : Db R)
      → stored table' id' (insert table (insert id raw (rows table db)) db)
        ≡ (if str_eq table table' && str_eq id id' then some raw else stored table' id' db)
  stored-insert table table' id id' raw db = ground (
    arith,
    lookup-insert table' table (insert id raw (rows table db)) db,
    lookup-insert id' id raw (rows table db),
    eq_iff table table',
  )

  pub stored-insert_self :
      (table id : String) (raw : R) (db : Db R)
      → stored table id (insert table (insert id raw (rows table db)) db) ≡ some raw
  stored-insert_self table id raw db =
      rw (stored-insert table table id id raw db, eq_refl table, eq_refl id)

  module _ {A : Type 0} ⦃c : Codec R A⦄ where
    pub db_get-stored :
        (table id : String) (db : Db R) (raw : R) (a : A)
        → stored table id db ≡ some raw
        → c.unmarshal raw ≡ some a
        → db_get table id db ≡ found a
    unfolding db_get
    db_get-stored table id db raw a h k = ground arith
