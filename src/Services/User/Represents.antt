-- ===== src/Services/User/Represents.antt =====
-- How the user service stands for a table of users: the bytes in its database and its cache.
use Prim.Native.String.{String}
use text.Mathlib.Text.{◌==◌ as str_eq}
use text.Mathlib.TextEquality.{eq_iff}
use text.Mathlib.TextPositions.{eq_refl}
use text.Mathlib.TextLemmas.{append_cancel_left}
use mathlib.Core.Option
use loadgen.Base.{
  ◌≡◌, refl, sym, subst, ◌∙◌, ap, List, [], ◌∷◌, map, none, some, arith, inl, inr, Bool-cases,
  Option-cases,
}
use loadgen.Base.Float.{Float64}
use loadgen.Platform.Assoc.{Assoc, lookup, insert, remove, met, lookup-insert, lookup-remove}
use loadgen.Platform.Db.{
  Codec, Db, found, failed, DbError, rows, stored, db_get, db_insert, db_update,
}
use loadgen.Platform.Db.RoundTrip.{db_get-stored}
use loadgen.Platform.Cache.{cache_get}
use loadgen.Services.User.{
  User, Service, Call, cache_key, fill_cache, seeds, seed_users, start_service,
}
use loadgen.Services.User.Spec.{Users}

pub cache_key_eq : (a b : String) → str_eq (cache_key a) (cache_key b) ≡ str_eq a b
cache_key_eq a b = elim (Bool-cases (str_eq a b)) [
  | inl e ↦ rw ((eq_iff a b).0 e, eq_refl (cache_key b), eq_refl b)
  | inr e ↦ elim (Bool-cases (str_eq (cache_key a) (cache_key b))) [
    | inl k ↦
        let same : a ≡ b =
          append_cancel_left "user:" a b ((eq_iff (cache_key a) (cache_key b)).0 k) in
        ground (arith, eq_iff a b)
    | inr k ↦ cc
  ]
]

module _ {R : Type 0} ⦃c : Codec R User⦄ where
  -- The rows of the table: the bytes of the users.
  abbrev pub encoded : Users → Assoc R
  encoded [] = []
  encoded ((k, u) ∷ m) = (k, c.bytes u) ∷ encoded m

  pub lookup-encoded :
      (id : String) (us : Users) → lookup id (encoded us) ≡ Option.map c.bytes (lookup id us)
  lookup-encoded id [] = refl
  lookup-encoded id ((k, u) ∷ m) = ground (arith, lookup-encoded id m)

  insert-encoded :
      (id : String) (u : User) (us : Users)
      → insert id (c.bytes u) (encoded us) ≡ encoded (insert id u us)
  insert-encoded id u [] = refl
  insert-encoded id u ((k, v) ∷ m) = ground (arith, insert-encoded id u m, eq_iff k id)

  pub met-encoded :
      (order : List String) (us : Users) → met order (encoded us) ≡ map c.bytes (met order us)
  met-encoded [] us = refl
  met-encoded (k ∷ ks) us = ground (arith, lookup-encoded k us, met-encoded ks us)

  -- The table holds the users, and each entry of the cache is the bytes of the user that is stored.
  pub record Represents (us : Users) (s : Service R) : Type 0 where
    pub table : rows "users" s.db ≡ encoded us
    pub coherent :
        (id : String) (raw : R)
        → lookup (cache_key id) s.cache ≡ some raw
        → lookup id (encoded us) ≡ some raw

-- Every user is encoded, and decoded to itself.
pub record IsLossless {R : Type 0} (c : Codec R User) : Type 0 where
  pub encodes : (u : User) → c.marshal u ≡ some (c.bytes u)
  pub decodes : (u : User) → c.unmarshal (c.bytes u) ≡ some u

module _ {R : Type 0} ⦃c : Codec R User⦄ (laws : IsLossless c) where
  open laws use {encodes, decodes}

  module _ {us : Users} {s : Service R} (h : Represents us s) where
    pub fetch_found :
        (id : String) (u : User) → lookup id us ≡ some u → db_get "users" id s.db ≡ found u
    fetch_found id u e =
        db_get-stored "users" id s.db (c.bytes u) u
          (ap (lookup id) h.table ∙ lookup-encoded id us ∙ ap (Option.map c.bytes) e) (decodes u)

    pub fetch_missing :
        (id : String)
        → lookup id us ≡ none
        → (e : DbError) × (db_get {A = User} "users" id s.db ≡ failed e)
    unfolding db_get
    fetch_missing id e =
        let gone : stored "users" id s.db ≡ none =
          ap (lookup id) h.table ∙ lookup-encoded id us ∙ ap (Option.map c.bytes) e in
        elim (Option-cases (lookup "users" s.db)) [
          | inl k ↦ (DbError.table_not_found, ground arith)
          | inr (tbl, k) ↦ (DbError.record_not_found, ground arith)
        ]

    pub fill-Represents :
        (id : String) (u : User) → lookup id us ≡ some u → Represents us (fill_cache id u s)
    unfolding fill_cache
    fill-Represents id u e = record {
      table = h.table;
      coherent = λ j raw k. ground (
        arith,
        h.coherent j raw,
        lookup-insert (cache_key j) (cache_key id) (c.bytes u) s.cache,
        cache_key_eq id j,
        eq_iff id j,
        lookup-encoded {R = R} ⦃c = c⦄ j us,
      );
    }

    pub put-Represents :
        (id : String) (u : User) (db : Db R)
        → rows "users" db ≡ insert id (c.bytes u) (rows "users" s.db)
        → Represents (insert id u us) (record { db = db; cache = remove (cache_key id) s.cache })
    put-Represents id u db e = record {
      table = e ∙ ap (insert id (c.bytes u)) h.table ∙ insert-encoded id u us;
      coherent = λ j raw k. ground (
        arith,
        h.coherent j raw,
        lookup-remove (cache_key j) (cache_key id) s.cache,
        cache_key_eq id j,
        insert-encoded {R = R} ⦃c = c⦄ id u us,
        lookup-insert j id (c.bytes u) (encoded {R = R} ⦃c = c⦄ us),
      );
    }

    -- A user that was not in the table is not in the cache either.
    pub post-Represents :
        (id : String) (u : User) (db : Db R)
        → lookup id us ≡ none
        → rows "users" db ≡ insert id (c.bytes u) (rows "users" s.db)
        → Represents (insert id u us) (record s { db = db })
    post-Represents id u db fresh e = record {
      table = e ∙ ap (insert id (c.bytes u)) h.table ∙ insert-encoded id u us;
      coherent = λ j raw k. ground (
        arith,
        h.coherent j raw,
        eq_iff id j,
        lookup-encoded {R = R} ⦃c = c⦄ j us,
        insert-encoded {R = R} ⦃c = c⦄ id u us,
        lookup-insert j id (c.bytes u) (encoded {R = R} ⦃c = c⦄ us),
      );
    }

    pub cached :
        {F : Type 0} ⦃d : Float64 F⦄ (call : Call F) (id : String) (raw : R)
        → cache_get call.faults call.evict_draw (cache_key id) s.cache ≡ some raw
        → (u : User) × (lookup id us ≡ some u) × (raw ≡ c.bytes u)
    unfolding cache_get
    cached call id raw k =
        let there : lookup (cache_key id) s.cache ≡ some raw = ground arith in
        elim (Option-cases (lookup id us)) [
          | inl e ↦ ground (arith, h.coherent id raw, lookup-encoded {R = R} ⦃c = c⦄ id us)
          | inr (u, e) ↦
              (u, e, ground (arith, h.coherent id raw, lookup-encoded {R = R} ⦃c = c⦄ id us))
        ]

    pub rows-insert : (tbl : Assoc R) → rows "users" (insert "users" tbl s.db) ≡ tbl
    rows-insert tbl = ground (arith, lookup-insert "users" "users" tbl s.db, eq_refl "users")

    -- The database after a write of a user.
    abbrev pub written : String → User → Db R
    written id u = insert "users" (insert id (c.bytes u) (rows "users" s.db)) s.db

    pub db_insert_user :
        (id : String) (u : User) → db_insert "users" id u s.db ≡ (none, written id u)
    unfolding db_insert
    db_insert_user id u = ground (arith, encodes u)

    pub db_update_user :
        (id : String) (u v : User)
        → lookup id us ≡ some v
        → db_update "users" id u s.db ≡ (none, written id u)
    unfolding db_update
    db_update_user id u v e =
        let there : stored "users" id s.db ≡ some (c.bytes v) =
          ap (lookup id) h.table ∙ lookup-encoded id us ∙ ap (Option.map c.bytes) e in
        ground (arith, encodes u)

  abbrev inserted : List User → Users → Users
  inserted [] m = m
  inserted (u ∷ l) m = inserted l (insert u.id u m)

  seed_users-encoded :
      (l : List User) (m : Users) (db : Db R)
      → rows "users" db ≡ encoded m
      → rows "users" (seed_users l db) ≡ encoded (inserted l m)
  unfolding seed_users
  seed_users-encoded [] m db e = e
  seed_users-encoded (u ∷ l) m db e =
      let s : Service R = record { db = db; cache = [] } in
      let h : Represents m s = record { table = e; coherent = λ id raw k. cc } in
      let next : rows "users" (written h u.id u) ≡ encoded (insert u.id u m) =
        rows-insert h _ ∙ ap (insert u.id (c.bytes u)) e ∙ insert-encoded u.id u m in
      subst
        (λ (db' : Db R). rows "users" (seed_users l db') ≡ encoded (inserted l (insert u.id u m)))
        (sym (ap (λ o. o.1) (db_insert_user h u.id u)))
        (seed_users-encoded l (insert u.id u m) (written h u.id u) next)

  -- The service as it starts holds its three users.
  pub start_service-Represents : Represents (map (λ u. (u.id, u)) seeds) (start_service {R = R})
  unfolding start_service
  start_service-Represents = record {
    table = seed_users-encoded seeds [] [] refl;
    coherent = λ id raw k. cc;
  }
