-- ===== src/Services/User/Stale.antt =====
-- When the cache of the user service keeps an old record: a created id that is in use, and an update
-- between the read and the cache write of another request.
use Prim.Native.String.{String}
use text.Mathlib.TextPositions.{eq_refl}
use loadgen.Base.{ℕ, ◌+◌, ◌≡◌, refl, sym, subst, ap, false, none, some, arith}
use loadgen.Base.Float.{Float64}
use loadgen.Platform.Assoc.{lookup, remove, lookup-insert}
use loadgen.Platform.Db.{Codec, found, db_get}
use loadgen.Platform.Db.RoundTrip.{db_get-stored, stored-insert_self}
use loadgen.Platform.Cache.{is_evicted, cache_get, cache_set, cache_delete}
use loadgen.Services.Reply.{Reply, json, write_json}
use loadgen.Services.User.{
  User, UserInput, Service, Call, cache_key, merge, simulate_db_error, fill_cache, get_user,
  insert_user, create_user, write_user, update_user,
}
use loadgen.Services.User.Spec.{Users, created_user}
use loadgen.Services.User.Represents.{
  Represents, IsLossless, fetch_found, written, db_insert_user, db_update_user,
}

-- Whether a call is spared the simulated errors and evictions.
abbrev pub IsSpared : {F : Type 0} ⦃d : Float64 F⦄ → Call F → Type 0
IsSpared call = (simulate_db_error call ≡ false) × (is_evicted call.faults call.evict_draw ≡ false)

module _ {R : Type 0} ⦃c : Codec R User⦄ (laws : IsLossless c) {F : Type 0} ⦃d : Float64 F⦄ where
  open laws use {encodes, decodes}

  read_cached :
      (call : Call F) (id : String) (raw : R) (s : Service R)
      → IsSpared call
      → lookup (cache_key id) s.cache ≡ some raw
      → (get_user call id s).0 ≡ record { status = 200; body = json raw }
  unfolding get_user cache_get
  read_cached call id raw s spared e = ground arith

  -- If the id that a creation draws is in use, and its record is cached, then the creation answers
  -- 201 with the new user and the database has the new user, but a later read of the id that no
  -- simulated fault meets answers with the old record.
  pub create_user-stale :
      (decimal : ℕ → String) (call later : Call F) (input : UserInput) (old : R) (us : Users)
      (s : Service R)
      → Represents us s
      → IsSpared call
      → IsSpared later
      → call.body ≡ some input
      → lookup (cache_key (decimal (1000 + call.id_draw))) s.cache ≡ some old
      → let u = created_user decimal call input in
        let out = create_user decimal call s in
        (out.0 ≡ record { status = 201; body = json (c.bytes u) })
        × (db_get "users" u.id out.1.db ≡ found u)
        × ((get_user later u.id out.1).0 ≡ record { status = 200; body = json old })
  unfolding create_user insert_user write_json
  create_user-stale decimal call later input old us s h spared spared' b e =
      let u = created_user decimal call input in
      let s' : Service R = record s { db = written laws h u.id u } in
      let out : create_user decimal call s
          ≡ (record { status = 201; body = json (c.bytes u) }, s') =
        ground (arith, encodes u, db_insert_user laws h u.id u) in
      rw out (
        refl,
        db_get-stored "users" u.id s'.db (c.bytes u) u
            (stored-insert_self "users" u.id (c.bytes u) s.db) (decodes u),
        read_cached later u.id old s' spared' e,
      )

  -- A read that misses the cache answers with the user of the database, and ends by writing it to
  -- the cache. If an update is handled between the two, the update answers 200 with the changed
  -- user and the database has it, but after the write a later read that no simulated fault meets
  -- answers with the user before the update.
  pub update_user-overtaken :
      (reader call later : Call F) (input : UserInput) (id : String) (u : User) (us : Users)
      (s : Service R)
      → Represents us s
      → IsSpared reader
      → IsSpared call
      → IsSpared later
      → call.body ≡ some input
      → lookup id us ≡ some u
      → lookup (cache_key id) s.cache ≡ none
      → let reply : User → Reply R = λ v. record { status = 200; body = json (c.bytes v) } in
        let out = update_user call id s in
        let s' = fill_cache id u out.1 in
        (get_user reader id s ≡ (reply u, fill_cache id u s))
        × (out.0 ≡ reply (merge input u))
        × (db_get "users" id s'.db ≡ found (merge input u))
        × ((get_user later id s').0 ≡ reply u)
  unfolding update_user write_user write_json fill_cache cache_set get_user cache_get cache_delete
  update_user-overtaken reader call later input id u us s h spared spared' spared'' b e miss =
      let v = merge input u in
      let reply_of : User → Reply R = λ w. record { status = 200; body = json (c.bytes w) } in
      let s' : Service R = record {
        db = written laws h id v;
        cache = remove (cache_key id) s.cache;
      } in
      let out : update_user call id s ≡ (record { status = 200; body = json (c.bytes v) }, s') =
        ground (arith, encodes v, fetch_found laws h id u e, db_update_user laws h id v u e) in
      let last = fill_cache id u s' in
      (
        ground (arith, encodes u, fetch_found laws h id u e),
        ap (λ o. o.0) out,
        rw out (
            db_get-stored "users" id s'.db (c.bytes v) v
              (stored-insert_self "users" id (c.bytes v) s.db) (decodes v)),
        subst
            (λ (o : Reply R × Service R). (get_user later id (fill_cache id u o.1)).0 ≡ reply_of u)
            (sym out)
            (read_cached later id (c.bytes u) last spared'' (
              ground (
                arith,
                lookup-insert (cache_key id) (cache_key id) (c.bytes u) s'.cache,
                eq_refl (cache_key id),
              ))),
      )
