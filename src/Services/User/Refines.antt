-- ===== src/Services/User/Refines.antt =====
-- The user service answers as its specification does.
use Prim.Native.String.{String}
use text.Mathlib.Text.{◌==◌ as str_eq}
use loadgen.Base.{
  ℕ, ◌+◌, ◌≡◌, refl, sym, subst, ap, true, false, if◌then◌else◌, List, [], ◌∷◌, map, none, arith,
  inl, inr, Bool-cases, Option-cases,
}
use loadgen.Base.Float.{Float64}
use loadgen.Platform.Assoc.{lookup, insert, remove, met}
use loadgen.Platform.Db.{Codec, db_list}
use loadgen.Platform.Cache.{cache_get}
use loadgen.Services.Reply.{
  Method, get_method, post_method, put_method, other_method, Reply, Body, map_reply, http_error,
  write_json,
}
use loadgen.Services.User.{
  User, Service, Call, cache_key, merge, simulate_db_error, fill_cache, list_users, get_user,
  insert_user, create_user, write_user, update_user, users_handler, user_by_id_handler, Request,
  users_request, user_request, serve, serve_all,
}
use loadgen.Services.User.Represents.{
  Represents, IsLossless, met-encoded, fetch_found, fetch_missing, fill-Represents, rows-insert,
  written, db_insert_user, db_update_user, put-Represents, post-Represents, cached,
}
use loadgen.Services.User.Spec.{
  Users, created_user, answer, unless_error, spec_get, spec_put, spec_post, spec_by_method,
  spec_serve, spec_serve_all, IsFresh, AllFresh,
}

-- An answer and a state of the service, for those of the specification.
record Agrees {R : Type 0} ⦃c : Codec R User⦄ (out : Reply R × Service R)
    (spec : Reply User × Users) : Type 0 where
  same : out.0 ≡ map_reply c.bytes spec.0
  state : Represents spec.1 out.1

module _ {R : Type 0} ⦃c : Codec R User⦄ (laws : IsLossless c) where
  open laws use {encodes, decodes}

  module _ {us : Users} {s : Service R} (h : Represents us s) where
    -- Both outcomes in closed form.
    agree :
        {out : Reply R × Service R} {spec : Reply User × Users} (q : Reply User) (us' : Users)
        (s' : Service R)
        → out ≡ (map_reply c.bytes q, s')
        → spec ≡ (q, us')
        → Represents us' s'
        → Agrees out spec
    agree q us' s' e k r = rw (e, k) (record { same = refl; state = r })

    module _ {F : Type 0} ⦃d : Float64 F⦄ (call : Call F) where
      get_user-Agrees :
          (id : String)
          → simulate_db_error call ≡ false
          → Agrees (get_user call id s) (spec_get id us)
      unfolding get_user write_json
      get_user-Agrees id ok =
          elim (Option-cases (cache_get call.faults call.evict_draw (cache_key id) s.cache)) [
            | inr (raw, hit) ↦
                let (u, e, b) = cached laws h call id raw hit in
                agree (answer 200 u) us s (ground arith) (ground arith) h
            | inl miss ↦ elim (Option-cases (lookup id us)) [
              | inl e ↦
                  let (err, k) = fetch_missing laws h id e in
                  agree (http_error 404 "user not found") us s (ground arith) (ground arith) h
              | inr (u, e) ↦
                  agree (answer 200 u) us (fill_cache id u s)
                    (ground (arith, fetch_found laws h id u e, encodes u)) (ground arith)
                    (fill-Represents laws h id u e)
            ]
          ]

      update_user-Agrees :
          (id : String)
          → simulate_db_error call ≡ false
          → Agrees (update_user call id s) (spec_put call.body id us)
      unfolding update_user write_user write_json
      update_user-Agrees id ok = elim (Option-cases (lookup id us)) [
        | inl e ↦
            let (err, k) = fetch_missing laws h id e in
            agree (http_error 404 "user not found") us s (ground arith) (ground arith) h
        | inr (u, e) ↦ elim (Option-cases call.body) [
          | inl k ↦
              agree (http_error 400 "invalid request body") us s
                (ground (arith, fetch_found laws h id u e)) (ground arith) h
          | inr (input, k) ↦
              let v = merge input u in
              agree (answer 200 v) (insert id v us)
                (record { db = written laws h id v; cache = remove (cache_key id) s.cache })
                (ground
                  (arith, fetch_found laws h id u e, encodes v, db_update_user laws h id v u e))
                (ground arith)
                (put-Represents laws h id v (written laws h id v) (rows-insert laws h _))
        ]
      ]

      create_user-Agrees :
          (decimal : ℕ → String)
          → simulate_db_error call ≡ false
          → lookup (decimal (1000 + call.id_draw)) us ≡ none
          → Agrees (create_user decimal call s) (spec_post decimal call us)
      unfolding create_user insert_user write_json
      create_user-Agrees decimal ok fresh = elim (Option-cases call.body) [
        | inl k ↦ agree (http_error 400 "invalid request body") us s (ground arith) (ground arith) h
        | inr (input, k) ↦
            let u = created_user decimal call input in
            agree (answer 201 u) (insert u.id u us) (record s { db = written laws h u.id u })
              (ground (arith, encodes u, db_insert_user laws h u.id u)) (ground arith)
              (post-Represents laws h u.id u (written laws h u.id u) fresh (rows-insert laws h _))
      ]

    module _ {F : Type 0} ⦃d : Float64 F⦄ where
      -- Behind the draw that makes a request fail.
      guarded :
          (call : Call F) {out : Reply R × Service R} {spec : Reply User × Users}
          → (simulate_db_error call ≡ true → out ≡ (http_error 500 "internal server error", s))
          → (simulate_db_error call ≡ false → Agrees out spec)
          → Agrees out (unless_error call us spec)
      guarded call fails works = elim (Bool-cases (simulate_db_error call)) [
        | inl e ↦ agree (http_error 500 "internal server error") us s (fails e) (ground arith) h
        | inr ok ↦ rw ok (works ok)
      ]

      by_id-Agrees :
          (m : Method) (call : Call F) (id : String)
          → str_eq id "" ≡ false
          → Agrees (user_by_id_handler m id call s) (spec_by_method m call id us)
      unfolding user_by_id_handler get_user update_user
      by_id-Agrees get_method call id e =
          rw e (guarded call (λ k. ground arith) (get_user-Agrees call id))
      by_id-Agrees put_method call id e =
          rw e (guarded call (λ k. ground arith) (update_user-Agrees call id))
      by_id-Agrees post_method call id e = rw e (record { same = refl; state = h })
      by_id-Agrees (other_method m) call id e = rw e (record { same = refl; state = h })

      serve-Agrees :
          (decimal : ℕ → String) (q : Request F)
          → IsFresh decimal q us
          → Agrees (serve decimal q s) (spec_serve decimal q us)
      unfolding serve spec_serve users_handler user_by_id_handler list_users db_list create_user
      serve-Agrees decimal (users_request get_method call) fresh =
          guarded call (λ k. ground arith)
            (λ ok.
              agree (record { status = 200; body = Body.rows (met call.listing us) }) us s
                (ground (
                  arith,
                  ap (met call.listing) h.table,
                  met-encoded {R = R} ⦃c = c⦄ call.listing us,
                ))
                refl h)
      serve-Agrees decimal (users_request post_method call) fresh =
          guarded call (λ k. ground arith) (λ ok. create_user-Agrees call decimal ok fresh)
      serve-Agrees decimal (users_request put_method call) fresh = record { same = refl; state = h }
      serve-Agrees decimal (users_request (other_method m) call) fresh = record {
        same = refl;
        state = h;
      }
      serve-Agrees decimal (user_request m id call) fresh = elim (Bool-cases (str_eq id "")) [
        | inl e ↦ agree (http_error 400 "missing user id") us s (ground arith) (ground arith) h
        | inr e ↦
            subst
              (λ b.
                Agrees (user_by_id_handler m id call s) (
                  if b
                  then (http_error 400 "missing user id", us)
                  else spec_by_method m call id us))
              (sym e) (by_id-Agrees m call id e)
      ]

  -- If encoding/json loses nothing of a user, and no created id is in use, then the answers to any
  -- list of requests, one after another, are those of a table of users without a cache, whatever
  -- the cache holds of it, the incidents do and the draws are, and in whatever order each listing
  -- meets the ids, if the table is listed in the same order.
  pub serve_all-refines :
      {F : Type 0} ⦃d : Float64 F⦄ (decimal : ℕ → String) (qs : List (Request F)) (us : Users)
      (s : Service R)
      → Represents us s
      → AllFresh decimal qs us
      → serve_all decimal qs s ≡ map (map_reply c.bytes) (spec_serve_all decimal qs us)
  unfolding serve_all spec_serve_all
  serve_all-refines decimal [] us s h fresh = refl
  serve_all-refines decimal (q ∷ qs) us s h fresh =
      let one = serve-Agrees h decimal q fresh.0 in
      let rest = serve_all-refines decimal qs _ _ one.state fresh.1 in cc (one.same, rest)
