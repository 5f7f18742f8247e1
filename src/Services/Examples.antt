-- ===== src/Services/Examples.antt =====
-- The services at concrete inputs, with thousandths for the floats and records for their bytes.
use Prim.Native.String.{String}
use loadgen.Base.{ℕ, ◌≡◌, ◌==◌, refl, false, if◌then◌else◌, List, [], ◌∷◌, map, some, none, arith}
use loadgen.Base.Milli.{Milli, milli_float}
use loadgen.Platform.Db.{Codec, found, db_get}
use loadgen.Platform.Cache.{Faults, is_evicted}
use loadgen.SysState.Health.{is_active, fault_health, scaled_error_rate}
use loadgen.SysState.Incident.{forced_incident}
use loadgen.Services.Reply.{get_method, post_method, put_method, Reply, map_reply, json}
use loadgen.Services.User.{
  User, UserInput, Service, Call, merge, seeds, start_service, fill_cache, get_user, update_user,
  Request, simulate_db_error, users_request, user_request, serve_all,
}
use loadgen.Services.User.Spec.{Users, IsFresh, spec_serve, spec_serve_all}
use loadgen.Services.User.Represents.{
  Represents, IsLossless, start_service-Represents, cache_key_eq,
}
use loadgen.Services.User.Refines.{serve_all-refines}
use loadgen.Services.User.Stale.{IsSpared, update_user-overtaken}

instance abbrev user_codec : Codec User User
user_codec = record { marshal = λ u. some u; unmarshal = λ r. some r; bytes = λ u. u }

lossless : IsLossless user_codec
lossless = record { encodes = λ u. refl; decodes = λ u. refl }

abbrev calm : Faults Milli
calm = record { epoch_info = λ n. none; system = record { now = 5; forced = none; auto = false } }

abbrev dana : UserInput
dana = record { name = "Dana"; email = "dana@example.com" }

abbrev calling : Call Milli
calling = record {
  faults = calm;
  error_draw = some 500;
  evict_draw = some 500;
  id_draw = 42;
  listing = "2" ∷ "1" ∷ [];
  now = "2026-01-01T00:00:00Z";
  body = some dana;
}

spared : IsSpared calling
unfolding simulate_db_error is_evicted is_active fault_health scaled_error_rate forced_incident
spared = (refl, refl)

-- The text of the one number that is drawn here.
abbrev decimal_free : ℕ → String
decimal_free n = if n == 1042 then "1042" else ""

abbrev decimal_used : ℕ → String
decimal_used n = if n == 1042 then "2" else ""

abbrev bob : User
bob = record {
  id = "2";
  name = "Bob Smith";
  email = "bob@example.com";
  created_at = "2025-02-20T14:45:00Z";
}

abbrev some_users : Users
some_users = ("2", bob) ∷ []

abbrev seeded_users : Users
seeded_users = map (λ u. (u.id, u)) seeds

abbrev warm : Service User
warm = record { db = ("users", ("2", bob) ∷ []) ∷ []; cache = ("user:2", bob) ∷ [] }

abbrev cold : Service User
cold = record warm { cache = [] }

warm-Represents : Represents some_users warm
warm-Represents = record {
  table = refl;
  coherent = λ id raw k. ground (arith, cache_key_eq "2" id);
}

cold-Represents : Represents some_users cold
cold-Represents = record { table = refl; coherent = λ id raw k. cc }

abbrev requests : List (Request Milli)
requests =
    user_request get_method "2" calling
    ∷ users_request post_method calling
    ∷ user_request put_method "1042" calling
    ∷ user_request get_method "2" calling
    ∷ []

fresh :
    IsFresh decimal_free
      (users_request post_method calling)
      (spec_serve decimal_free (user_request get_method "2" calling) seeded_users).1
unfolding spec_serve simulate_db_error fault_health scaled_error_rate forced_incident
fresh = refl

serve_all-refines_example :
    serve_all decimal_free requests start_service
    ≡ map (map_reply (λ u. u)) (spec_serve_all decimal_free requests seeded_users)
serve_all-refines_example =
    serve_all-refines lossless decimal_free requests seeded_users start_service
      (start_service-Represents lossless) (tt, (fresh, (tt, (tt, tt))))

update_user-overtaken_example :
    let reply : User → Reply User = λ v. record { status = 200; body = json v } in
    let out = update_user calling "2" cold in
    let s' = fill_cache "2" bob out.1 in
    (get_user calling "2" cold ≡ (reply bob, fill_cache "2" bob cold))
    × (out.0 ≡ reply (merge dana bob))
    × (db_get "users" "2" s'.db ≡ found (merge dana bob))
    × ((get_user calling "2" s').0 ≡ reply bob)
update_user-overtaken_example =
    update_user-overtaken lossless calling calling calling dana "2" bob some_users cold
      cold-Represents spared spared spared refl refl refl
