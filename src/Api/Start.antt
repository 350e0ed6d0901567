-- ===== src/Api/Start.antt =====
-- apps/api/src: `build_auth`, `build_state`, the periodic job, the probes and `main`. The clients of
-- AllSource, better-auth, the worker and the sockets are parameters; what is logged is left out.
pub mod Built
pub mod Stopped
use Prim.Native.String
use rust_v.Prelude.{
  ℕ, String, Bool, true, false, not, ◌&&◌, Option, none, some, List, [], ◌∷◌, ◌++◌, map, Result, ok,
  err, ◌>>=◌, if◌then◌else◌,
}
use rust_v.Shared.Config.{ServerConfig, ConfigError}
use rust_v.Outbound.Email.{Mailer}
use rust_v.Outbound.Analytics.{Analytics, Settings}
use rust_v.Outbound.Email
use rust_v.Outbound.Analytics

-- What better-auth is given.
pub record AuthSettings : Type 0 where
  pub secret : String
  pub app_name : String
  pub base_url : String
  pub password_min_length : ℕ
  pub trusted_origins : List String
  pub signup : Bool
  pub sessions : Bool

unfoldable pub auth_settings : ServerConfig → AuthSettings
auth_settings config = record {
  secret = config.jwt_secret;
  app_name = "rust-v2";
  base_url = config.auth_base_url;
  password_min_length = 8;
  trusted_origins = config.cors_origins;
  signup = true;
  sessions = true;
}

abbrev pub map_err {ℓ} : {A : Type ℓ} → (String → String) → Result String A → Result String A
map_err f (ok a) = ok a
map_err f (err e) = err (f e)

abbrev pub ok_part {ℓ} : {A : Type ℓ} → Result String A → Option A
ok_part (ok a) = some a
ok_part (err e) = none

-- The types of AllSource's clients, of the authentication stack and of the worker's handle.
pub record Stack : Type 1 where
  pub Clients : Type 0
  pub Auth : Type 0
  pub Handle : Type 0
  pub make_clients : (core query key : String) → Result String Clients
  pub make_auth : AuthSettings → Result String Auth
  pub start_worker : Clients → Result String Handle
  pub is_caught_up : Handle → Bool

module _ (stack : Stack) where
  pub record AppState : Type 0 where
    pub allsource : stack.Clients
    pub posts : Option stack.Handle
    pub auth : stack.Auth
    pub cors_origins : List String
    pub per_second : ℕ
    pub burst : ℕ
    pub trusted_proxy_hops : ℕ
    pub analytics : Analytics
    pub mailer : Mailer

  unfoldable pub build_auth : ServerConfig → Result String stack.Auth
  unfolding auth_settings
  build_auth config =
      map_err (String.◌++◌ "better-auth rejected the configuration: ")
        (stack.make_auth (auth_settings config))

  module _ (env : String → Option String) (builds : Settings → Bool) where
    abbrev state_of : ServerConfig → stack.Clients → stack.Auth → AppState
    state_of config allsource auth = record {
      allsource = allsource;
      posts = ok_part (stack.start_worker allsource);
      auth = auth;
      cors_origins = config.cors_origins;
      per_second = 60;
      burst = 120;
      trusted_proxy_hops = config.trusted_proxy_hops;
      analytics = Analytics.from_env builds env;
      mailer = Email.from_env env;
    }

    -- A worker that does not start leaves the state without its handle.
    unfoldable pub build_state : ServerConfig → Result String AppState
    unfolding build_auth
    build_state config = do
      allsource ← map_err (String.◌++◌ "could not construct AllSource clients: ") (
          stack.make_clients config.allsource_core_url config.allsource_query_url
            config.allsource_api_key)
      auth ← map_err (String.◌++◌ "could not build the auth stack: ") (build_auth config)
      ok (state_of config allsource auth)

  -- `posts_handle().map(is_caught_up)`
  abbrev pub caught_up : Option stack.Handle → Option Bool
  caught_up none = none
  caught_up (some handle) = some (stack.is_caught_up handle)

  pub record Readiness : Type 0 where
    pub is_ready : Bool
    pub allsource_reachable : Bool
    pub projection_caught_up : Option Bool

  -- `projection_caught_up != Some(false)`
  abbrev not_behind : Option Bool → Bool
  not_behind none = true
  not_behind (some caught) = caught

  abbrev readiness : Bool → Option Bool → ℕ × Readiness
  readiness reachable caught =
      let is_ready = reachable && not_behind caught in
      (
        if is_ready then 200 else 503,
        record {
          is_ready = is_ready;
          allsource_reachable = reachable;
          projection_caught_up = caught;
        },
      )

  -- `ready`, given whether Core answered.
  unfoldable pub ready : AppState → Bool → ℕ × Readiness
  ready state reachable = readiness reachable (caught_up state.posts)

  abbrev gauge_of : Bool → ℕ
  gauge_of b = if b then 1 else 0

  abbrev caught_up_gauge : Option Bool → List (String × ℕ)
  caught_up_gauge none = []
  caught_up_gauge (some caught) = ("projection_caught_up", gauge_of caught) ∷ []

  -- A run of the job `dependency_health`: the gauges that it sets.
  unfoldable pub dependency_health : AppState → Bool → List (String × ℕ)
  dependency_health state reachable =
      ("allsource_reachable", gauge_of reachable) ∷ caught_up_gauge (caught_up state.posts)

-- `health`
unfoldable pub health : String → ℕ × (String × String)
health version = (200, ("ok", version))

-- The stages of `main`, as they begin or end.
pub data Stage : Type 0 where
  logging_on metrics_on configured state_built jobs_started bound served : Stage
  jobs_stopped analytics_flushed logging_off : Stage

-- How each stage that may fail ends.
pub record Boot : Type 0 where
  pub metrics : Result String (Unit {0})
  pub config : Result String (Unit {0})
  pub state : Result String (Unit {0})
  pub bind : Result String (Unit {0})
  pub serve : Result String (Unit {0})

abbrev pub Staged : Type 0
Staged = List Stage × Result String (Unit {0})

-- A stage, and what follows where it succeeds.
unfoldable pub stage : Result String (Unit {0}) → Stage → Staged → Staged
stage (ok done) name (rest, result) = (name ∷ rest, result)
stage (err e) name later = ([], err e)

-- `main`: each `?` leaves at once.
unfoldable pub main : Boot → Staged
main boot = stage (ok tt) logging_on (
    stage boot.metrics metrics_on (
      stage boot.config configured (
        stage boot.state state_built (
          stage (ok tt) jobs_started (
            stage boot.bind bound (
              stage boot.serve served
                (jobs_stopped ∷ analytics_flushed ∷ logging_off ∷ [], ok tt)))))))
