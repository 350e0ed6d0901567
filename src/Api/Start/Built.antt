-- ===== src/Api/Start/Built.antt =====
-- When the server's state can be built, and what it is ready for.
use rust_v.Prelude.{
  String, ◌≡◌, ◌≢◌, refl, ap, sym, ◌↔◌, Bool, true, false, Option, none, some, Result, ok, err,
  bind-ok, ok-injective, arith,
}
use rust_v.Shared.Config.{ServerConfig}
use rust_v.Outbound.Analytics.{Settings}
use rust_v.Api.Start.{
  Stack, AppState, auth_settings, build_auth, build_state, map_err, state_of, caught_up, ready,
  readiness,
}

module _ (stack : Stack) (env : String → Option String) (builds : Settings → Bool) where
  map_err-ok :
      {A : Type 0} (f : String → String) (r : Result String A) {a : A}
      → map_err f r ≡ ok a
      → r ≡ ok a
  map_err-ok f (ok a) h = h
  map_err-ok f (err e) h = absurd (ground arith)

  -- Both fatal parts were built; the worker is there exactly where it could be started.
  pub record IsBuilt (config : ServerConfig) (state : AppState stack) : Type 0 where
    pub clients : stack.Clients
    pub auth : stack.Auth
    pub made :
        stack.make_clients config.allsource_core_url config.allsource_query_url
          config.allsource_api_key
        ≡ ok clients
    pub authenticated : stack.make_auth (auth_settings config) ≡ ok auth
    pub assembled : state ≡ state_of stack env builds config clients auth

  -- The state is built exactly if the clients of AllSource can be made and better-auth accepts the
  -- configuration; a worker that does not start, a missing key for email and a missing key for
  -- analytics do not matter.
  build_state-IsBuilt :
      (config : ServerConfig) (state : AppState stack)
      → (build_state stack env builds config ≡ ok state) ↔ IsBuilt config state
  unfolding build_state
  build_state-IsBuilt config state = (
    λ h.
        let (clients, h1, k1) = bind-ok (map_err _ _) h in
        let (auth, h2, k2) = bind-ok (map_err _ (build_auth stack config)) k1 in
        record {
          clients = clients;
          auth = auth;
          made = map_err-ok _ _ h1;
          authenticated = map_err-ok _ _ (map_err-ok _ _ h2);
          assembled = sym (ok-injective k2);
        },
    λ b. rw (b.made, b.authenticated) (ap (λ s. ok s) (sym b.assembled)),
  )

module _ (stack : Stack) where
  readiness_iff :
      (reachable : Bool) (caught : Option Bool)
      → ((readiness stack reachable caught).0 ≡ 200) ↔ ((reachable ≡ true) × (caught ≢ some false))
  readiness_iff false caught = (λ h. absurd (omega (arith, h)), λ h. absurd (ground (arith, h.0)))
  readiness_iff true none = (λ h. (refl, λ e. ground arith), λ h. refl)
  readiness_iff true (some true) = (λ h. (refl, λ e. ground arith), λ h. refl)
  readiness_iff true (some false) = (λ h. absurd (omega (arith, h)), λ h. absurd (h.1 refl))

  -- The instance asks for traffic exactly if Core answers and the worker, where it runs, has caught
  -- up.
  ready_iff :
      (state : AppState stack) (reachable : Bool)
      → ((ready stack state reachable).0 ≡ 200)
        ↔ ((reachable ≡ true) × (caught_up stack state.posts ≢ some false))
  unfolding ready
  ready_iff state reachable = readiness_iff reachable (caught_up stack state.posts)
