-- ===== src/Health/Router.antt =====
-- server/rust/src/health.rs: the routes of the health endpoint, and the answer of each. Requests and
-- answers go through axum, which calls the handler of a route for a GET of just its path.
use tcpunch.Base.{ℕ, Name, List, [], ◌∷◌, Option, none, some, name_discrete}
use mathlib.Core.List.{lookup}
use tcpunch.Platform.{Platform}
use tcpunch.Platform.Redis.{RedisApi}
use tcpunch.Protocol.{PeerConnectionData}
use tcpunch.Registry.Json.{JsonApi}
use tcpunch.Registry.Redis.{codes, Link}
use tcpunch.Health.{HealthState, HealthResponse, readiness, health}
use tcpunch.Health.Prometheus.{prometheus_metrics}

pub data Body : Type 0 where
  empty_body : Body
  json_body : HealthResponse → Body
  -- With the header `content-type: text/plain; charset=utf-8`.
  text_body : Name → Body

pub record Reply : Type 0 where
  pub status_code : ℕ
  pub body : Body

-- `StatusCode::OK`
abbrev pub status_ok : ℕ
status_ok = 200

unfoldable pub liveness : Reply
liveness = record { status_code = status_ok; body = empty_body }

module _ (P : Platform PeerConnectionData) (R : RedisApi) (J : JsonApi P) where
  -- A handler reads the state, the clock, and the Redis server over a link.
  abbrev pub Handler : Type 0
  Handler = HealthState P R J → (now : ℕ) → (on_keys : Link) → Reply

  unfoldable pub health_router : List (Name × Handler)
  health_router =
      (codes "/livez", λ s now on_keys. liveness)
      ∷ (
        codes "/readyz",
        λ s now on_keys. record {
          status_code = status_ok;
          body = json_body (readiness P R J s now on_keys);
        },
      )
      ∷ (
        codes "/health",
        λ s now on_keys. record {
          status_code = status_ok;
          body = json_body (health P R J s now on_keys);
        },
      )
      ∷ (
        codes "/metrics",
        λ s now on_keys. record {
          status_code = status_ok;
          body = text_body (prometheus_metrics P R J s now on_keys);
        },
      )
      ∷ []

  -- What the route of the path answers, if there is one.
  abbrev pub reply_to : Name → HealthState P R J → (now : ℕ) → (on_keys : Link) → Option Reply
  reply_to path s now on_keys = elim (lookup name_discrete path health_router) [
    | none ↦ none
    | some handler ↦ some (handler s now on_keys)
  ]
