-- ===== src/Health/Scrape.antt =====
-- A scraper of the metrics text, and what it reads (server/rust/src/health.rs).
use Prim.Native.String.{String}
use tcpunch.Base.{
  ℕ, List, [], ◌∷◌, ◌++◌, Name, Option, none, some, ◌≡◌, ◌≢◌, ◌∙◌, refl, ap, sym, ◌==◌, ==_iff,
  if◌then◌else◌, All, All-append, arith, ◌-◌, ◌/◌, true, false, Bool, Bool-cases, inl, inr,
  true-ne-false, drop,
}
use tcpunch.Base.Decimal.{decimal, parse_decimal, parse_decimal-decimal, All-decimal}
use tcpunch.Platform.{Platform}
use tcpunch.Platform.Redis.{RedisApi}
use tcpunch.Protocol.{PeerConnectionData}
use tcpunch.Registry.Json.{JsonApi}
use tcpunch.Registry.Redis.{codes, Link}
use tcpunch.Registry.Dispatch.{active_count}
use tcpunch.Server.Metrics.{snapshot}
use tcpunch.Health.{HealthState}
use tcpunch.Health.Prometheus.{
  newline, unlines, labelled, Metric, metrics_of, help_line, type_line, sample_line, format_lines,
  prometheus_metrics,
}

abbrev pub extend : ℕ → List Name → List Name
extend c [] = (c ∷ []) ∷ []
extend c (l ∷ ls) = (c ∷ l) ∷ ls

-- The lines of a text.
abbrev pub lines : Name → List Name
lines [] = []
lines (c ∷ cs) = let rest = lines cs in if c == newline then [] ∷ rest else extend c rest

abbrev pub strip_prefix : Name → Name → Option Name
strip_prefix [] l = some l
strip_prefix (a ∷ p) [] = none
strip_prefix (a ∷ p) (b ∷ l) = let rest = strip_prefix p l in if a == b then rest else none

-- The value of the first line that begins with the prefix.
abbrev pub find_value : Name → List Name → Option ℕ
find_value p [] = none
find_value p (l ∷ ls) = elim (strip_prefix p l) [
  | some value ↦ parse_decimal value
  | none ↦ find_value p ls
]

-- What a scraper reads as the value of a metric.
abbrev pub scrape : String → (server_id : Name) → (text : Name) → Option ℕ
scrape name server_id text = find_value (labelled (codes name) server_id) (lines text)

abbrev IsLine : Name → Type 0
IsLine l = All (λ c. c ≢ newline) l

strip_prefix-append : (p v : Name) → strip_prefix p (p ++ v) ≡ some v
strip_prefix-append [] v = refl
strip_prefix-append (a ∷ p) v = rw ((==_iff a a).1 refl) (strip_prefix-append p v)

lines-append : (l rest : Name) → IsLine l → lines (l ++ newline ∷ rest) ≡ l ∷ lines rest
lines-append [] rest h = refl
lines-append (c ∷ l) rest (h, more) =
    let e : (c == newline) ≡ false = ground arith in rw (e, lines-append l rest more) refl

lines-unlines : (ls : List Name) → All IsLine ls → lines (unlines ls) ≡ ls
lines-unlines [] h = refl
lines-unlines (l ∷ ls) (h, more) =
    lines-append l (unlines ls) h ∙ ap (λ x. l ∷ x) (lines-unlines ls more)

find_value-head :
    (p : Name) (n : ℕ) (ls : List Name) → find_value p ((p ++ decimal n) ∷ ls) ≡ some n
find_value-head p n ls =
    rw (strip_prefix-append p (decimal n), find_value) (parse_decimal-decimal n)

-- No newline stands in an ASCII text that has none.
abbrev is_line : Name → Bool
is_line [] = true
is_line (c ∷ cs) = let rest = is_line cs in if c == newline then false else rest

is_line-IsLine : (l : Name) → is_line l ≡ true → IsLine l
is_line-IsLine [] h = tt
is_line-IsLine (c ∷ cs) h = elim (Bool-cases (c == newline)) [
  | inl e ↦ absurd (true-ne-false (sym h ∙ rw e refl))
  | inr e ↦
      (λ same. true-ne-false (sym ((==_iff c newline).1 same) ∙ e), is_line-IsLine cs (rw e at h))
]

join-IsLine : (a b : Name) → IsLine a → IsLine b → IsLine (a ++ b)
join-IsLine a b = All-append (λ c. c ≢ newline) a b

text-IsLine : (s : String) → is_line (codes s) ≡ true → IsLine (codes s)
text-IsLine s h = is_line-IsLine (codes s) h

-- The texts of a metric have no newline.
abbrev IsPlain : Metric → Type 0
IsPlain m =
    (is_line (codes m.name) ≡ true)
    × (is_line (codes m.help) ≡ true)
    × (is_line (codes m.kind) ≡ true)

module _ (server_id : Name) (id : IsLine server_id) where
  help_line-IsLine : (m : Metric) → IsPlain m → IsLine (help_line m)
  help_line-IsLine m (n, h, k) =
      join-IsLine (codes "# HELP " ++ codes m.name ++ codes " ") (codes m.help)
        (join-IsLine (codes "# HELP " ++ codes m.name) (codes " ")
          (join-IsLine (codes "# HELP ") (codes m.name) (text-IsLine "# HELP " refl)
            (text-IsLine m.name n))
          (text-IsLine " " refl))
        (text-IsLine m.help h)

  type_line-IsLine : (m : Metric) → IsPlain m → IsLine (type_line m)
  type_line-IsLine m (n, h, k) =
      join-IsLine (codes "# TYPE " ++ codes m.name ++ codes " ") (codes m.kind)
        (join-IsLine (codes "# TYPE " ++ codes m.name) (codes " ")
          (join-IsLine (codes "# TYPE ") (codes m.name) (text-IsLine "# TYPE " refl)
            (text-IsLine m.name n))
          (text-IsLine " " refl))
        (text-IsLine m.kind k)

  sample_line-IsLine : (m : Metric) → IsPlain m → IsLine (sample_line server_id m)
  sample_line-IsLine m (n, h, k) =
      let opening = codes " {server_id=\"" in
      join-IsLine (labelled (codes m.name) server_id) (decimal m.value)
        (join-IsLine (codes m.name ++ opening ++ server_id) (codes "\"} ")
          (join-IsLine (codes m.name ++ opening) server_id
            (join-IsLine (codes m.name) opening (text-IsLine m.name n)
              (text-IsLine " {server_id=\"" refl))
            id)
          (text-IsLine "\"} " refl))
        (All-decimal m.value)

  format_lines-IsLine : (ms : List Metric) → All IsPlain ms → All IsLine (format_lines server_id ms)
  format_lines-IsLine [] h = tt
  format_lines-IsLine (m ∷ []) (h, rest) =
      (help_line-IsLine m h, (type_line-IsLine m h, (sample_line-IsLine m h, tt)))
  format_lines-IsLine (m ∷ m' ∷ ms) (h, rest) = (
    help_line-IsLine m h,
    (type_line-IsLine m h, (sample_line-IsLine m h, (tt, format_lines-IsLine (m' ∷ ms) rest))),
  )

module _ (P : Platform PeerConnectionData) (R : RedisApi) (J : JsonApi P) where
  module _ (s : HealthState P R J) (now : ℕ) (on_keys : Link) (id : IsLine s.server_id) where
    abbrev text_lines : List Name
    text_lines = format_lines s.server_id (metrics_of P R J s now on_keys)

    text_lines-IsLine : All IsLine text_lines
    text_lines-IsLine = format_lines-IsLine s.server_id id (metrics_of P R J s now on_keys) (
      (refl, refl, refl),
      (
        (refl, refl, refl),
        (
          (refl, refl, refl),
          (
            (refl, refl, refl),
            ((refl, refl, refl), ((refl, refl, refl), ((refl, refl, refl), tt))),
          ),
        ),
      ),
    )

    -- The scraper comes to the sample of the metric, with some lines after it.
    scrape-at :
        (name : String) (value lines_before : ℕ)
        → find_value (labelled (codes name) s.server_id) text_lines
          ≡ find_value
              (labelled (codes name) s.server_id)
              ((labelled (codes name) s.server_id ++ decimal value) ∷ drop lines_before text_lines)
        → scrape name s.server_id (prometheus_metrics P R J s now on_keys) ≡ some value
    unfolding prometheus_metrics
    scrape-at name value lines_before h =
        ap (find_value (labelled (codes name) s.server_id))
          (lines-unlines text_lines text_lines-IsLine)
        ∙ h
        ∙ find_value-head (labelled (codes name) s.server_id) value (drop lines_before text_lines)

    -- A scraper that splits the metrics text into lines, takes the first line with the metric's name and
    -- the server's label, and reads the decimal number after them, reads each of the seven metrics as
    -- its value: the five counters, the number of active pairings and the uptime in seconds. The
    -- server's identifier has no newline.
    pub scrape-prometheus_metrics :
        let text = prometheus_metrics P R J s now on_keys in
        (scrape "tcpunch_active_connections" s.server_id text ≡ some s.metrics.active_connections)
        × (scrape "tcpunch_total_connections" s.server_id text ≡ some s.metrics.total_connections)
        × (scrape "tcpunch_successful_pairings" s.server_id text
            ≡ some s.metrics.successful_pairings)
        × (scrape "tcpunch_timeouts" s.server_id text ≡ some s.metrics.timeouts)
        × (scrape "tcpunch_errors" s.server_id text ≡ some s.metrics.errors)
        × (scrape "tcpunch_active_pairings" s.server_id text
            ≡ some (active_count P R J s.registry on_keys))
        × (scrape "tcpunch_uptime_seconds" s.server_id text ≡ some ((now - s.start_time) / 1000))
    unfolding snapshot
    scrape-prometheus_metrics = (
      scrape-at "tcpunch_active_connections" s.metrics.active_connections 3 refl,
      scrape-at "tcpunch_total_connections" s.metrics.total_connections 7 refl,
      scrape-at "tcpunch_successful_pairings" s.metrics.successful_pairings 11 refl,
      scrape-at "tcpunch_timeouts" s.metrics.timeouts 15 refl,
      scrape-at "tcpunch_errors" s.metrics.errors 19 refl,
      scrape-at "tcpunch_active_pairings" (active_count P R J s.registry on_keys) 23 refl,
      scrape-at "tcpunch_uptime_seconds" ((now - s.start_time) / 1000) 27 refl,
    )
