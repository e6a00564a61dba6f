-- ===== src/Startup.antt =====
-- cmd/server/main.go: how the configuration becomes services, with the constructors of
-- internal/service. Listening, signals and the shutdown are not modelled.
use nanolink.Prelude.{
  ◌≡◌, refl, Bool, true, false, ◌&&◌, Option, none, some, [], ◌∷◌, ◌++◌, Str, codes, str_eq, ◌==◌,
  if◌then◌else◌,
}
use nanolink.Prelude.Int.{pos}
use nanolink.Prelude.Float.{Floats}
use nanolink.Prelude.Result.{Result, ok, err}
use nanolink.Config.{Config}
use nanolink.Bloom.{BloomFilter, new_bloom_filter}
use nanolink.Snowflake.{Node, new_node}
use nanolink.RateLimit.Service.{RateLimiterService, new_rate_limiter_service}
use nanolink.Worker.{AnalyticsWorker, new_analytics_worker}

-- strings.TrimRight(text, "/")
unfoldable pub trim_right_slash : Str → Str
trim_right_slash [] = []
trim_right_slash (c ∷ str) =
    let rest = trim_right_slash str in if c == b'/' && str_eq rest [] then [] else c ∷ rest

-- `node, _ := …`: the node is nil after an error
abbrev pub node_or_nil : Result Node → Option Node
node_or_nil (ok node) = some node
node_or_nil (err e) = none

-- what NewURLService makes of its arguments: the node and the base URL
unfoldable pub new_url_service : Str → Option Node × Str
unfolding trim_right_slash
new_url_service base_url = (node_or_nil (new_node (pos 1)), trim_right_slash base_url)

-- `pgDB, err := …`, `chClient, err = …; if err != nil { …; chClient = nil }`
abbrev pub or_nil : {A : Type 0} → Result A → Option A
or_nil (ok a) = some a
or_nil (err e) = none

abbrev pub pinged : {A : Type 0} → (A → Result (Unit {0})) → Result A → Result A
pinged ping (err e) = err e
pinged ping (ok db) = elim (ping db) [ err e ↦ err e | ok u ↦ ok db ]

-- NewClickHouseClient, over sql.Open and Ping
unfoldable pub new_click_house_client :
    {A : Type 0} → (Str → Result A) → (A → Result (Unit {0})) → Str → Result A
new_click_house_client open_db ping dsn = pinged ping (open_db dsn)

-- NewPostgresDB, over sql.Open; the limits of the pool are the driver's
unfoldable pub new_postgres_db : {A : Type 0} → (Str → Result A) → Str → Result A
new_postgres_db open_db dsn = elim (open_db dsn) [
  | err e ↦ err (codes "error opening postgres: " ++ e)
  | ok db ↦ ok db
]

-- the client, if a DSN is configured and the connection succeeds
unfoldable pub click_house_client : {A : Type 0} → Str → (Str → Result A) → Option A
click_house_client dsn connect = if str_eq dsn [] then none else or_nil (connect dsn)

abbrev pub is_some : {A : Type 0} → Option A → Bool
is_some none = false
is_some (some a) = true

module _ (fl : Floats) where
  open fl use {F}

  -- `Pg` and `Ch` are the connections of PostgreSQL and ClickHouse.
  pub record Services (Pg Ch : Type 0) : Type 0 where
    pub pg_db : Option Pg
    pub ch_client : Option Ch
    pub local_filter : BloomFilter
    pub rate_limiter : RateLimiterService fl
    pub node : Option Node
    pub base_url : Str
    pub worker : AnalyticsWorker
    pub addr : Str

  -- NewRedisClient gives a client in any case.
  unfoldable pub services :
      {Pg Ch : Type 0}
      → (Str → Result Pg)
      → (Str → Result Ch)
      → (Ch → Result (Unit {0}))
      → Config F
      → Services Pg Ch
  unfolding new_url_service click_house_client new_click_house_client new_postgres_db
  services open_pg open_ch ping cfg =
      let ch = click_house_client cfg.click_house_dsn (new_click_house_client open_ch ping) in
      record {
        pg_db = or_nil (new_postgres_db open_pg cfg.postgres_dsn);
        ch_client = ch;
        local_filter = new_bloom_filter fl cfg.bloom_capacity cfg.bloom_fp_rate;
        rate_limiter = new_rate_limiter_service fl cfg.rate_limit_capacity cfg.rate_limit_refill;
        node = (new_url_service cfg.base_url).0;
        base_url = (new_url_service cfg.base_url).1;
        worker = new_analytics_worker true (is_some ch) (codes "worker-node-1");
        addr = codes ":" ++ cfg.port;
      }

  -- the node of the identifiers is always there
  pub services_node :
      {Pg Ch : Type 0} (open_pg : Str → Result Pg) (open_ch : Str → Result Ch)
      (ping : Ch → Result (Unit {0})) (cfg : Config F)
      → is_some (services open_pg open_ch ping cfg).node ≡ true
  unfolding services new_url_service new_node
  services_node open_pg open_ch ping cfg = refl

trimmed : trim_right_slash (codes "http://nano.link//") ≡ codes "http://nano.link"
unfolding trim_right_slash
trimmed = refl
