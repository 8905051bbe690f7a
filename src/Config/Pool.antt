-- ===== src/Config/Pool.antt =====
-- internal/config/database.go: the settings of the connection pool. A number is printed by the
-- parameter `print`, fmt's %d.
use ficmart_payment_gateway.Prelude.{
  ℕ, ◌-◌, ◌^◌, ◌%◌, ◌<◌, String, ◌≡◌, ltb, arith, if◌then◌else◌, str_append, refl,
}
use ficmart_payment_gateway.Prelude.Integer.{ℤ, pos, negsuc}
use ficmart_payment_gateway.Domain.{Time}
use ficmart_payment_gateway.Bank.Retry.{Answer, reply, fault}
use ficmart_payment_gateway.Config.{DatabaseConfig}

-- The int32 that an int64 wraps to.
abbrev pub wrap_int32 : ℕ → ℤ
wrap_int32 n = let r = n % 2 ^ 32 in if ltb r (2 ^ 31) then pos r else negsuc (2 ^ 32 - r - 1)

unfoldable pub to_int32 : ℤ → ℤ
to_int32 (pos n) = wrap_int32 n
to_int32 (negsuc n) = wrap_int32 (2 ^ 32 - 1 - n % 2 ^ 32)

-- The fields of pgxpool.Config that are set; `conn_string` is what ParseConfig was given.
pub record PoolConfig : Type 0 where
  pub conn_string : String
  pub max_conns : ℤ
  pub min_conns : ℤ
  pub max_conn_lifetime : Time
  pub max_conn_idle_time : Time
  pub health_check_period : Time

infixr 60 ◌⧺◌
abbrev ◌⧺◌ : String → String → String
a ⧺ b = str_append a b

unfoldable pub connection_string : (ℤ → String) → DatabaseConfig → String
connection_string print c =
    "postgres://"
    ⧺ c.user
    ⧺ ":"
    ⧺ c.password
    ⧺ "@"
    ⧺ c.host
    ⧺ ":"
    ⧺ print c.port
    ⧺ "/"
    ⧺ c.name
    ⧺ "?sslmode="
    ⧺ c.ssl_mode

unfoldable pub set_pool : DatabaseConfig → PoolConfig → PoolConfig
unfolding to_int32
set_pool c cfg = record cfg {
  max_conns = to_int32 c.max_open_conns;
  min_conns = to_int32 c.max_idle_conns;
  max_conn_lifetime = c.conn_max_lifetime;
  max_conn_idle_time = c.conn_max_idle_time;
  health_check_period = pos 30000000000;
}

-- PgxConfig; `parse_config` is pgxpool.ParseConfig.
unfoldable pub pgx_config :
    (ℤ → String) → (String → Answer PoolConfig) → DatabaseConfig → Answer PoolConfig
unfolding connection_string set_pool
pgx_config print parse_config c = elim (parse_config (connection_string print c)) [
  | fault x ↦ fault x
  | reply cfg ↦ reply (set_pool c cfg)
]

abbrev pub IsInt32 : ℤ → Type 0
IsInt32 (pos n) = n < 2 ^ 31
IsInt32 (negsuc n) = n < 2 ^ 31

to_int32_same : (n : ℤ) → IsInt32 n → to_int32 n ≡ n
unfolding to_int32
to_int32_same (pos n) h = ground (arith, h)
to_int32_same (negsuc n) h = ground (arith, h)

-- Where both limits are in the range of an int32 and ParseConfig accepts the connection string, the
-- pool gets the configured limits and times.
pub pgx_config-IsExact :
    (print : ℤ → String) (parse_config : String → Answer PoolConfig) (c : DatabaseConfig)
    (cfg : PoolConfig)
    → IsInt32 c.max_open_conns
    → IsInt32 c.max_idle_conns
    → parse_config (connection_string print c) ≡ reply cfg
    → pgx_config print parse_config c
      ≡ reply (record cfg {
        max_conns = c.max_open_conns;
        min_conns = c.max_idle_conns;
        max_conn_lifetime = c.conn_max_lifetime;
        max_conn_idle_time = c.conn_max_idle_time;
        health_check_period = pos 30000000000;
      })
unfolding pgx_config set_pool
pgx_config-IsExact print parse_config c cfg open_fits idle_fits parsed =
    rw
      (
        pgx_config,
        parsed,
        set_pool,
        to_int32_same c.max_open_conns open_fits,
        to_int32_same c.max_idle_conns idle_fits,
      )
      refl
