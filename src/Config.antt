-- ===== src/Config.antt =====
-- internal/config: the settings, how they are loaded and the log level.
pub mod Pool
use Prim.Native.Char.{code}
use Prim.Native.String.{[], ◌∷◌}
use ficmart_payment_gateway.Prelude.{
  ℕ, ◌-◌, ◌^◌, ◌%◌, ◌<◌, String, ◌≡◌, Bool, true, false, ◌||◌, Option, none, some, ltb, ◌==◌, arith,
  if◌then◌else◌, str_eq, str_append, refl,
}
use ficmart_payment_gateway.Prelude.Integer.{ℤ, pos, negsuc}
use ficmart_payment_gateway.Failure.{Error}
use ficmart_payment_gateway.Domain.{Time}
use ficmart_payment_gateway.Bank.Retry.{Answer, reply, fault}

pub record WorkerConfig : Type 0 where
  pub interval : Time
  pub batch_size : ℤ

pub record Primary : Type 0 where
  pub env : String

pub record ServerConfig : Type 0 where
  pub port : String
  pub read_timeout : Time
  pub write_timeout : Time
  pub idle_timeout : Time

pub record DatabaseConfig : Type 0 where
  pub host : String
  pub port : ℤ
  pub user : String
  pub password : String
  pub name : String
  pub ssl_mode : String
  pub max_open_conns : ℤ
  pub max_idle_conns : ℤ
  pub conn_max_lifetime : Time
  pub conn_max_idle_time : Time

pub record BankConfig : Type 0 where
  pub bank_base_url : String
  pub bank_conn_timeout : Time

pub record RetryConfig : Type 0 where
  pub base_delay : ℤ
  pub max_retries : ℤ
  pub max_backoff : ℤ

pub record LoggerConfig : Type 0 where
  pub level : String

pub record Config : Type 0 where
  pub primary : Primary
  pub server : ServerConfig
  pub database : DatabaseConfig
  pub bank_client : BankConfig
  pub retry : RetryConfig
  pub logger : LoggerConfig
  pub worker : WorkerConfig

-- strings.TrimPrefix; `whole` is the text without anything taken off.
abbrev pub trim_from : String → String → String → String
trim_from whole [] s = s
trim_from whole (c ∷ p) [] = whole
trim_from whole (c ∷ p) (d ∷ s) =
    let rest = trim_from whole p s in if code c == code d then rest else whole

abbrev pub trim_prefix : String → String → String
trim_prefix s prefix = trim_from s prefix s

-- strings.ReplaceAll of "__" by ".", reading from the left; `held` says that an underscore is read
-- and not yet written.
abbrev pub replace_from : Bool → String → String
replace_from false [] = []
replace_from true [] = "_"
replace_from false (c ∷ s) =
    let after = replace_from true s in
    let rest = replace_from false s in if code c == b'_' then after else c ∷ rest
replace_from true (c ∷ s) =
    let rest = replace_from false s in
    if code c == b'_' then str_append "." rest else str_append "_" (c ∷ rest)

-- The key of an environment variable; `to_lower` is strings.ToLower.
unfoldable pub env_key : (String → String) → String → String
env_key to_lower s = replace_from false (to_lower (trim_prefix s "GATEWAY_"))

-- koanf's Load and Unmarshal and the validator's Struct, which are other packages.
pub record Loading (K : Type 0) : Type 0 where
  pub load : (String → String) → Answer K
  pub unmarshal : K → Answer Config
  pub validate : Config → Option Error

abbrev pub checked : Config → Option Error → Answer Config
checked c none = reply c
checked c (some x) = fault x

unfoldable pub load_config : {K : Type 0} → (String → String) → Loading K → Answer Config
unfolding env_key
load_config to_lower l = elim (l.load (env_key to_lower)) [
  | fault x ↦ fault x
  | reply k ↦ elim (l.unmarshal k) [ fault x ↦ fault x | reply c ↦ checked c (l.validate c) ]
]

pub data Level : Type 0 where
  level_debug level_info level_warn level_error : Level

-- parseLogLevel of the level in lower case.
abbrev pub level_named : String → Level
level_named s =
    if str_eq s "debug"
    then level_debug
    else if str_eq s "info"
    then level_info
    else if str_eq s "warn" || str_eq s "warning"
    then level_warn
    else if str_eq s "error"
    then level_error
    else level_info

unfoldable pub parse_log_level : (String → String) → String → Level
parse_log_level to_lower level = level_named (to_lower level)

pub record HandlerOptions : Type 0 where
  pub level : Level
  pub add_source : Bool

abbrev pub adds_source : Level → Bool
adds_source level_debug = true
adds_source level_error = true
adds_source _ = false

unfoldable pub new_logger : (String → String) → LoggerConfig → HandlerOptions
unfolding parse_log_level
new_logger to_lower c =
    let level = parse_log_level to_lower c.level in
    record { level = level; add_source = adds_source level }
