-- ===== src/Config.antt =====
-- config/config.go: reading the environment, and validation. An error of `fmt.Errorf` is a
-- constructor with the values that its text names. Durations are nanoseconds.
pub mod Parse
pub mod Laws
pub mod Normal
use architecture_playground.Base.{
  ℕ, String, ◌<>◌, ◌==◌, ◌||◌, Bool, true, false, not, List, [], ◌∷◌, Option, none, some, contains,
  to_upper, if◌then◌else◌,
}
use architecture_playground.Base.Int.{ℤ, pos, leb_ℤ, show_int}
use Parse.{atoi, parse_bool, trim_space}

pub record Config : Type 0 where
  pub server_port : ℤ
  pub task_timeout : ℤ
  pub log_level : String
  pub shutdown_timeout : ℤ
  pub version : String
  pub async : Bool
  pub redis_url : String
  pub worker_count : ℤ
  pub queue_name : String

-- The environment: `os.Getenv`, which gives the empty text for an unset variable, and
-- `time.ParseDuration`.
pub record Os : Type 0 where
  pub getenv : String → String
  pub parse_duration : String → Option ℤ

pub data ConfigError : Type 0 where
  invalid_server_port : ℤ → ConfigError
  invalid_log_level : String → ConfigError
  task_timeout_not_positive task_timeout_too_long : ℤ → ConfigError
  shutdown_timeout_not_positive shutdown_timeout_too_long : ℤ → ConfigError
  empty_version no_workers empty_redis_url empty_queue_name : ConfigError

abbrev pub or_default {ℓ} : {A : Type ℓ} → Option A → A → A
or_default none d = d
or_default (some a) d = a

module _ (os : Os) where
  unfoldable pub get_env_string : String → String → String
  get_env_string key default = let value = os.getenv key in if value == "" then default else value

  unfoldable pub get_env_int : String → ℤ → ℤ
  get_env_int key default =
      let value = os.getenv key in
      if value == "" then default else (or_default (atoi value) default)

  unfoldable pub get_env_duration : String → ℤ → ℤ
  get_env_duration key default =
      let value = os.getenv key in
      if value == "" then default else (or_default (os.parse_duration value) default)

  unfoldable pub get_env_bool : String → Bool → Bool
  get_env_bool key default =
      let value = os.getenv key in
      if value == "" then default else (or_default (parse_bool value) default)

-- `Address`
unfoldable pub address : Config → String
address c = ":" <> show_int c.server_port

abbrev pub valid_levels : List String
valid_levels = "DEBUG" ∷ "INFO" ∷ "WARN" ∷ "ERROR" ∷ "FATAL" ∷ []

abbrev pub hours24 : ℤ
hours24 = pos 86400000000000

abbrev pub minutes5 : ℤ
minutes5 = pos 300000000000

-- The checks of async mode.
unfoldable validate_async : Config → Option ConfigError
validate_async c =
    if not c.async
    then none
    else if not (leb_ℤ (pos 1) c.worker_count)
    then some no_workers
    else if trim_space c.redis_url == ""
    then some empty_redis_url
    else if trim_space c.queue_name == ""
    then some empty_queue_name
    else none

-- The checks after the log level, on the configuration with the level written back.
unfoldable validate_rest : Config → Config × Option ConfigError
unfolding validate_async
validate_rest c =
    if leb_ℤ c.task_timeout (pos 0)
    then (c, some (task_timeout_not_positive c.task_timeout))
    else if not (leb_ℤ c.task_timeout hours24)
    then (c, some (task_timeout_too_long c.task_timeout))
    else if leb_ℤ c.shutdown_timeout (pos 0)
    then (c, some (shutdown_timeout_not_positive c.shutdown_timeout))
    else if not (leb_ℤ c.shutdown_timeout minutes5)
    then (c, some (shutdown_timeout_too_long c.shutdown_timeout))
    else if trim_space c.version == ""
    then (c, some empty_version)
    else (let c' = record c { version = trim_space c.version } in (c', validate_async c'))

-- `validate` writes the level and the version back; the pair holds the configuration afterwards.
unfoldable pub validate : Config → Config × Option ConfigError
unfolding validate_rest
validate c =
    if not (leb_ℤ (pos 1) c.server_port) || not (leb_ℤ c.server_port (pos 65535))
    then (c, some (invalid_server_port c.server_port))
    else (let upper = to_upper (trim_space c.log_level) in
        if contains valid_levels upper
        then validate_rest (record c { log_level = upper })
        else (c, some (invalid_log_level c.log_level)))

pub data Loaded : Type 0 where
  loaded : Config → Loaded
  refused : ConfigError → Loaded

abbrev checked : Config × Option ConfigError → Loaded
checked (c, none) = loaded c
checked (c, some e) = refused e

-- The environment with the defaults, before validation.
unfoldable pub read_config : Os → Config
unfolding get_env_int get_env_string get_env_duration get_env_bool
read_config os = record {
  server_port = get_env_int os "PORT" (pos 8080);
  task_timeout = get_env_duration os "TASK_TIMEOUT" (pos 30000000000);
  log_level = get_env_string os "LOG_LEVEL" "INFO";
  shutdown_timeout = get_env_duration os "SHUTDOWN_TIMEOUT" (pos 15000000000);
  version = get_env_string os "VERSION" "1.0.0";
  async = get_env_bool os "ASYNC_MODE" false;
  redis_url = get_env_string os "REDIS_URL" "redis://localhost:6379";
  worker_count = get_env_int os "WORKER_COUNT" (pos 3);
  queue_name = get_env_string os "QUEUE_NAME" "tasks";
}

unfoldable pub load_config : Os → Loaded
unfolding read_config validate
load_config os = checked (validate (read_config os))
