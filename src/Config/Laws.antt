-- ===== src/Config/Laws.antt =====
-- Validation accepts exactly the configurations that its messages ask for, and normalises them.
use architecture_playground.Base.{
  eq_iff, ◌≡◌, ◌≢◌, ◌↔◌, refl, ap, Bool, true, false, not, ◌||◌, if◌then◌else◌, Option, none, some,
  arith, contains, to_upper,
}
use architecture_playground.Base.Int.{pos, ◌≤ℤ◌, leb_ℤ, ℤ}
use architecture_playground.Config.Parse.{trim_space}
use architecture_playground.Config.{
  Config, Os, ConfigError, valid_levels, hours24, minutes5, invalid_server_port, invalid_log_level,
  validate_async, validate_rest, validate, loaded, read_config, load_config, checked,
}

-- What a configuration has to satisfy before it is normalised.
pub record IsAcceptable (c : Config) : Type 0 where
  pub port_low : pos 1 ≤ℤ c.server_port
  pub port_high : c.server_port ≤ℤ pos 65535
  pub level : contains valid_levels (to_upper (trim_space c.log_level)) ≡ true
  pub task_low : pos 1 ≤ℤ c.task_timeout
  pub task_high : c.task_timeout ≤ℤ hours24
  pub shutdown_low : pos 1 ≤ℤ c.shutdown_timeout
  pub shutdown_high : c.shutdown_timeout ≤ℤ minutes5
  pub version : trim_space c.version ≢ ""
  pub workers : c.async ≡ true → pos 1 ≤ℤ c.worker_count
  pub redis : c.async ≡ true → trim_space c.redis_url ≢ ""
  pub queue : c.async ≡ true → trim_space c.queue_name ≢ ""

-- The level in capitals without surrounding space, and the version without it.
unfoldable pub normalised : Config → Config
normalised c = record c {
  log_level = to_upper (trim_space c.log_level);
  version = trim_space c.version;
}

-- What the checks of async mode ask for.
abbrev AsyncChecked : Config → Type 0
AsyncChecked c =
    (c.async ≡ true → pos 1 ≤ℤ c.worker_count)
    × (c.async ≡ true → trim_space c.redis_url ≢ "")
    × (c.async ≡ true → trim_space c.queue_name ≢ "")

async_sound : (c : Config) → validate_async c ≡ none → AsyncChecked c
unfolding validate_async
async_sound c h = (
  λ e. ground arith,
  λ e. ground (arith, eq_iff (trim_space c.redis_url) ""),
  λ e. ground (arith, eq_iff (trim_space c.queue_name) ""),
)

async_complete : (c : Config) → AsyncChecked c → validate_async c ≡ none
unfolding validate_async
async_complete c a =
    ground (arith, eq_iff (trim_space c.redis_url) "", eq_iff (trim_space c.queue_name) "")

-- What the checks after the log level ask for.
abbrev RestChecked : Config → Type 0
RestChecked c =
    (pos 1 ≤ℤ c.task_timeout)
    × (c.task_timeout ≤ℤ hours24)
    × (pos 1 ≤ℤ c.shutdown_timeout)
    × (c.shutdown_timeout ≤ℤ minutes5)
    × (trim_space c.version ≢ "")
    × AsyncChecked c

rest_sound : (c : Config) → (validate_rest c).1 ≡ none → RestChecked c
unfolding validate_rest
rest_sound c h = (
  ground arith,
  ground arith,
  ground arith,
  ground arith,
  ground (arith, eq_iff (trim_space c.version) ""),
  async_sound (record c { version = trim_space c.version }) (ground arith),
)

rest_complete :
    (c : Config)
    → RestChecked c
    → validate_rest c ≡ (record c { version = trim_space c.version }, none)
unfolding validate_rest
rest_complete c a = ground (
  arith,
  eq_iff (trim_space c.version) "",
  async_complete (record c { version = trim_space c.version }) a.5,
)

abbrev upper : Config → Config
upper c = record c { log_level = to_upper (trim_space c.log_level) }

-- What follows from a check that reports an error if a test fails, or if it succeeds.
passed :
    (b : Bool) (x y : Config × Option ConfigError) (e : ConfigError)
    → y.1 ≡ some e
    → (if b then x else y).1 ≡ none
    → (b ≡ true) × (x.1 ≡ none)
passed true x y e k h = (refl, h)
passed false x y e k h = absurd (ground arith)

not_failed :
    (b : Bool) (x y : Config × Option ConfigError) (e : ConfigError)
    → x.1 ≡ some e
    → (if b then x else y).1 ≡ none
    → (b ≡ false) × (y.1 ≡ none)
not_failed true x y e k h = absurd (ground arith)
not_failed false x y e k h = (refl, h)

in_range :
    (p : ℤ)
    → (not (leb_ℤ (pos 1) p) || not (leb_ℤ p (pos 65535))) ≡ false
    → (pos 1 ≤ℤ p) × (p ≤ℤ pos 65535)
in_range p h = (ground arith, ground arith)

head_sound :
    (c : Config)
    → (validate c).1 ≡ none
    → (pos 1 ≤ℤ c.server_port)
      × (c.server_port ≤ℤ pos 65535)
      × (contains valid_levels (upper c).log_level ≡ true)
      × ((validate_rest (upper c)).1 ≡ none)
unfolding validate
head_sound c h =
    let (port, rest) = not_failed _ _ _ (invalid_server_port c.server_port) refl h in
    let (level, last) = passed _ _ _ (invalid_log_level c.log_level) refl rest in
    let (low, high) = in_range c.server_port port in (low, high, level, last)

validate_sound : (c : Config) → (validate c).1 ≡ none → IsAcceptable c
validate_sound c h =
    let a = head_sound c h in
    let b = rest_sound (upper c) a.3 in
    record {
      port_low = a.0;
      port_high = a.1;
      level = a.2;
      task_low = b.0;
      task_high = b.1;
      shutdown_low = b.2;
      shutdown_high = b.3;
      version = b.4;
      workers = b.5.0;
      redis = b.5.1;
      queue = b.5.2;
    }

validate_complete : (c : Config) → IsAcceptable c → validate c ≡ (normalised c, none)
unfolding validate normalised
validate_complete c a =
    let rest = rest_complete (upper c) (
      a.task_low,
      a.task_high,
      a.shutdown_low,
      a.shutdown_high,
      a.version,
      (a.workers, a.redis, a.queue),
    ) in
    ground (arith, a.port_low, a.port_high, a.level, rest)

-- Validation reports no error exactly for an acceptable configuration.
pub validate_iff : (c : Config) → ((validate c).1 ≡ none) ↔ IsAcceptable c
validate_iff c = (validate_sound c, λ a. ap (λ r. r.1) (validate_complete c a))

-- An acceptable configuration is validated into its normal form.
pub validate-normalised : (c : Config) → IsAcceptable c → validate c ≡ (normalised c, none)
validate-normalised c a = validate_complete c a

loaded_lem : (r c : Config) → checked (validate r) ≡ loaded c → IsAcceptable r × (c ≡ normalised r)
loaded_lem r c e = go (validate r) refl e
  where
    go :
        (v : Config × Option ConfigError)
        → validate r ≡ v
        → checked v ≡ loaded c
        → IsAcceptable r × (c ≡ normalised r)
    go (d, none) h k =
        let a = validate_sound r (ap (λ z. z.1) h) in
        let same = validate_complete r a in (a, ground arith)
    go (d, some x) h k = cc

-- `LoadConfig` returns a configuration exactly if what the environment and the defaults give is
-- acceptable, and then returns its normal form.
pub load_config_iff :
    (os : Os) (c : Config)
    → (load_config os ≡ loaded c)
      ↔ (IsAcceptable (read_config os) × (c ≡ normalised (read_config os)))
unfolding load_config
load_config_iff os c =
    (loaded_lem (read_config os) c, λ h. rw (validate_complete (read_config os) h.0, h.1))
