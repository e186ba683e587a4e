-- ===== src/Tests/Configuring.antt =====
-- Configurations: the defaults, and one with a lower-case FATAL level.
use architecture_playground.Base.{◌≡◌, ◌↔◌, refl, false, none, to_upper}
use architecture_playground.Base.Int.{pos}
use architecture_playground.Logger.{parse_level, info}
use architecture_playground.Config.Parse.{trim_space}
use architecture_playground.Config.{Config, Os, validate, loaded, read_config, load_config}
use architecture_playground.Config.Laws.{
  IsAcceptable, normalised, validate_iff, validate-normalised, load_config_iff,
}
use architecture_playground.Config.Normal.{parse_level-validate_fatal}

abbrev pub unset : Os
unset = record { getenv = λ k. ""; parse_duration = λ s. none }

abbrev pub default : Config
default = record {
  server_port = pos 8080;
  task_timeout = pos 30000000000;
  log_level = "INFO";
  shutdown_timeout = pos 15000000000;
  version = "1.0.0";
  async = false;
  redis_url = "redis://localhost:6379";
  worker_count = pos 3;
  queue_name = "tasks";
}

-- An unset environment gives the defaults.
defaults : load_config unset ≡ loaded default
unfolding load_config to_upper trim_space
defaults = refl

abbrev loud : Config
loud = record default { log_level = " fatal "; version = " 2 " }

loud-validate : (validate loud).1 ≡ none
unfolding validate to_upper trim_space
loud-validate = refl

loud-IsAcceptable : IsAcceptable loud
loud-IsAcceptable = (validate_iff loud).0 loud-validate

validate-normalised_example : validate loud ≡ (normalised loud, none)
validate-normalised_example = validate-normalised loud loud-IsAcceptable

load_config_iff_example :
    (load_config unset ≡ loaded default)
    ↔ (IsAcceptable (read_config unset) × (default ≡ normalised (read_config unset)))
load_config_iff_example = load_config_iff unset default

parse_level-validate_fatal_example :
    ((validate (record loud { log_level = "FATAL" })).1 ≡ none)
    × (parse_level (validate (record loud { log_level = "FATAL" })).0.log_level ≡ info)
parse_level-validate_fatal_example = parse_level-validate_fatal loud loud-validate
