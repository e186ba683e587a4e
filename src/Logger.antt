-- ===== src/Logger.antt =====
-- logger/logger.go: levels, the filter, and the structured entries. One logger serves the process;
-- its level is in `Env`.
pub mod Laws
pub mod Filter
use architecture_playground.Base.{
  ℕ, zero, suc, ◌+◌, String, Bool, true, false, List, ◌∷◌, some, ltb, ◌==◌, if◌then◌else◌, to_upper,
}
use architecture_playground.Base.Int.{ℤ}
use architecture_playground.Errors.{Fields, nil, field, text, size, duration, copy_fields}
use architecture_playground.World.{LogEntry, Line, json, simple, World, Env, M}

-- `Level` is an int; the constants are 0 to 3.
abbrev pub debug : ℕ
debug = 0

abbrev pub info : ℕ
info = 1

abbrev pub warn : ℕ
warn = 2

abbrev pub error : ℕ
error = 3

level_of : String → ℕ
level_of s =
    if s == "DEBUG"
    then debug
    else if s == "INFO"
    then info
    else if s == "WARN"
    then warn
    else if s == "ERROR"
    then error
    else info

unfoldable pub parse_level : String → ℕ
unfolding level_of
parse_level level = level_of (to_upper level)

abbrev pub get_level_name : ℕ → String
get_level_name zero = "DEBUG"
get_level_name (suc zero) = "INFO"
get_level_name (suc (suc zero)) = "WARN"
get_level_name (suc (suc (suc zero))) = "ERROR"
get_level_name (suc (suc (suc (suc n)))) = "UNKNOWN"

abbrev pub entry_line : Env → LogEntry → Line
entry_line env e = if env.marshals e then json e else simple e.level e.message

abbrev pub made_entry : ℕ → ℕ → String → Fields → LogEntry
made_entry time level message fields = record {
  timestamp = time;
  level = get_level_name level;
  message = message;
  fields = fields;
}

-- The fields of a request's entry; the caller's are copied over them.
abbrev pub http_fields : String → String → ℕ → ℤ → Fields → Fields
http_fields method path status elapsed fields =
    copy_fields
      (field "http_method" (text method) (
        field "http_path" (text path) (
          field "http_status" (size status)
            (field "duration_ns" (duration elapsed) (field "type" (text "http_request") nil)))))
      fields

module _ {R : Type 0} (env : Env) where
  -- `writeLogEntry`: the clock is read and a line is written unless the logger's level is above.
  -- The three fields are updated at once, so that the others are seen to stay.
  unfoldable pub write_log_entry : ℕ → String → Fields → M R (Unit {0})
  write_log_entry level message fields w =
      let hidden = ltb level env.level in
      let line = entry_line env (made_entry (env.time_at w.reads) level message fields) in
      some (
        tt,
        record w {
          output = if hidden then w.output else (line ∷ w.output);
          reads = if hidden then w.reads else (w.reads + 1);
        },
      )

  unfoldable pub log_debug : String → Fields → M R (Unit {0})
  unfolding write_log_entry
  log_debug message fields = write_log_entry debug message fields

  unfoldable pub log_info : String → Fields → M R (Unit {0})
  unfolding write_log_entry
  log_info message fields = write_log_entry info message fields

  unfoldable pub log_warn : String → Fields → M R (Unit {0})
  unfolding write_log_entry
  log_warn message fields = write_log_entry warn message fields

  unfoldable pub log_error : String → Fields → M R (Unit {0})
  unfolding write_log_entry
  log_error message fields = write_log_entry error message fields

  -- `Task`: the caller's fields are copied over the two that it sets.
  unfoldable pub log_task : String → String → Fields → M R (Unit {0})
  unfolding write_log_entry
  log_task task_id message fields =
      write_log_entry info message
        (copy_fields (field "task_id" (text task_id) (field "type" (text "task") nil)) fields)

  -- `HTTP`
  unfoldable pub log_http : String → String → ℕ → ℤ → Fields → M R (Unit {0})
  unfolding write_log_entry
  log_http method path status elapsed fields =
      write_log_entry info "HTTP request completed" (http_fields method path status elapsed fields)
