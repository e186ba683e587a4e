-- ===== src/Errors.antt =====
-- errors/errors.go: the structured error, its constructors and the test for it. `Value` stands for
-- the `any` of a map of details or log fields, with the types that the program puts there.
pub mod Laws
use architecture_playground.Base.{
  ℕ, String, ◌<>◌, ◌==◌, Bool, List, [], ◌∷◌, Option, none, some, if◌then◌else◌,
}
use architecture_playground.Base.Int.{ℤ}

mutual
  pub data Value : Type 0 where
    text : String → Value
    int : ℤ → Value
    size : ℕ → Value
    time : Option ℕ → Value
    duration : ℤ → Value
    texts : List String → Value
    flag : Bool → Value
    object : Fields → Value

  -- `map[string]any`; `nil` is also the nil map.
  pub data Fields : Type 0 where
    nil : Fields
    field : String → Value → Fields → Fields

-- `m[k] = v`
pub set_field : String → Value → Fields → Fields
set_field k v nil = field k v nil
set_field k v (field j w m) = if j == k then field k v m else field j w (set_field k v m)

-- `maps.Copy(dst, src)`
unfoldable pub copy_fields : Fields → Fields → Fields
unfolding set_field
copy_fields dst nil = dst
copy_fields dst (field k v src) = copy_fields (set_field k v dst) src

unfoldable pub get_field : String → Fields → Option Value
get_field k nil = none
get_field k (field j w m) = if j == k then some w else get_field k m

pub data TaskErrorType : Type 0 where
  validation_error execution_error not_found_error internal_error : TaskErrorType

-- The string constant behind each kind.
abbrev pub type_name : TaskErrorType → String
type_name validation_error = "validation"
type_name execution_error = "execution"
type_name not_found_error = "not_found"
type_name internal_error = "internal"

pub record TaskError : Type 0 where
  pub type : TaskErrorType
  pub message : String
  pub code : ℕ
  pub details : Fields

-- `error`: a `*TaskError`, or any other error, of which the program only reads the text.
pub data Err : Type 0 where
  task_error : TaskError → Err
  plain : String → Err

-- `Error()`
abbrev pub error_text : Err → String
error_text (task_error e) = "[" <> type_name e.type <> "] " <> e.message
error_text (plain s) = s

-- The optional `details` of the source are the argument, `nil` where none are passed.
abbrev pub new_validation_error : String → Fields → TaskError
new_validation_error message details = record {
  type = validation_error;
  message = message;
  code = 400;
  details = details;
}

abbrev pub new_execution_error : String → Fields → TaskError
new_execution_error message details = record {
  type = execution_error;
  message = message;
  code = 422;
  details = details;
}

abbrev pub new_not_found_error : String → TaskError
new_not_found_error message = record {
  type = not_found_error;
  message = message;
  code = 404;
  details = nil;
}

abbrev pub new_internal_error : String → TaskError
new_internal_error message = record {
  type = internal_error;
  message = message;
  code = 500;
  details = nil;
}

-- `IsTaskError`: a type assertion, so a wrapped error does not count.
abbrev pub is_task_error : Err → Option TaskError
is_task_error (task_error e) = some e
is_task_error (plain s) = none
