-- ===== src/Responses.antt =====
-- app/api/exceptions.py: the HTTP answer to an error.
pub mod Codes
mod Tests
use ticketing_system.Prelude.{ℕ, List, [], ◌∷◌, ◌++◌, Option, none, some, String}
use ticketing_system.Errors.{
  Result, ok, err, get_db, Error, not_found, unauthorized, forbidden, conflict, invalid_input,
  unprocessable, internal, integrity_error, data_error, attribute_error,
}

-- The classes of app/domain/exceptions.py, AppError among them.
pub data ErrorClass : Type 0 where
  app_error not_found_class unauthorized_class forbidden_class : ErrorClass
  conflict_class invalid_input_class unprocessable_class internal_class : ErrorClass

-- type(exc).mro(), as far as the tables go: the class and AppError. An exception of a library is none.
pub mro : Error → List ErrorClass
mro (not_found m) = ErrorClass.not_found_class ∷ ErrorClass.app_error ∷ []
mro (unauthorized m) = ErrorClass.unauthorized_class ∷ ErrorClass.app_error ∷ []
mro (forbidden m) = ErrorClass.forbidden_class ∷ ErrorClass.app_error ∷ []
mro (conflict m) = ErrorClass.conflict_class ∷ ErrorClass.app_error ∷ []
mro (invalid_input m) = ErrorClass.invalid_input_class ∷ ErrorClass.app_error ∷ []
mro (unprocessable m) = ErrorClass.unprocessable_class ∷ ErrorClass.app_error ∷ []
mro (internal m) = ErrorClass.internal_class ∷ ErrorClass.app_error ∷ []
mro _ = []

-- _STATUS_BY_CLASS
pub status_by_class : ErrorClass → Option ℕ
status_by_class ErrorClass.not_found_class = some 404
status_by_class ErrorClass.unauthorized_class = some 401
status_by_class ErrorClass.forbidden_class = some 403
status_by_class ErrorClass.conflict_class = some 409
status_by_class ErrorClass.invalid_input_class = some 400
status_by_class ErrorClass.unprocessable_class = some 422
status_by_class ErrorClass.app_error = some 400
status_by_class ErrorClass.internal_class = some 500

-- _TITLES
pub title_by_class : ErrorClass → Option String
title_by_class ErrorClass.not_found_class = some "Not Found"
title_by_class ErrorClass.unauthorized_class = some "Unauthorized"
title_by_class ErrorClass.forbidden_class = some "Forbidden"
title_by_class ErrorClass.conflict_class = some "Conflict"
title_by_class ErrorClass.invalid_input_class = some "Bad Request"
title_by_class ErrorClass.unprocessable_class = some "Unprocessable Entity"
title_by_class ErrorClass.app_error = some "Application Error"
title_by_class ErrorClass.internal_class = some "Internal Server Error"

-- The loops of _status_for and _title_for.
pub first_listed {ℓ} : {A : Type ℓ} → (ErrorClass → Option A) → A → List ErrorClass → A
first_listed table default [] = default
first_listed table default (c ∷ cs) =
    let rest = first_listed table default cs in elim (table c) [ some value ↦ value | none ↦ rest ]

pub status_for : Error → ℕ
unfolding mro status_by_class first_listed
status_for e = first_listed status_by_class 400 (mro e)

pub title_for : Error → String
unfolding mro title_by_class first_listed
title_for e = first_listed title_by_class "Application Error" (mro e)

-- str(exc)
pub detail_of : Error → String
detail_of (not_found m) = m
detail_of (unauthorized m) = m
detail_of (forbidden m) = m
detail_of (conflict m) = m
detail_of (invalid_input m) = m
detail_of (unprocessable m) = m
detail_of (internal m) = m
detail_of integrity_error = "Internal Server Error"
detail_of data_error = "Internal Server Error"
detail_of attribute_error = "Internal Server Error"

-- The attributes of _www_authenticate_header, in order; those that are empty are left out.
abbrev pub attribute : String → Option String → List (String × String)
attribute name none = []
attribute name (some value) = (name, value) ∷ []

pub www_authenticate_header : Option String → Option String → Option String → List (String × String)
www_authenticate_header realm error description =
    attribute "realm" realm
    ++ (attribute "error" error ++ attribute "error_description" description)

pub record Problem : Type 0 where
  pub status : ℕ
  pub title : String
  pub detail : String
  -- the attributes after the scheme Bearer
  pub www_authenticate : Option (List (String × String))

pub header_for : Error → Option (List (String × String))
unfolding www_authenticate_header
header_for (unauthorized m) =
    some (www_authenticate_header (some "api") (some "invalid_token") (some m))
header_for _ = none

-- The handler of AppError.
abbrev pub app_error_handler : Error → Problem
app_error_handler e = record {
  status = status_for e;
  title = title_for e;
  detail = detail_of e;
  www_authenticate = header_for e;
}

-- What the framework answers to any other exception.
abbrev pub server_error : Problem
server_error = record {
  status = 500;
  title = "Internal Server Error";
  detail = "Internal Server Error";
  www_authenticate = none;
}

pub handle_error : Error → Problem
handle_error integrity_error = server_error
handle_error data_error = server_error
handle_error attribute_error = server_error
handle_error e = app_error_handler e

pub data Answer {ℓ} (A : Type ℓ) : Type ℓ where
  success : A → Answer A
  problem : Problem → Answer A

abbrev pub answer_of {ℓ} : {A : Type ℓ} → Result A → Answer A
answer_of (ok a) = success a
answer_of (err e) = problem (handle_error e)

-- A request from its transaction to its answer.
pub respond {ℓ} : {A S : Type ℓ} → S → Result (A × S) → Answer A × S
respond s r = let (result, s') = get_db s r in (answer_of result, s')
