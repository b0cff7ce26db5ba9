-- ===== src/Responses/Codes.antt =====
-- What the status of an answer says.
use ticketing_system.Prelude.{
  ℕ, ◌≡◌, ◌≢◌, ◌≤◌, ◌↔◌, none, Option, some, String, List, [], ◌∷◌, ◌==◌, if◌then◌else◌,
}
use ticketing_system.Errors.{
  Error, not_found, unauthorized, forbidden, conflict, invalid_input, unprocessable, internal,
  integrity_error, data_error, attribute_error,
}
use ticketing_system.Responses.{Problem}

-- The errors that are the server's fault.
abbrev pub IsServers : Error → Type 0
IsServers (internal m) = Unit
IsServers integrity_error = Unit
IsServers data_error = Unit
IsServers attribute_error = Unit
IsServers e = ⊥

abbrev FitsCode : Error → Problem → Type 0
FitsCode e p =
    (400 ≤ p.status)
    × (p.status ≤ 500)
    × ((p.status ≡ 500) ↔ IsServers e)
    × ((p.status ≡ 401) ↔ (p.www_authenticate ≢ none))

abbrev Header : Type 0
Header = Option (List (String × String))

-- The HTTP status code of an error.
abbrev pub code_of : Error → ℕ
code_of (invalid_input m) = 400
code_of (unauthorized m) = 401
code_of (forbidden m) = 403
code_of (not_found m) = 404
code_of (conflict m) = 409
code_of (unprocessable m) = 422
code_of _ = 500

-- The reason phrase that HTTP gives a code.
abbrev pub reason_phrase : ℕ → String
reason_phrase code =
    if code == 400
    then "Bad Request"
    else if code == 401
    then "Unauthorized"
    else if code == 403
    then "Forbidden"
    else if code == 404
    then "Not Found"
    else if code == 409
    then "Conflict"
    else if code == 422
    then "Unprocessable Entity"
    else "Internal Server Error"

-- What the answer says beside: the message of an error of the application, and the challenge.
abbrev pub Tells : Error → Problem → Type 0
Tells (unauthorized m) p =
    (p.detail ≡ m)
    × (p.www_authenticate
        ≡ some (("realm", "api") ∷ ("error", "invalid_token") ∷ ("error_description", m) ∷ []))
Tells (not_found m) p = (p.detail ≡ m) × (p.www_authenticate ≡ none)
Tells (forbidden m) p = (p.detail ≡ m) × (p.www_authenticate ≡ none)
Tells (conflict m) p = (p.detail ≡ m) × (p.www_authenticate ≡ none)
Tells (invalid_input m) p = (p.detail ≡ m) × (p.www_authenticate ≡ none)
Tells (unprocessable m) p = (p.detail ≡ m) × (p.www_authenticate ≡ none)
Tells (internal m) p = (p.detail ≡ m) × (p.www_authenticate ≡ none)
Tells _ p = (p.detail ≡ reason_phrase 500) × (p.www_authenticate ≡ none)

abbrev Described : Error → Problem → Type 0
Described e p = (p.status ≡ code_of e) × (p.title ≡ reason_phrase p.status) × Tells e p
