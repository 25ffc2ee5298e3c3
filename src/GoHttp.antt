-- ===== src/GoHttp.antt =====
-- What the program uses of `net/http`: status codes, headers and recorded responses.
use go_learning.Common.{ℕ, List, [], ◌∷◌, Bytes, bytes_eq, if◌then◌else◌}

abbrev pub status_ok : ℕ
status_ok = 200

abbrev pub status_created : ℕ
status_created = 201

abbrev pub status_bad_request : ℕ
status_bad_request = 400

abbrev pub status_unauthorized : ℕ
status_unauthorized = 401

abbrev pub status_not_found : ℕ
status_not_found = 404

abbrev pub status_conflict : ℕ
status_conflict = 409

abbrev pub status_internal : ℕ
status_internal = 500

-- `Header.Get`: the value of a header, "" when it is not there. Keys are in canonical form.
unfoldable pub get_header : Bytes → List (Bytes × Bytes) → Bytes
get_header k [] = []
get_header k ((j, v) ∷ h) = if bytes_eq j k then v else get_header k h

-- `Header.Set`
unfoldable pub set_header : Bytes → Bytes → List (Bytes × Bytes) → List (Bytes × Bytes)
set_header k v [] = (k, v) ∷ []
set_header k v ((j, w) ∷ h) = if bytes_eq j k then (k, v) ∷ h else (j, w) ∷ set_header k v h
