-- ===== src/GoMux.antt =====
-- What the program uses of `http.ServeMux`: patterns of a method and a path, with whole segments as
-- wildcards. A path is the list of its segments, as the mux has cleaned it. The mux takes the most
-- specific pattern that matches; in the program's tables no two patterns match one request.
use go_learning.Common.{
  List, [], ◌∷◌, Bool, true, false, ◌&&◌, ◌||◌, Bytes, bytes_eq, if◌then◌else◌,
}
use go_learning.GoErrors.{str}

pub data Segment : Type 0 where
  literal : Bytes → Segment
  wildcard : Segment

pub record Pattern : Type 0 where
  pub method : Bytes
  pub path : List Segment

-- A wildcard takes one segment, which is not empty.
abbrev pub fits : Segment → Bytes → Bool
fits (literal l) s = bytes_eq l s
fits wildcard [] = false
fits wildcard (b ∷ bs) = true

abbrev pub fits_path : List Segment → List Bytes → Bool
fits_path [] [] = true
fits_path [] (s ∷ path) = false
fits_path (p ∷ ps) [] = false
fits_path (p ∷ ps) (s ∷ path) = fits p s && fits_path ps path

-- `r.PathValue` of the one wildcard that the program's patterns have at most.
abbrev pub path_value : List Segment → List Bytes → Bytes
path_value [] path = []
path_value (p ∷ ps) [] = []
path_value (literal l ∷ ps) (s ∷ path) = path_value ps path
path_value (wildcard ∷ ps) (s ∷ path) = s

-- A pattern for GET also takes HEAD.
abbrev pub fits_method : Bytes → Bytes → Bool
fits_method want method =
    bytes_eq want method || (bytes_eq want (str "GET") && bytes_eq method (str "HEAD"))

pub data Routed (A : Type 0) : Type 0 where
  found_route : A → Bytes → Routed A
  method_not_allowed : Routed A
  no_route : Routed A

-- A path that fits with another method only is answered by 405.
abbrev pub instead : {A : Type 0} → Bool → Routed A → Routed A
instead path_fits (found_route a v) = found_route a v
instead path_fits method_not_allowed = method_not_allowed
instead path_fits no_route = if path_fits then method_not_allowed else no_route

unfoldable pub route : {A : Type 0} → List (Pattern × A) → Bytes → List Bytes → Routed A
route [] method path = no_route
route ((p, a) ∷ table) method path =
    let rest = route table method path in
    if fits_path p.path path && fits_method p.method method
    then found_route a (path_value p.path path)
    else instead (fits_path p.path path) rest
