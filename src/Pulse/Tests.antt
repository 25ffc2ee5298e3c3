-- ===== src/Pulse/Tests.antt =====
-- m10-project-structure/pulse: the theorems at concrete requests.
use go_learning.Common.{[], ◌∷◌, ◌++◌, refl, some, Bytes, ◌≡◌, arith}
use go_learning.GoErrors.{str, Result, ok}
use go_learning.Common.GoMap.{insert}
use go_learning.GoStrings.{contains_byte, is_blank}
use go_learning.GoMux.{route}
use go_learning.Pulse.Customer.{
  itoa, itoa_from, InMemoryRepo, create, validate, repo_create, taken_by,
}
use go_learning.GoHttp.{status_ok}
use go_learning.Pulse.Handler.{CreateReq, Resp, handle_create, write_json, customer_body}
use go_learning.Pulse.Routes.{serve, answer, routes}
use go_learning.Pulse.Routes.Session.{get_customer, serve-create-get}

abbrev decode : Bytes → Result CreateReq
decode b = ok (record { email = b; name = str "Ada" })

abbrev one : InMemoryRepo
one = record {
  m =
      (
        str "cus_1",
        record { id = str "cus_1"; email = str "ada@pulse.dev"; name = str "Ada"; created_at = 0 },
      )
      ∷ [];
  seq = 1;
}

abbrev bob : Resp
bob = record { id = str "cus_2"; email = str "bob@pulse.dev"; name = str "Ada" }

abbrev two : InMemoryRepo
two = record one {
  m =
      one.m
      ++ (
        str "cus_2",
        record { id = str "cus_2"; email = str "bob@pulse.dev"; name = str "Ada"; created_at = 7 },
      )
        ∷ [];
  seq = 2;
}

serve-create-get_example :
    serve decode (get_customer bob.id) 9 two
    ≡ some (answer (write_json status_ok (customer_body bob)), two)
unfolding serve route routes handle_create create validate contains_byte is_blank repo_create
    taken_by itoa itoa_from insert
serve-create-get_example =
    serve-create-get decode (str "bob@pulse.dev") 7 9 one two bob (omega arith) refl
