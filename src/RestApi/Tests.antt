-- ===== src/RestApi/Tests.antt =====
-- m04-rest-api: the theorems at concrete requests, and runs of the handlers.
use go_learning.Common.{
  ◌++◌, ℕ, List, [], ◌∷◌, none, some, false, Bytes, bytes_eq, string_comparable, ◌≡◌, refl, inl,
  arith, if◌then◌else◌, length, take, drop, map, ◌-◌, ◌*◌,
}
use go_learning.Common.Int.{pos, ltb_ℤ}
use go_learning.Common.GoMap.{insertion_order}
use go_learning.Decimal.{decimal, atoi, digits_value, value_from}
use go_learning.GoErrors.{str, text, join₂}
use go_learning.GoHttp.{get_header, status_ok, status_created}
use go_learning.GoStrings.{
  contains_byte, is_blank, trim_prefix, strip_prefix, slice_from, index_byte,
}
use go_learning.Genx.Paging.{clamped, pages}
use go_learning.RestApi.Customer.{Customer, validate}
use go_learning.RestApi.Repo.{InMemoryRepo, new_repo, customer_id, taken, service_list, list_all}
use go_learning.RestApi.Repo.Laws.{create-IsValid}
use go_learning.RestApi.Wire.{
  Env, Request, World, returned, panicked, post_customers, get_customers, CustomerResponse,
  CreateCustomerRequest, customer_body, list_body, error_body, write_json, decoded, respond_error,
}
use go_learning.RestApi.Handler.{
  redact_email, create_customer, get_customer, list_customers, atoi_default,
}
use go_learning.RestApi.Middleware.{routes}
use go_learning.RestApi.Api.Answers.{
  IsAnswered, HasCode, IsSafeAnswer, routes-IsAnswered, respond_error-IsSafe,
}
use go_learning.RestApi.Api.Keeps.{IsGood}
use go_learning.RestApi.Api.Guarded.{IsDenied, routes-IsDenied, presented}
use go_learning.RestApi.Api.Session.{
  create-get, list_customers-window, list_customers_panics, page_param, size_param,
}

-- A body is the e-mail address of a customer called Ada; POST creates, all else lists.
abbrev sample_env : Env
sample_env = record {
  token = str "secret";
  order = insertion_order;
  rfc3339 = decimal;
  decode = λ limit b. decoded (record { email = b; name = str "Ada" }) false;
  chi = λ method path. if bytes_eq method (str "POST") then post_customers else get_customers;
}

abbrev post_ada : Request
post_ada = record {
  method = str "POST";
  path = str "/v1/customers";
  headers = (str "Authorization", str "Bearer secret") ∷ [];
  query = [];
  body = str "ada@pulse.dev";
  now = 7;
  request_id = none;
}

abbrev get_huge_page : Request
get_huge_page = record post_ada {
  method = str "GET";
  query = (str "page", str "922337203685477581") ∷ (str "size", str "20") ∷ [];
}

abbrev start : World
start = record {
  repo = new_repo;
  rid_seq = 0;
  log = [];
  headers = [];
  status = none;
  recorded = 0;
  body = [];
}

start-IsGood : IsGood start.repo
unfolding new_repo
start-IsGood = (create-IsValid.0, tt)

routes-IsAnswered_example : IsAnswered post_ada [] (routes sample_env post_ada start)
routes-IsAnswered_example = routes-IsAnswered sample_env post_ada start refl

abbrev no_token : Request
no_token = record post_ada { headers = [] }

no_token-presented : presented no_token ≡ []
unfolding get_header trim_prefix strip_prefix
no_token-presented = refl

routes-IsDenied_example : IsDenied start (routes sample_env no_token start)
unfolding get_header trim_prefix strip_prefix
routes-IsDenied_example = routes-IsDenied sample_env no_token start refl tt (inl (λ p. cc))

abbrev ada : CreateCustomerRequest
ada = record { email = str "ada@pulse.dev"; name = str "Ada" }

create-get_example :
    (c : CustomerResponse) × (repo : InMemoryRepo) × (create_customer sample_env post_ada start
      ≡ returned (write_json status_created (customer_body c) (record start { repo = repo })))
    × (get_customer sample_env c.id post_ada (record start { repo = repo })
        ≡ returned (write_json status_ok (customer_body c) (record start { repo = repo })))
    × (c.id ≡ customer_id (ℕ.suc start.repo.seq))
    × (c.name ≡ ada.name)
unfolding new_repo taken validate contains_byte is_blank join₂
create-get_example =
    create-get sample_env post_ada post_ada start start ada start-IsGood refl refl refl refl

list_customers_panics_example : list_customers sample_env get_huge_page start ≡ panicked start
unfolding atoi_default get_header atoi digits_value value_from
list_customers_panics_example =
    list_customers_panics sample_env get_huge_page start (omega arith) (omega arith) (omega arith)

list_customers-window_example :
    let all = service_list sample_env.order start.repo in
    let p = clamped (page_param post_ada) 1 in
    let s = clamped (size_param post_ada) 20 in
    (vs : List CustomerResponse) × (list_customers sample_env post_ada start
      ≡ returned (
          write_json status_ok
            (list_body (record {
              items = vs;
              page = pos p;
              total_pages = pos (pages (length all) s);
              total = pos (length all);
              has_next = ltb_ℤ (pos p) (pos (pages (length all) s));
            }))
            start))
    × (map (λ v. v.id) vs ≡ map (λ c. c.id) (take s (drop ((p - 1) * s) all)))
unfolding atoi_default get_header atoi service_list list_all new_repo
list_customers-window_example =
    list_customers-window sample_env post_ada start start-IsGood (omega arith) (omega arith)
      (omega arith)

abbrev bob : Customer
bob = record {
  id = [];
  email = str "bob@pulse.dev";
  name = str "Bob";
  created_at = 0;
  updated_at = 0;
}

respond_error-IsSafe_example :
    let e = text (str "disk full") in
    (w' : World) × (status : ℕ) × (code : Bytes) × (msg : Bytes) × (respond_error (some e) start
      ≡ returned w')
    × (w'.status ≡ some status)
    × (w'.body ≡ start.body ++ error_body code msg ∷ [])
    × (w'.repo ≡ start.repo)
    × HasCode e code
    × IsSafeAnswer e status code msg
respond_error-IsSafe_example = respond_error-IsSafe (text (str "disk full")) start refl

short_name : redact_email (str "a@b.io") ≡ some (str "***@b.io")
unfolding redact_email slice_from index_byte
short_name = refl
