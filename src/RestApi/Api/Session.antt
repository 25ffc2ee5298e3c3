-- ===== src/RestApi/Api/Session.antt =====
-- Creating, fetching and listing customers.
use mathlib.Core.Option
use mathlib.Core.Bool.{Bool-set}
use mathlib.Core.Logic.Or
use mathlib.Core.List.{Mem, Mem-prop, mem-cons, not-mem-nil}
use mathlib.Core.List.Perm
use go_learning.Common.{
  ℕ, zero, suc, ◌+◌, ◌-◌, ◌*◌, ◌≤◌, ◌<◌, List, [], ◌∷◌, map, Option, none, some, Bool, true, false,
  Bytes, string_comparable, ◌≡◌, refl, sym, ap, ◌∙◌, inl, inr, All, length, take, drop,
}
use go_learning.Common.Int.{ℤ, pos, ltb_ℤ, max_int64, word}
use go_learning.GoErrors.{str}
use go_learning.GoHttp.{get_header, status_ok, status_created}
use go_learning.GoStrings.{contains_byte}
use go_learning.Genx.{Page, paginate, slice, page_of}
use go_learning.Genx.Paging.{clamped, paginate_offset_overflow, paginate-window, pages}
use go_learning.RestApi.Customer.{Customer, validate}
use go_learning.RestApi.Repo.{
  InMemoryRepo, ok, create, by_id, customer_id, stamped, taken, service_create, service_get,
  service_list, list_all,
}
use go_learning.RestApi.Repo.Laws.{IsValid, create_lem, list_all-perm}
use go_learning.RestApi.Wire.{
  Env, Request, World, returned, panicked, CustomerResponse, CreateCustomerRequest, customer_body,
  write_json, decode_json, decoded, max_body_bytes, list_body,
}
use go_learning.RestApi.Handler.{
  pii, requested, create_customer, get_customer, to_responses, list_page, list_customers,
  paginate_customers, page_view, PageView, atoi_default,
}
use go_learning.RestApi.Api.Keeps.{IsGood, to_response_total, validate-contains}

abbrev pub view : Page Customer → PageView
view p = page_view p.page p.size p.total p.total_pages p.items

-- The local pagination of this module does what `genx.Paginate` does, panics included.
pub paginate_customers-paginate :
    (items : List Customer) (page size : ℤ)
    → paginate_customers items page size ≡ Option.map view (paginate items page size)
unfolding paginate_customers paginate
paginate_customers-paginate items page size = viewed _ _ _ _ (slice _ _ items)
  where
    viewed :
        (page size total total_pages : ℤ) (window : Option (List Customer))
        → Option.map (page_view page size total total_pages) window
          ≡ Option.map view (Option.map (page_of page size total total_pages) window)
    viewed page size total total_pages none = refl
    viewed page size total total_pages (some window) = refl

-- The page and the size that a request asks for.
abbrev pub page_param : Request → ℤ
page_param r = atoi_default (get_header (str "page") r.query) (pos 1)

abbrev pub size_param : Request → ℤ
size_param r = atoi_default (get_header (str "size") r.query) (pos 20)

-- Listing panics, whatever is stored, for a page whose offset (page - 1) * size lies between 2^63
-- and 2^64.
pub list_customers_panics :
    (env : Env) (r : Request) (w : World)
    → clamped (page_param r) 1 ≤ max_int64
    → max_int64 < (clamped (page_param r) 1 - 1) * clamped (size_param r) 20
    → (clamped (page_param r) 1 - 1) * clamped (size_param r) 20 < word
    → list_customers env r w ≡ panicked w
unfolding list_customers
list_customers_panics env r w h k l =
    let all = service_list env.order w.repo in
    ap (list_page env r w) (
      paginate_customers-paginate all (page_param r) (size_param r)
      ∙ ap (Option.map view) (paginate_offset_overflow all (page_param r) (size_param r) h k l))

to_responses_total :
    (env : Env) (redact_pii : Bool) (cs : List Customer)
    → ((c : Customer) → Mem c cs → contains_byte b'@' c.email ≡ true)
    → (vs : List CustomerResponse) × (to_responses env redact_pii cs ≡ some vs)
      × (map (λ v. v.id) vs ≡ map (λ c. c.id) cs)
unfolding to_responses
to_responses_total env redact_pii [] h = ([], refl, refl)
to_responses_total env redact_pii (c ∷ cs) h =
    let (v, shows, same_id, _) =
      to_response_total env c redact_pii (h c (mem-cons.1 (Or.inl refl))) in
    let (vs, rest, same) =
      to_responses_total env redact_pii cs (λ d m. h d (mem-cons.1 (Or.inr m))) in
    (v ∷ vs, rw (shows, to_responses) (rw rest), cc)

stored-contains :
    (m : List (Bytes × Customer)) (c : Customer)
    → All (λ p. contains_byte b'@' p.1.email ≡ true) m
    → Mem c (map (λ p. p.1) m)
    → contains_byte b'@' c.email ≡ true
stored-contains [] c h mem = absurd (not-mem-nil mem)
stored-contains (p ∷ m) c h mem =
    Or.elim (Bool-set _ _) (mem-cons.0 mem) (λ e. rw e h.0) (stored-contains m c h.1)

mem-drop : (n : ℕ) (cs : List Customer) (c : Customer) → Mem c (drop n cs) → Mem c cs
mem-drop zero cs c m = m
mem-drop (suc n) [] c m = m
mem-drop (suc n) (d ∷ cs) c m = mem-cons.1 (Or.inr (mem-drop n cs c m))

mem-take : (n : ℕ) (cs : List Customer) (c : Customer) → Mem c (take n cs) → Mem c cs
mem-take zero cs c m = absurd (not-mem-nil m)
mem-take (suc n) [] c m = m
mem-take (suc n) (d ∷ cs) c m =
    Or.elim Mem-prop (mem-cons.0 m) (λ e. mem-cons.1 (Or.inl e))
      (λ later. mem-cons.1 (Or.inr (mem-take n cs c later)))

-- On a good repository, listing succeeds for every page and size whose products and sums stay in
-- the range of a 64-bit `int`: the answer has status 200, holds the ids of the customers of the
-- window in the order of the list, counts all customers and all pages, and says that there is a
-- next page exactly when the page's number is below the number of pages.
pub list_customers-window :
    (env : Env) (r : Request) (w : World)
    → IsGood w.repo
    → clamped (page_param r) 1 ≤ max_int64
    → (clamped (page_param r) 1 - 1) * clamped (size_param r) 20 ≤ max_int64
    → length (service_list env.order w.repo) + clamped (size_param r) 20 ≤ max_int64
    → let all = service_list env.order w.repo in
      let p = clamped (page_param r) 1 in
      let s = clamped (size_param r) 20 in
      (vs : List CustomerResponse) × (list_customers env r w
        ≡ returned (
            write_json status_ok
              (list_body (record {
                items = vs;
                page = pos p;
                total_pages = pos (pages (length all) s);
                total = pos (length all);
                has_next = ltb_ℤ (pos p) (pos (pages (length all) s));
              }))
              w))
      × (map (λ v. v.id) vs ≡ map (λ c. c.id) (take s (drop ((p - 1) * s) all)))
unfolding list_customers service_list
list_customers-window env r w good l h k =
    let all = list_all env.order w.repo in
    let p = clamped (page_param r) 1 in
    let s = clamped (size_param r) 20 in
    let window = take s (drop ((p - 1) * s) all) in
    let shown = to_responses_total env (pii r) window (λ c m. stored-contains w.repo.m c good.1 (
      Perm.subset (list_all-perm env.order w.repo) c
        (mem-drop ((p - 1) * s) all c (mem-take s (drop ((p - 1) * s) all) c m)))) in
    (
      shown.0,
      ap (list_page env r w) (
            paginate_customers-paginate all (page_param r) (size_param r)
            ∙ ap (Option.map view) (paginate-window all (page_param r) (size_param r) h k l))
          ∙ rw (shown.1) refl,
      shown.2,
    )

fresh_create :
    (now : ℕ) (c : Customer) (r : InMemoryRepo)
    → IsValid r
    → taken c.email r.m ≡ false
    → let id = customer_id (suc r.seq) in
      (create now c r ≡ (ok (stamped id now c), (create now c r).1))
      × (by_id id (create now c r).1 ≡ ok (stamped id now c))
fresh_create now c r valid free = elim (create_lem now c r valid) [
  | inl (old, _) ↦ absurd (clash (sym old ∙ free))
  | inr (_, made, _, found, _) ↦ ((λ i. (made i, (create now c r).1)), found)
]
  where
    clash : true ≡ false → ⊥
    clash p = cc

-- A POST whose body decodes to one valid request, with an address that nobody has yet, answers 201
-- with the new customer; a GET for the id in that answer, under the same `X-Scope`, answers 200 with
-- the same customer, whatever else that request holds.
pub create-get :
    (env : Env) (r r' : Request) (w v : World) (req : CreateCustomerRequest)
    → IsGood w.repo
    → env.decode max_body_bytes r.body ≡ decoded req false
    → validate (requested env req) ≡ none
    → taken req.email w.repo.m ≡ false
    → pii r' ≡ pii r
    → (c : CustomerResponse) × (repo : InMemoryRepo) × (create_customer env r w
        ≡ returned (write_json status_created (customer_body c) (record w { repo = repo })))
      × (get_customer env c.id r' (record v { repo = repo })
          ≡ returned (write_json status_ok (customer_body c) (record v { repo = repo })))
      × (c.id ≡ customer_id (suc w.repo.seq))
      × (c.name ≡ req.name)
unfolding create_customer get_customer decode_json service_create service_get
create-get env r r' w v req good body valid free scope =
    let d = stamped (customer_id (suc w.repo.seq)) r.now (requested env req) in
    let repo = (create r.now (requested env req) w.repo).1 in
    let shown = to_response_total env d (pii r) (validate-contains (requested env req) valid) in
    let lem = fresh_create r.now (requested env req) w.repo good.0 free in
    (
      shown.0,
      repo,
      rw (body) (rw (valid) (rw (lem.0) (rw (shown.1) refl))),
      rw (shown.2) (rw (lem.1) (rw scope (rw (shown.1) refl))),
      shown.2,
      shown.3,
    )
