-- ===== src/RestApi/Repo.antt =====
-- m04-rest-api/solution-customer/customer.go: `InMemoryRepo`, and `Service`, which hands each call
-- on to its repository. Every method holds the lock throughout, so calls are atomic.
-- A method's pair `(Customer, error)` is a `Result`: the customer of a failed call is always zero.
pub mod Laws
use go_learning.Common.{
  ℕ, suc, List, [], ◌∷◌, ◌++◌, Option, none, some, Bool, true, false, Bytes, string_comparable,
  bytes_eq, any, if◌then◌else◌,
}
use go_learning.Common.GoMap.{lookup, insert, MapOrder}
use go_learning.Decimal.{padded}
use go_learning.GoErrors.{str, Err, sentinel, customer_not_found, customer_conflict}
use go_learning.RestApi.Customer.{Customer}
pub use go_learning.GoErrors.{Result, ok, err}

pub record InMemoryRepo : Type 0 where
  pub m : List (Bytes × Customer)
  pub seq : ℕ

unfoldable pub new_repo : InMemoryRepo
new_repo = record { m = []; seq = 0 }

-- `fmt.Sprintf("cus_%04d", seq)`
unfoldable pub customer_id : ℕ → Bytes
customer_id n = str "cus_" ++ padded 4 n

-- Some customer of the map has this e-mail address: the loop that ends in `ErrConflict`.
unfoldable pub taken : Bytes → List (Bytes × Customer) → Bool
taken email m = any (λ p. bytes_eq p.1.email email) m

abbrev pub stamped : Bytes → ℕ → Customer → Customer
stamped id now c = record c { id = id; created_at = now; updated_at = now }

unfoldable pub create : ℕ → Customer → InMemoryRepo → Result Customer × InMemoryRepo
create now c r = if taken c.email r.m then (err (sentinel customer_conflict), r) else (
  ok (stamped (customer_id (suc r.seq)) now c),
  record {
    m = insert (customer_id (suc r.seq)) (stamped (customer_id (suc r.seq)) now c) r.m;
    seq = suc r.seq;
  },
)

abbrev found_customer : Option Customer → Result Customer
found_customer none = err (sentinel customer_not_found)
found_customer (some c) = ok c

unfoldable pub by_id : Bytes → InMemoryRepo → Result Customer
by_id id r = found_customer (lookup id r.m)

list_from : List Customer → List (Bytes × Customer) → List Customer
list_from out [] = out
list_from out ((k, c) ∷ m) = list_from (out ++ c ∷ []) m

unfoldable pub list_all : MapOrder Bytes Customer → InMemoryRepo → List Customer
unfolding list_from
list_all order r = list_from [] (order.visit r.m)

-- `Service.Create`, `Service.Get` and `Service.List`
unfoldable pub service_create : ℕ → Customer → InMemoryRepo → Result Customer × InMemoryRepo
service_create now c r = create now c r

unfoldable pub service_get : Bytes → InMemoryRepo → Result Customer
service_get id r = by_id id r

unfoldable pub service_list : MapOrder Bytes Customer → InMemoryRepo → List Customer
service_list order r = list_all order r
