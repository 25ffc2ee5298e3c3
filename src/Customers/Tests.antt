-- ===== src/Customers/Tests.antt =====
-- m01-interfaces-and-errors/solution-customer: the theorems at concrete customers.
use go_learning.GoErrors.{str}
use go_learning.Customers.{Customer}

abbrev ada : Customer
ada = record {
  id = str "c1";
  email = str "ada";
  name = str " ";
  audit = record { created_at = 0; updated_at = 0 };
}
