-- ===== src/MongoProfile/Tests.antt =====
-- m07-mongodb/solution-profile: the theorem over a collection in memory.
use go_learning.Common.{
  List, [], Option, none, some, Bytes, string_comparable, bytes_eq_refl, if◌then◌else◌, ap, ◌∙◌,
}
use go_learning.Common.GoMap.{lookup, insert, lookup-insert}
use go_learning.GoErrors.{str, sentinel, no_documents, Result, ok, err}
use go_learning.ProfileRpc.Repo.{Profile}
use go_learning.MongoProfile.{Mongo}
use go_learning.MongoProfile.Stored.{cut, IsUpserting}

abbrev Documents : Type 0
Documents = List (Bytes × Profile)

abbrev found : Option Profile → Result Profile
found none = err (sentinel no_documents)
found (some p) = ok p

abbrev sample_mongo : Mongo Documents
sample_mongo = record {
  create_index = λ s. (none, s);
  update_one = λ id traits t s.
      (none, insert id (record { customer_id = id; traits = traits; updated_at = cut t }) s);
  find_one = λ id s. found (lookup id s);
  insert_one = λ e s. (none, s);
  find = λ id s. ok (ok []);
  aggregate = λ id s. ok (ok []);
}

sample_mongo-IsUpserting : IsUpserting sample_mongo
sample_mongo-IsUpserting = record {
  finds = λ id traits t s e.
      let p : Profile = record { customer_id = id; traits = traits; updated_at = cut t } in
      ap found
        (lookup-insert id id p s ∙ ap (λ b. if b then some p else lookup id s) (bytes_eq_refl id));
}

abbrev ada : Profile
ada = record { customer_id = str "c1"; traits = []; updated_at = 0 }
