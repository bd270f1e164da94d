-- ===== src/Datasource/Tests.antt =====
-- A datasource that moves from an environment variable to an endpoint, with the theorems at it.
use gen_ql.Base.{String, true, none, some, ◌≡◌, refl, ok, inr}
use gen_ql.Datasource.{Datasource, DatasourceUpdate, merge}
use gen_ql.Datasource.Merge.{IsLocated, merge-IsLocated, merge_password, password_after}

abbrev local : Datasource
local = record {
  name = "local";
  dialect = "postgres";
  dsn_env_var = some "LOCAL_DSN";
  host = none;
  port = none;
  database = none;
  username = none;
  password_ciphertext = none;
  options = none;
  description = none;
  enabled = true;
}

abbrev moves : DatasourceUpdate
moves = record {
  dialect = none;
  dsn_env_var = none;
  host = some "db.example";
  port = some 5432;
  database = some "sales";
  username = some "reader";
  password = some "secret";
  options = none;
  description = some "";
  enabled = none;
}

abbrev cipher : String → String
cipher _ = "sealed"

abbrev moved : Datasource
moved = record {
  name = "local";
  dialect = "postgres";
  dsn_env_var = none;
  host = some "db.example";
  port = some 5432;
  database = some "sales";
  username = some "reader";
  password_ciphertext = some "sealed";
  options = none;
  description = none;
  enabled = true;
}

accepts : merge cipher local moves ≡ ok moved
unfolding merge
accepts = refl

merge-IsLocated_example : IsLocated moved
merge-IsLocated_example = merge-IsLocated cipher local moves (inr (refl, refl, refl, refl)) accepts

merge_password_example :
    (moved.password_ciphertext ≡ password_after cipher local moves) × (moved.name ≡ local.name)
merge_password_example = merge_password cipher local moves accepts
