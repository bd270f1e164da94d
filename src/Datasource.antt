-- ===== src/Datasource.antt =====
-- An edit of a registered datasource (genql/domain/entities/datasource.py,
-- genql/domain/value_objects/datasource_update.py, genql/services/datasource/datasource_merge.py).
use gen_ql.Base.{
  ℕ, String, Bool, true, false, not, ◌&&◌, ◌||◌, Option, none, some, List, [], ◌∷◌, ◌++◌, is_some,
  is_empty, is_nonempty, eqb, if◌then◌else◌, Error, incomplete_datasource_connection_error, Result,
  ok, err,
}
pub mod Merge
mod Tests

pub record Datasource : Type 0 where
  pub name : String
  pub dialect : String
  pub dsn_env_var : Option String
  pub host : Option String
  pub port : Option ℕ
  pub database : Option String
  pub username : Option String
  pub password_ciphertext : Option String
  pub options : Option String
  pub description : Option String
  pub enabled : Bool

-- `none` leaves a field alone.
pub record DatasourceUpdate : Type 0 where
  pub dialect : Option String
  pub dsn_env_var : Option String
  pub host : Option String
  pub port : Option ℕ
  pub database : Option String
  pub username : Option String
  pub password : Option String
  pub options : Option String
  pub description : Option String
  pub enabled : Option Bool

-- A mentioned value replaces the old one.
abbrev pub put {ℓ} : {A : Type ℓ} → Option A → A → A
put none old = old
put (some new) old = new

abbrev pub put_some {ℓ} : {A : Type ℓ} → Option A → Option A → Option A
put_some none old = old
put_some (some new) old = some new

-- In a clearable field an empty text clears it.
abbrev pub put_clearable : Option String → Option String → Option String
put_clearable none old = old
put_clearable (some new) old = if is_empty new then none else some new

-- `changes` applied to the row.
abbrev pub changed : DatasourceUpdate → Datasource → Datasource
changed p d = record d {
  dialect = put p.dialect d.dialect;
  dsn_env_var = put_clearable p.dsn_env_var d.dsn_env_var;
  host = put_some p.host d.host;
  port = put_some p.port d.port;
  database = put_some p.database d.database;
  username = put_some p.username d.username;
  options = put_clearable p.options d.options;
  description = put_clearable p.description d.description;
  enabled = put p.enabled d.enabled;
}

unfoldable pub touches_endpoint : DatasourceUpdate → Bool
touches_endpoint p = is_some p.host || is_some p.port || is_some p.database || is_some p.username

-- Python's truth of an optional text, and of an optional number.
abbrev pub has_text : Option String → Bool
has_text none = false
has_text (some s) = not (is_empty s)

abbrev pub has_number : Option ℕ → Bool
has_number none = false
has_number (some n) = not (eqb n 0)

-- An endpoint drops the environment variable; else a variable drops the endpoint and the password.
unfoldable pub relocated : DatasourceUpdate → Datasource → Datasource
unfolding touches_endpoint
relocated p d =
    if touches_endpoint p
    then record d { dsn_env_var = none }
    else if has_text p.dsn_env_var
    then record d {
      host = none;
      port = none;
      database = none;
      username = none;
      password_ciphertext = none;
    }
    else d

unfoldable pub with_password : (String → String) → Option String → Datasource → Datasource
with_password encrypt none d = d
with_password encrypt (some password) d = record d {
  password_ciphertext = if is_empty password then none else some (encrypt password);
}

abbrev named_unless : Bool → String → List String
named_unless true name = []
named_unless false name = name ∷ []

-- The endpoint fields with nothing in them.
unfoldable pub missing_fields : Datasource → List String
missing_fields d =
    named_unless (has_text d.host) "host"
    ++ named_unless (has_number d.port) "port"
    ++ named_unless (has_text d.database) "database"
    ++ named_unless (has_text d.username) "username"

-- `_require_connectable`
unfoldable pub require_connectable : Datasource → Result Datasource
unfolding missing_fields
require_connectable d =
    if has_text d.dsn_env_var
    then ok d
    else if is_nonempty (missing_fields d)
    then err (incomplete_datasource_connection_error (missing_fields d))
    else ok d

-- `encrypt` is the cipher's.
unfoldable pub merge : (String → String) → Datasource → DatasourceUpdate → Result Datasource
unfolding relocated with_password require_connectable
merge encrypt d p =
    require_connectable (with_password encrypt p.password (relocated p (changed p d)))
