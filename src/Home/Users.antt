-- ===== src/Home/Users.antt =====
-- The file of the users: the readers that the macros of brokerpp/src/brokerpp/user_control.cpp
-- define, and the constructor of UserControl.
use tunnel_drill.Prelude.{ℕ, List, [], ◌∷◌, Option, Outcome, done, thrown, ◌>>=◌, or_throw}
use tunnel_drill.Json.{Json, Items, array, nil, cons, field, find, get_string, get_int}
use tunnel_drill.Auth.{Publisher, UsersFile}
use tunnel_drill.Home.{Home, load_home_file}

-- from_json of a Publisher; `maxServices` must be there, and nothing reads it.
pub publisher_of : Json → Outcome Publisher
publisher_of j = do
  identity ← or_throw (field get_string "identity" j)
  email ← or_throw (field get_string "email" j)
  pass ← or_throw (field get_string "pass" j)
  salt ← or_throw (field get_string "salt" j)
  max_services ← or_throw (field get_int "maxServices" j)
  done (record { email = email; identity = identity; pass = pass; salt = salt })

unfoldable pub publishers_of : Items → Outcome (List Publisher)
unfolding publisher_of
publishers_of nil = done []
publishers_of (cons j js) = do
  publisher ← publisher_of j
  publishers ← publishers_of js
  done (publisher ∷ publishers)

abbrev pub publisher_vector_of : Json → Outcome (List Publisher)
publisher_vector_of (array js) = publishers_of js
publisher_vector_of _ = thrown

-- from_json of a UsersFile.
unfoldable pub users_file_of : Json → Outcome UsersFile
unfolding publishers_of
users_file_of j = do
  pepper ← or_throw (field get_string "pepper" j)
  listed ← or_throw (find "publishers" j)
  publishers ← publisher_vector_of listed
  done (record { pepper = pepper; publishers = publishers })

-- UserControl::UserControl
unfoldable pub load_users : (List ℕ → Option Json) → Home → Outcome UsersFile
load_users parse h = do
  text ← load_home_file "broker/users.json" h
  j ← or_throw (parse text)
  users_file_of j
