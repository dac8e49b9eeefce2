-- ===== src/Tests/Access.antt =====
-- The theorems on tokens, roles and administrators, on a database with two administrators' keys.
use kora_db.Base.{
  ◌≡◌, ◌++◌, refl, true, Bytes, text, Option, none, some, [], ◌∷◌, Result, ok, err, syntax,
  bytes_equal, has_prefix, if◌then◌else◌,
}
use kora_db.Base.Int.{pos}
use kora_db.Storage.{get, view}
use kora_db.Storage.Memory.{Memory, memory, IsBolt-memory}
use kora_db.Engine.Meta.{Codec}
use kora_db.Auth.{
  KeyRecord, Principal, keys_bucket, revoke, can, required_role, method_min_role, after_slash,
  authenticate_at, find_record, parse_token, check_parts, split, is_hex,
}
use kora_db.Auth.Access.{Accepted, authenticate_at-Accepted}
use kora_db.Strconv.Runes.{trim_space, trim_head, trim_tail, space_width}
use kora_db.Server.{Response, served}
use kora_db.Server.Access.{
  auth_interceptor, decide, is_public_health_method, health_check_method, bearer_token,
}
use kora_db.Server.Access.Guarded.{Guarded, auth_interceptor-Guarded}
use kora_db.Auth.Admins.{HasAdmin, revoke-HasAdmin}

-- A record is stored as its role and its name.
abbrev record_of : Bytes → Result KeyRecord
record_of [] = err syntax
record_of (r ∷ name) = ok (record {
  key_id = name;
  name = name;
  role = pos r;
  secret_sha256 = text "digest";
  created_unix = pos 0;
  expires_unix = pos 0;
})

abbrev records : Codec KeyRecord
records = record { encode = λ r. ok []; decode = record_of }

abbrev id_1 : Bytes
id_1 = text "0123456789abcdef"

abbrev id_2 : Bytes
id_2 = text "fedcba9876543210"

abbrev keys : Memory
keys b =
    if bytes_equal b keys_bucket
    then some
        (record { sequence = 0; items = (id_1, 3 ∷ text "ann") ∷ (id_2, 3 ∷ text "bob") ∷ [] })
    else none

two_admins : HasAdmin memory records keys
unfolding bytes_equal keys_bucket
two_admins = record {
  key = id_2;
  value = 3 ∷ text "bob";
  stored = refl;
  holder = record {
    rec = record {
      key_id = text "bob";
      name = text "bob";
      role = pos 3;
      secret_sha256 = text "digest";
      created_unix = pos 0;
      expires_unix = pos 0;
    };
    decoded = refl;
    admin = refl;
  };
}

revoke-HasAdmin_example : HasAdmin memory records (revoke memory records id_2 keys).1
revoke-HasAdmin_example = revoke-HasAdmin memory IsBolt-memory records id_2 keys two_admins

abbrev writer : Principal
writer = record { key_id = id_1; name = text "ann"; role = pos 2 }

abbrev admin : Principal
admin = record { key_id = id_2; name = text "bob"; role = pos 3 }

insert_allowed : can (some writer) (text "/yuvanolabs.koradb.v1.KoraDB/Insert") ≡ true
unfolding can required_role method_min_role after_slash bytes_equal
insert_allowed = refl

abbrev secret : Bytes
secret = text "0123456789abcdef0123456789abcdef0123456789abcdef0123456789abcdef"

abbrev token : Bytes
token = text "kdb_" ++ (id_1 ++ (text "_" ++ secret))

abbrev digest : Bytes → Bytes
digest s = text "digest"

abbrev ann : Principal
ann = record { key_id = text "ann"; name = text "ann"; role = pos 3 }

ann_enters : authenticate_at memory records digest keys token (pos 7) ≡ ok ann
unfolding authenticate_at view find_record get parse_token check_parts split is_hex has_prefix
    bytes_equal keys_bucket
ann_enters = refl

authenticate_at-Accepted_example :
    Accepted memory IsBolt-memory records digest keys token (pos 7) ann
authenticate_at-Accepted_example =
    authenticate_at-Accepted memory IsBolt-memory records digest keys token (pos 7) ann ann_enters

-- A handler that answers with the name of its caller.
abbrev greet : Option Principal → Memory → Response Bytes × Memory
greet none t = (served [], t)
greet (some p) t = (served p.name, t)

auth_interceptor-Guarded_example :
    Guarded memory records digest
      (text "/yuvanolabs.koradb.v1.KoraDB/Insert")
      (some ((text "Bearer " ++ token) ∷ []))
      (pos 7)
      keys
      greet
      (auth_interceptor memory records digest greet
        (text "/yuvanolabs.koradb.v1.KoraDB/Insert")
        (some ((text "Bearer " ++ token) ∷ []))
        (pos 7)
        keys).0
auth_interceptor-Guarded_example =
    auth_interceptor-Guarded memory records digest (text "/yuvanolabs.koradb.v1.KoraDB/Insert")
      (some ((text "Bearer " ++ token) ∷ [])) (pos 7) keys greet

greeted :
    (auth_interceptor memory records digest greet
      (text "/yuvanolabs.koradb.v1.KoraDB/Insert")
      (some ((text "Bearer " ++ token) ∷ []))
      (pos 7)
      keys).0.0
    ≡ served (text "ann")
unfolding auth_interceptor decide is_public_health_method health_check_method bearer_token
    trim_space trim_head trim_tail space_width authenticate_at view find_record get parse_token
    check_parts split is_hex has_prefix bytes_equal keys_bucket can required_role method_min_role
    after_slash
greeted = refl
