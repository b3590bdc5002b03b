-- ===== src/Tests/Access.antt =====
-- Runs of a connection.
use shoredb.Base.{◌≡◌, refl, false, List, [], ◌∷◌, map, Bytes, codes, str_eq}
use shoredb.Resp.{Value, bulk_string, array, of_list}
use shoredb.Server.{to_upper, new_connection}
use shoredb.Server.Access.{
  requests, AllReplies, IsIndex, AllOnIndex, requests-AllReplies, requests-AllOnIndex,
}

abbrev password : Bytes
password = codes "pw"

abbrev command : List Bytes → Value
command words = array (of_list (map bulk_string words))

-- A wrong AUTH, a GET, and a SELECT of the database 12.
abbrev session : List Value
session =
    command (codes "AUTH" ∷ codes "pq" ∷ [])
    ∷ command (codes "GET" ∷ codes "k" ∷ [])
    ∷ command (codes "select" ∷ codes "12" ∷ [])
    ∷ []

requests-AllReplies_example :
    ((requests password session (new_connection password)).0.authenticated ≡ false)
    × AllReplies (requests password session (new_connection password)).1
requests-AllReplies_example =
    requests-AllReplies password session (unfold str_eq in refl) (unfold to_upper str_eq in refl)

requests-AllOnIndex_example :
    IsIndex (requests [] session (new_connection [])).0.db_index
    × AllOnIndex (requests [] session (new_connection [])).1
requests-AllOnIndex_example = requests-AllOnIndex [] session
