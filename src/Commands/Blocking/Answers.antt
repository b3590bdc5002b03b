-- ===== src/Commands/Blocking/Answers.antt =====
-- The replies of blockingPop of pkg/commands/list_commands.go, against the database that it pops from.
use shoredb.Base.{
  ◌≡◌, ◌⊎◌, Bool, true, false, Option, none, some, List, [], ◌∷◌, Bytes, ◌==◌, if◌then◌else◌,
  length,
}
use shoredb.Base.Dict.{lookup}
use shoredb.Resp.{Value, array, of_list, bulk_string, null}
use shoredb.Datastruct.Lists.{Items}
use shoredb.Datastruct.Sets.Counts.{among}
use shoredb.Database.{Time, Database, is_due}
use shoredb.Commands.Blocking.{Pop, answered, Phase, is_over}

-- A pop of a value from the list under one of the keys, whose deadline is not there: the rest of the list
-- stands under the key afterwards, or nothing if there is no rest.
pub record IsPop (pop : Pop) (now : Time) (keys : List Bytes) (db db' : Database)
    (key value : Bytes) : Type 0 where
  pub list : Items
  pub rest : Items
  pub asked : among key keys ≡ true
  pub held : lookup key db.lists ≡ some list
  pub live : is_due now (lookup key db.expires) ≡ false
  pub taken : pop list ≡ (rest, some value)
  pub left : lookup key db'.lists ≡ (if length rest == 0 then none else some rest)

-- What a pass over the keys means by its result.
abbrev PassOk : Pop → Time → List Bytes → Database → Database × Option (Bytes × Bytes) → Type 0
PassOk pop now keys db (db', none) = Unit
PassOk pop now keys db (db', some (key, value)) = IsPop pop now keys db db' key value

-- What a client is told, by the databases before and after: nothing, behind its deadline, or a key and the
-- value that was popped from its list.
pub record Tells (pop : Pop) (keys : List Bytes) (db db' : Database) (v : Value) : Type 0 where
  pub now : Time
  pub key : Bytes
  pub value : Bytes
  pub popped : IsPop pop now keys db db' key value
  pub told : v ≡ array (of_list (bulk_string key ∷ bulk_string value ∷ []))

pub record TimesOut (deadline : Option Time) (db db' : Database) (v : Value) : Type 0 where
  pub now : Time
  pub over : is_over now deadline ≡ true
  pub kept : db' ≡ db
  pub told : v ≡ null

abbrev pub Answer : Pop → List Bytes → Option Time → Database → Database → Phase → Type 0
Answer pop keys deadline db db' (answered v) = Tells pop keys db db' v ⊎ TimesOut deadline db db' v
Answer pop keys deadline db db' _ = Unit

abbrev pub has_answer : Phase → Bool
has_answer (answered v) = true
has_answer _ = false
