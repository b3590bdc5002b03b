-- ===== src/Tests/Snapshot.antt =====
-- Runs of the snapshot.
use shoredb.Base.{◌≡◌, refl, true, none, some, [], ◌∷◌, map, arith, Bytes, codes, is_some}
use shoredb.Base.{str_eq}
use shoredb.Base.Dict.{lookup}
use shoredb.Base.Int.{pos}
use shoredb.Database.{Database, Databases, new_database, new_databases}
use shoredb.Rdb.{save_rdb}
use shoredb.Rdb.Load.{load_rdb}
use shoredb.Rdb.Sections.{AllFit}
use shoredb.Rdb.Restore.{Storable, without_deadlines}
use shoredb.Rdb.Returns.{load_rdb-returns}
use shoredb.Rdb.RoundTrip.{load_rdb-save_rdb}

abbrev pub busy : Database
busy = record {
  store = (codes "a", codes "one") ∷ (codes "b", []) ∷ [];
  lists = (codes "l", codes "x" ∷ codes "y" ∷ codes "x" ∷ []) ∷ [];
  sets = (codes "s", (codes "m", tt) ∷ (codes "n", tt) ∷ []) ∷ [];
  hashes = (codes "h", (codes "f", codes "1") ∷ []) ∷ [];
  expires = (codes "a", pos 7) ∷ [];
}

busy-Storable : Storable busy
unfolding lookup str_eq
busy-Storable = record {
  maps = record {
    store = (refl, (refl, tt));
    lists = (refl, tt);
    sets = (refl, tt);
    hashes = (refl, tt);
    expires = (refl, tt);
  };
  strings = ((omega arith, omega arith), ((omega arith, omega arith), tt));
  lists = (
    ((omega arith, omega arith, (omega arith, (omega arith, (omega arith, tt)))), omega arith),
    tt,
  );
  sets = (
    ((omega arith, omega arith, (omega arith, (omega arith, tt))), omega arith, (refl, (refl, tt))),
    tt,
  );
  hashes =
      (((omega arith, omega arith, ((omega arith, omega arith), tt), (refl, tt)), omega arith), tt);
  few = omega arith;
}

new-Storable : Storable new_database
new-Storable = record {
  maps = record { store = tt; lists = tt; sets = tt; hashes = tt; expires = tt };
  strings = tt;
  lists = tt;
  sets = tt;
  hashes = tt;
  few = omega arith;
}

abbrev pub two_busy : Databases
two_busy =
    busy ∷ new_database ∷ new_database ∷ busy ∷ new_database ∷ new_database ∷ new_database
    ∷ new_database ∷ new_database ∷ new_database ∷ new_database ∷ new_database ∷ new_database
    ∷ new_database ∷ new_database ∷ new_database ∷ []

pub two_busy-Storable : AllFit Storable two_busy
two_busy-Storable = (
  busy-Storable,
  (
    new-Storable,
    (
      new-Storable,
      (
        busy-Storable,
        (
          new-Storable,
          (
            new-Storable,
            (
              new-Storable,
              (
                new-Storable,
                (
                  new-Storable,
                  (
                    new-Storable,
                    (
                      new-Storable,
                      (
                        new-Storable,
                        (new-Storable, (new-Storable, (new-Storable, (new-Storable, tt)))),
                      ),
                    ),
                  ),
                ),
              ),
            ),
          ),
        ),
      ),
    ),
  ),
)

load_rdb-save_rdb_example :
    load_rdb (pos 9) (save_rdb two_busy) new_databases ≡ some (map without_deadlines two_busy, none)
load_rdb-save_rdb_example = load_rdb-save_rdb (pos 9) two_busy refl two_busy-Storable

-- A file that ends within an entry.
abbrev cut_short : Bytes
cut_short = codes "DATABASE0009\0\u{5}ab"

load_rdb-returns_example : is_some (load_rdb (pos 9) cut_short new_databases) ≡ true
load_rdb-returns_example = load_rdb-returns (pos 9) cut_short new_databases
