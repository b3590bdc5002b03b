-- ===== src/Rdb/RoundTrip.antt =====
-- A snapshot of all the databases: Save and Load of pkg/persistence/rdb.go.
use shoredb.Base.{
  ℕ, zero, suc, ◌+◌, ◌-◌, ◌≤◌, ◌<◌, ◌≡◌, refl, sym, ap, ◌∙◌, inl, inr, false, none, some, List, [],
  ◌∷◌, ◌++◌, map, append_assoc, arith, Bytes, str_eq, ◌==◌, ==_iff, if◌then◌else◌, Bool-cases,
  length, length-append,
}
use shoredb.Base.{set}
use shoredb.Database.{Time, Database, Databases, num_databases, new_database}
use shoredb.Rdb.{save_database, save_databases, total_keys, op_eof, checksum}
use shoredb.Rdb.Load.{load_round, load_end, load_loop}
use shoredb.Rdb.Sections.{AllFit}
use shoredb.Rdb.Load.{load_rdb}
use shoredb.Rdb.{save_rdb, rdb_header}
use shoredb.Rdb.Codec.{read_bytes-append}
use shoredb.Database.{new_databases}
use shoredb.Rdb.Rounds.{all_rounds, all_rounds-bytes}
use shoredb.Rdb.Restore.{Storable, without_deadlines, rounds, database_loaded}

set-append :
    (done : Databases) (db new : Database) (todo : Databases)
    → set (done ++ db ∷ todo) (length done) new ≡ done ++ new ∷ todo
set-append [] db new todo = refl
set-append (d ∷ done) db new todo = ap (◌∷◌ d) (set-append done db new todo)

empty {ℓ} : {A : Type ℓ} (xs : List A) → length xs ≡ 0 → xs ≡ []
empty [] h = refl
empty (x ∷ xs) h = absurd (omega arith)

-- A database that is left out of the file is a new one, but for its deadlines.
nothing_saved : (db : Database) → total_keys db ≡ 0 → without_deadlines db ≡ new_database
nothing_saved db h =
    rw
      (
        empty db.store (omega arith),
        empty db.lists (omega arith),
        empty db.sets (omega arith),
        empty db.hashes (omega arith),
      )
      refl

inside : (done todo : Databases) (db : Database) → length done < length (done ++ db ∷ todo)
inside done todo db = rw (length-append done (db ∷ todo)) (omega arith)

-- The databases that are still new, behind those that are loaded.
abbrev half_loaded : Databases → Databases → Databases
half_loaded done todo = done ++ map (λ db. new_database) todo

zero_plus : (n : ℕ) → 0 + n ≡ n
zero_plus n = omega arith

loop_end :
    (now : Time) (j f : ℕ) (dbs : Databases)
    → load_loop (0 + suc f) now (op_eof ∷ checksum) j dbs ≡ some (dbs, none)
unfolding load_loop load_round load_end
loop_end now j f dbs = rw (zero_plus (suc f)) refl

-- The statement of databases_loaded for databases behind those that are loaded.
abbrev AreLoaded : Time → Databases → Databases → ℕ → ℕ → Type 0
AreLoaded now done todo j f =
    load_loop (all_rounds todo + suc f) now
      (save_databases (length done) todo ++ (op_eof ∷ checksum)) j (half_loaded done todo)
    ≡ some (done ++ map without_deadlines todo, none)

-- A database is done, whatever was read for it.
one_done :
    (now : Time) (done todo : Databases) (new : Database) (j f : ℕ)
    → AreLoaded now (done ++ new ∷ []) todo j f
    → load_loop
        (all_rounds todo + suc f)
        now
        (save_databases (suc (length done)) todo ++ (op_eof ∷ checksum))
        j
        (done ++ new ∷ map (λ db. new_database) todo)
      ≡ some (done ++ new ∷ map without_deadlines todo, none)
one_done now done todo new j f h =
    let count : length (done ++ new ∷ []) ≡ suc (length done) =
      length-append done (new ∷ []) ∙ omega arith in
    rw
      (
        sym count,
        sym (append_assoc done (new ∷ []) (map (λ db. new_database) todo)),
        sym (append_assoc done (new ∷ []) (map without_deadlines todo)),
      )
      h

databases_loaded :
    (now : Time) (done todo : Databases) (j f : ℕ)
    → length done + length todo ≤ num_databases
    → AllFit Storable todo
    → AreLoaded now done todo j f
unfolding save_databases
databases_loaded now done [] j f h ok = loop_end now j f (done ++ [])
databases_loaded now done (db ∷ todo) j f h (here, more) =
    let news = map (λ db. new_database) todo in
    let tail = save_databases (suc (length done)) todo ++ (op_eof ∷ checksum) in
    let count : length (done ++ without_deadlines db ∷ []) ≡ length done + 1 =
      length-append done (without_deadlines db ∷ []) in
    let others : (k : ℕ) → AreLoaded now (done ++ without_deadlines db ∷ []) todo k f =
      λ k. databases_loaded now (done ++ without_deadlines db ∷ []) todo k f (omega arith) more in
    let next_fuel = all_rounds todo + suc f in
    let start = half_loaded done (db ∷ todo) in
    let assoc : rounds db + all_rounds todo + suc f ≡ rounds db + next_fuel = omega arith in
    let fuel : ((total_keys db == 0) ≡ false)
        → (if total_keys db == 0 then 0 else rounds db) + all_rounds todo + suc f
          ≡ rounds db + next_fuel =
      λ e. rw e assoc in
    elim (Bool-cases (total_keys db == 0)) [
      | inl e ↦
          rw (e, zero_plus (all_rounds todo))
            (ap (λ new. load_loop next_fuel now tail j (done ++ new ∷ news))
                (sym (nothing_saved db ((==_iff (total_keys db) 0).0 e)))
              ∙ one_done now done todo (without_deadlines db) j f (others j))
      | inr e ↦
          rw
            (
              append_assoc (save_database (length done) db)
                  (save_databases (suc (length done)) todo) (op_eof ∷ checksum),
              fuel e,
            )
            (ap (load_loop (rounds db + next_fuel) now (save_database (length done) db ++ tail) j)
                (sym (set-append done new_database new_database news))
              ∙ database_loaded now start (length done) j next_fuel db tail
                  (inside done news new_database) (omega arith) here e
              ∙ ap (load_loop next_fuel now tail (length done))
                  (set-append done new_database (without_deadlines db) news)
              ∙ one_done now done todo (without_deadlines db) (length done) f
                  (others (length done)))
    ]

abbrev repeat_new : ℕ → Databases
repeat_new zero = []
repeat_new (suc n) = new_database ∷ repeat_new n

map-new : (dbs : Databases) (n : ℕ) → length dbs ≡ n → map (λ db. new_database) dbs ≡ repeat_new n
map-new [] zero h = refl
map-new [] (suc n) h = absurd (omega arith)
map-new (db ∷ dbs) zero h = absurd (omega arith)
map-new (db ∷ dbs) (suc n) h = ap (◌∷◌ new_database) (map-new dbs n (omega arith))

header_read :
    (now : Time) (rest : Bytes) (dbs : Databases)
    → load_rdb now (rdb_header ++ rest) dbs ≡ load_loop (length rest + 1) now rest 0 dbs
unfolding load_rdb str_eq
header_read now rest dbs = rw (load_rdb, read_bytes-append rdb_header rest) refl

-- The databases that Save writes, sixteen that are Storable, are what Load makes of the file on a server
-- that starts with new databases: every entry of every database in its order, without the deadlines, and
-- no error. It is so at any time of the clock.
pub load_rdb-save_rdb :
    (now : Time) (dbs : Databases)
    → length dbs ≡ num_databases
    → AllFit Storable dbs
    → load_rdb now (save_rdb dbs) new_databases ≡ some (map without_deadlines dbs, none)
unfolding save_rdb
load_rdb-save_rdb now dbs h ok =
    let body = save_databases 0 dbs ++ (op_eof ∷ checksum) in
    let bytes = length-append (save_databases 0 dbs) (op_eof ∷ checksum) in
    let few = all_rounds-bytes 0 dbs ok in
    let left = length body - all_rounds dbs in
    let fuel : length body + 1 ≡ all_rounds dbs + suc left = omega arith in
    let start : new_databases ≡ map (λ db. new_database) dbs = sym (map-new dbs num_databases h) in
    header_read now body new_databases
    ∙ ap (load_loop (length body + 1) now body 0) start
    ∙ rw fuel (databases_loaded now [] dbs 0 left (omega arith) ok)
