-- ===== src/Server/Access.antt =====
-- Requests of a connection of pkg/server/tcp.go: its password and its database's number.
use shoredb.Base.{
  ◌≡◌, refl, sym, ◌∙◌, inl, inr, Bool, true, false, not, ◌&&◌, ◌||◌, Option, none, some, List, [],
  ◌∷◌, arith, Bytes, codes, str_eq, str_eq_refl, if◌then◌else◌, Bool-cases,
}
use shoredb.Base.Int.{ℤ, pos, ◌≤ℤ◌, ◌<ℤ◌}
use shoredb.Strconv.{atoi}
use shoredb.Resp.{
  Values, Value, nil, cons, array, simple_string, simple_error, integer, bulk_string, null, to_list,
  str,
}
use shoredb.Database.{num_databases}
use shoredb.Server.{
  to_upper, Connection, new_connection, handle_auth, select_index, handle_select, Action, reply,
  process, dispatch, run_command, handle_request,
}

-- The connection after a sequence of requests, and what was done with each.
abbrev pub requests : Bytes → List Value → Connection → Connection × List Action
requests require_pass [] conn = (conn, [])
requests require_pass (value ∷ values) conn =
    let (conn', action) = handle_request require_pass value conn in
    let (last, actions) = requests require_pass values conn' in (last, action ∷ actions)

-- A database's number.
abbrev pub IsIndex : ℤ → Type 0
IsIndex index = (pos 0 ≤ℤ index) × (index <ℤ pos num_databases)

select_index-IsIndex :
    (current : ℤ) (read : Option ℤ) → IsIndex current → IsIndex (select_index current read).0
select_index-IsIndex current none h = h
select_index-IsIndex current (some index) h = ground arith

handle_select-IsIndex :
    (args : List Value) (current : ℤ) → IsIndex current → IsIndex (handle_select args current).0
unfolding handle_select
handle_select-IsIndex [] current h = h
handle_select-IsIndex (arg ∷ []) current h = select_index-IsIndex current (atoi (str arg)) h
handle_select-IsIndex (arg ∷ _ ∷ _) current h = h

-- An action that reaches a handler does it on a database that is there.
abbrev pub OnIndex : Action → Type 0
OnIndex (process command args index) = IsIndex index
OnIndex _ = Unit

pick {ℓ} :
    (P : Connection × Action → Type ℓ) (b : Bool) (x y : Connection × Action)
    → P x
    → P y
    → P (if b then x else y)
pick P true x y hx hy = hx
pick P false x y hx hy = hy

-- A round that keeps to the databases.
abbrev pub KeepsIndex : Connection × Action → Type 0
KeepsIndex (conn, action) = IsIndex conn.db_index × OnIndex action

run_command-KeepsIndex :
    (command : Bytes) (args : List Value) (conn : Connection)
    → IsIndex conn.db_index
    → KeepsIndex (run_command command args conn)
run_command-KeepsIndex command args conn h =
    pick KeepsIndex (str_eq command (codes "SELECT")) _ _
      (handle_select-IsIndex args conn.db_index h, tt)
      (pick KeepsIndex (str_eq command (codes "SUBSCRIBE")) _ _ (h, tt)
        (pick KeepsIndex (str_eq command (codes "UNSUBSCRIBE")) _ _ (h, tt) (h, h)))

dispatch-KeepsIndex :
    (require_pass command : Bytes) (args : List Value) (conn : Connection)
    → IsIndex conn.db_index
    → KeepsIndex (dispatch require_pass command args conn)
dispatch-KeepsIndex require_pass command args conn h =
    pick KeepsIndex (str_eq command (codes "AUTH")) _ _ (h, tt)
      (pick KeepsIndex (not conn.authenticated) _ _ (h, tt)
        (run_command-KeepsIndex command args conn h))

handle_request-KeepsIndex :
    (require_pass : Bytes) (value : Value) (conn : Connection)
    → IsIndex conn.db_index
    → KeepsIndex (handle_request require_pass value conn)
unfolding handle_request
handle_request-KeepsIndex require_pass (array (cons name vs)) conn h =
    dispatch-KeepsIndex require_pass (to_upper (str name)) (to_list vs) conn h
handle_request-KeepsIndex require_pass (array nil) conn h = (h, tt)
handle_request-KeepsIndex require_pass (simple_string s) conn h = (h, tt)
handle_request-KeepsIndex require_pass (simple_error s) conn h = (h, tt)
handle_request-KeepsIndex require_pass (integer n) conn h = (h, tt)
handle_request-KeepsIndex require_pass (bulk_string s) conn h = (h, tt)
handle_request-KeepsIndex require_pass null conn h = (h, tt)

abbrev pub AllOnIndex : List Action → Type 0
AllOnIndex [] = Unit
AllOnIndex (action ∷ actions) = OnIndex action × AllOnIndex actions

requests-from :
    (require_pass : Bytes) (values : List Value) (conn : Connection)
    → IsIndex conn.db_index
    → IsIndex (requests require_pass values conn).0.db_index
      × AllOnIndex (requests require_pass values conn).1
requests-from require_pass [] conn h = (h, tt)
requests-from require_pass (value ∷ values) conn h =
    let (here, action) = handle_request-KeepsIndex require_pass value conn h in
    let (last, actions) =
      requests-from require_pass values (handle_request require_pass value conn).0 here in
    (last, (action, actions))

-- Whatever a client sends over a connection, its database's number stays one of the sixteen, and every
-- command that reaches a handler is run on one of them.
pub requests-AllOnIndex :
    (require_pass : Bytes) (values : List Value)
    → IsIndex (requests require_pass values (new_connection require_pass)).0.db_index
      × AllOnIndex (requests require_pass values (new_connection require_pass)).1
requests-AllOnIndex require_pass values =
    requests-from require_pass values (new_connection require_pass) (omega arith, omega arith)

-- AUTH with one argument, the password.
abbrev pub is_login : Bytes → Value → Bool
is_login require_pass (array (cons name (cons arg nil))) =
    str_eq (to_upper (str name)) (codes "AUTH") && str_eq (str arg) require_pass
is_login require_pass _ = false

abbrev pub any_login : Bytes → List Value → Bool
any_login require_pass [] = false
any_login require_pass (value ∷ values) =
    is_login require_pass value || any_login require_pass values

abbrev pub IsReply : Action → Type 0
IsReply (reply value) = Unit
IsReply _ = ⊥

abbrev pub AllReplies : List Action → Type 0
AllReplies [] = Unit
AllReplies (action ∷ actions) = IsReply action × AllReplies actions

-- A round that neither lets the client in nor does anything but answer.
abbrev pub StaysOut : Connection × Action → Type 0
StaysOut (conn, action) = (conn.authenticated ≡ false) × IsReply action

-- Arguments of AUTH that are no login.
abbrev pub login_args : Bytes → List Value → Bool
login_args require_pass (arg ∷ []) = str_eq (str arg) require_pass
login_args require_pass _ = false

handle_auth-false :
    (require_pass : Bytes) (args : List Value)
    → str_eq require_pass [] ≡ false
    → login_args require_pass args ≡ false
    → (handle_auth require_pass args).0 ≡ false
unfolding handle_auth
handle_auth-false require_pass [] set wrong = set
handle_auth-false require_pass (arg ∷ []) set wrong = rw (set, wrong) refl
handle_auth-false require_pass (arg ∷ _ ∷ _) set wrong = set

dispatch-StaysOut :
    (require_pass command : Bytes) (args : List Value) (conn : Connection)
    → str_eq require_pass [] ≡ false
    → (str_eq command (codes "AUTH") && login_args require_pass args) ≡ false
    → conn.authenticated ≡ false
    → StaysOut (dispatch require_pass command args conn)
dispatch-StaysOut require_pass command args conn set wrong out =
    elim (Bool-cases (str_eq command (codes "AUTH"))) [
      | inl e ↦ rw e (handle_auth-false require_pass args set (rw e at wrong), tt)
      | inr e ↦ rw (e, out) (refl, tt)
    ]

is_login-args :
    (require_pass : Bytes) (name : Value) (vs : Values)
    → is_login require_pass (array (cons name vs))
      ≡ (str_eq (to_upper (str name)) (codes "AUTH") && login_args require_pass (to_list vs))
is_login-args require_pass name nil = ground arith
is_login-args require_pass name (cons arg nil) = refl
is_login-args require_pass name (cons arg (cons v vs)) = ground arith

handle_request-StaysOut :
    (require_pass : Bytes) (value : Value) (conn : Connection)
    → str_eq require_pass [] ≡ false
    → is_login require_pass value ≡ false
    → conn.authenticated ≡ false
    → StaysOut (handle_request require_pass value conn)
unfolding handle_request
handle_request-StaysOut require_pass (array (cons name vs)) conn set wrong out =
    dispatch-StaysOut require_pass (to_upper (str name)) (to_list vs) conn set
      (sym (is_login-args require_pass name vs) ∙ wrong) out
handle_request-StaysOut require_pass (array nil) conn set wrong out = (out, tt)
handle_request-StaysOut require_pass (simple_string s) conn set wrong out = (out, tt)
handle_request-StaysOut require_pass (simple_error s) conn set wrong out = (out, tt)
handle_request-StaysOut require_pass (integer n) conn set wrong out = (out, tt)
handle_request-StaysOut require_pass (bulk_string s) conn set wrong out = (out, tt)
handle_request-StaysOut require_pass null conn set wrong out = (out, tt)

or-false : (a b : Bool) → (a || b) ≡ false → (a ≡ false) × (b ≡ false)
or-false true b e = ground arith
or-false false b e = (refl, e)

requests-out :
    (require_pass : Bytes) (values : List Value) (conn : Connection)
    → str_eq require_pass [] ≡ false
    → any_login require_pass values ≡ false
    → conn.authenticated ≡ false
    → ((requests require_pass values conn).0.authenticated ≡ false)
      × AllReplies (requests require_pass values conn).1
requests-out require_pass [] conn set wrong out = (out, tt)
requests-out require_pass (value ∷ values) conn set wrong out =
    let (no_login, none_later) =
      or-false (is_login require_pass value) (any_login require_pass values) wrong in
    let (here, action) = handle_request-StaysOut require_pass value conn set no_login out in
    let (last, actions) =
      requests-out require_pass values (handle_request require_pass value conn).0 set none_later
        here in
    (last, (action, actions))

-- With a password set that is not empty, a client that never sends AUTH with that password is
-- never authenticated, and its requests are only answered: none reaches a handler or changes the
-- subscriptions.
pub requests-AllReplies :
    (require_pass : Bytes) (values : List Value)
    → str_eq require_pass [] ≡ false
    → any_login require_pass values ≡ false
    → ((requests require_pass values (new_connection require_pass)).0.authenticated ≡ false)
      × AllReplies (requests require_pass values (new_connection require_pass)).1
requests-AllReplies require_pass values set wrong =
    requests-out require_pass values (new_connection require_pass) set wrong set

auth-password : (password : Bytes) → (handle_auth password (bulk_string password ∷ [])).0 ≡ true
unfolding handle_auth
auth-password password = ground (arith, str_eq_refl password)

-- AUTH with the password, in any spelling of the command's name that ToUpper maps to AUTH,
-- authenticates the connection in whatever state it is.
pub handle_request-login :
    (require_pass name : Bytes) (conn : Connection)
    → to_upper name ≡ codes "AUTH"
    → (handle_request require_pass
        (array (cons (bulk_string name) (cons (bulk_string require_pass) nil)))
        conn).0.authenticated
      ≡ true
unfolding handle_request
handle_request-login require_pass name conn e =
    rw (e, str_eq_refl (codes "AUTH")) (auth-password require_pass)
