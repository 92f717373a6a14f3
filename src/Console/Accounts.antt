-- ===== src/Console/Accounts.antt =====
-- The account form of httpd/html/javascript/gate-control.js: `saveUser` and `deleteUser`.
use uhppoted_httpd.Prelude.{
  String, Bool, false, not, ◌&&◌, ◌||◌, ◌≡◌, ◌≢◌, ◌⊎◌, inl, inr, refl, List, [], ◌∷◌, ◌++◌, Option,
  none, some, arith, eq_iff, if◌then◌else◌,
}
use uhppoted_httpd.Text.{◌==◌, ◌++◌ as ◌<>◌}
use uhppoted_httpd.OrderedMap.{get}
use uhppoted_httpd.Schema.Users.{Key, suffix}
use uhppoted_httpd.Db.Users.{User}
use uhppoted_httpd.Db.Store.{Dbc}
use uhppoted_httpd.Console.Session.{
  Update, Request, Server, thrown, Session, pure, throw, ◌>>=◌, post_configuration, post_updates,
  create, changed,
}
use uhppoted_httpd.Console.Records.{records, Browser, is_there, original_text, guard}

pub record UserForm : Type 0 where
  pub oid : String
  pub name : String
  pub uid : String
  pub role : String
  pub password : String
  pub confirmation : String
  pub revoke_otp : Bool
  pub unlock : Bool

-- an update that is sent where a box is ticked or a text is given
abbrev pub sent_if : Bool → String → String → List Update
sent_if b oid value = if b then record { oid = oid; value = value } ∷ [] else []

module _ (browser : Browser) (db : Dbc) where
  abbrev pub existing_user : UserForm → Option User
  existing_user form = if form.oid == "" then none else get form.oid db.users

  -- whether another account has the user ID, in any case
  unfoldable pub uid_taken : String → Option User → List User → Bool
  uid_taken uid user [] = false
  uid_taken uid user (u ∷ us) =
      let rest = uid_taken uid user us in
      (not (elim user [ none ↦ false | some v ↦ u.oid == v.oid ])
        && (browser.lower (browser.trim (browser.template_of u.uid)) == browser.lower uid))
      || rest

  -- the guards of `saveUser`, in their order: the message of the first that throws
  unfoldable pub user_error : UserForm → Option String
  unfolding uid_taken
  user_error form =
      if (browser.trim form.name == "") || (browser.trim form.uid == "")
      then some "Display name and User ID are required."
      else if uid_taken (browser.trim form.uid) (existing_user form)
          (records (λ u. u.deleted) db.users)
      then some "That User ID is already in use."
      else if not (is_there (existing_user form)) && (form.password == "")
      then some "Enter a password for the new account."
      else if not (form.password == form.confirmation)
      then some "The password confirmation does not match."
      else none

  -- `updates` of `saveUser`
  unfoldable pub user_updates : UserForm → String → List Update
  user_updates form oid =
      let user = existing_user form in
      let field =
        λ (suffix value original : String). changed (is_there user) oid suffix value original in
      let set = λ (b : Bool) (suffix value : String). sent_if b (oid <> suffix) value in
      field (suffix Key.name) (browser.trim form.name)
        (original_text (λ u. browser.text_of u.name) user)
      ++ field (suffix Key.uid) (browser.trim form.uid)
          (original_text (λ u. browser.text_of u.uid) user)
      ++ field (suffix Key.role) form.role (original_text (λ u. browser.text_of u.role) user)
      ++ set (not (form.password == "")) (suffix Key.password) form.password
      ++ set form.revoke_otp (suffix Key.otp) "false"
      ++ set form.unlock (suffix Key.locked) "false"

  unfoldable pub create_user : Session String
  create_user = create "/users" "users" "The server did not return the new account ID."

  -- `saveUser`, up to the load that follows
  unfoldable pub save_user : UserForm → Session (Unit {0})
  unfolding user_error user_updates create_user
  save_user form = elim (user_error form) [
    | some message ↦ throw message
    | none ↦ (if form.oid == "" then create_user else pure form.oid) >>= λ oid.
        post_updates "/users" (user_updates form oid)
  ]

  -- `deleteUser` of an account of the store, once it is confirmed
  unfoldable pub delete_user : String → Session (Unit {0})
  delete_user oid =
      post_configuration "/users" (record { created = []; updated = []; deleted = oid ∷ [] })
      >>= λ _. pure tt

-- A form whose account may be stored.
pub record IsSavable (browser : Browser) (db : Dbc) (form : UserForm) : Type 0 where
  pub named : browser.trim form.name ≢ ""
  pub identified : browser.trim form.uid ≢ ""
  pub unique :
      uid_taken browser db
        (browser.trim form.uid)
        (existing_user browser db form)
        (records (λ u. u.deleted) db.users)
      ≡ false
  pub secret : existing_user browser db form ≡ none → form.password ≢ ""
  pub confirmed : form.password ≡ form.confirmation

user_error-IsSavable :
    (browser : Browser) (db : Dbc) (form : UserForm)
    → user_error browser db form ≡ none
    → IsSavable browser db form
unfolding user_error
user_error-IsSavable browser db form e =
    let unnamed = (browser.trim form.name == "") || (browser.trim form.uid == "") in
    let taken =
      uid_taken browser db (browser.trim form.uid) (existing_user browser db form)
        (records (λ u. u.deleted) db.users) in
    let open_ = not (is_there (existing_user browser db form)) && (form.password == "") in
    let (given, e1) = guard unnamed _ _ e in
    let (free, e2) = guard taken _ _ e1 in
    let (closed, e3) = guard open_ _ _ e2 in
    let (same, _) = guard (not (form.password == form.confirmation)) _ none e3 in
    record {
      named = ground (arith, given, eq_iff (browser.trim form.name) "");
      identified = ground (arith, given, eq_iff (browser.trim form.uid) "");
      unique = free;
      secret = λ new. secret_lem (existing_user browser db form) new closed;
      confirmed = ground (arith, same, eq_iff form.password form.confirmation);
    }
  where
    secret_lem :
        (r : Option User)
        → r ≡ none
        → (not (is_there r) && (form.password == "")) ≡ false
        → form.password ≢ ""
    secret_lem none new closed = ground (arith, closed, eq_iff form.password "")
    secret_lem (some u) new closed = cc new

-- Whatever the server replies, saving an account throws before any request is made, or the form is
-- one whose account may be stored: it is named, no other account has its user ID in any case, a new
-- one has a password, and the password is confirmed.
pub save_user-IsSavable :
    (browser : Browser) (db : Dbc) (form : UserForm) (server : Server) (log : List Request)
    → ((message : String) × ((save_user browser db form).run server log ≡ (thrown message, log)))
      ⊎ IsSavable browser db form
unfolding save_user throw
save_user-IsSavable browser db form server log = checked (user_error browser db form) refl
  where
    checked :
        (r : Option String)
        → user_error browser db form ≡ r
        → ((message : String) × (Session.run
                (elim r [
                  | some message ↦ throw message
                  | none ↦
                      (if form.oid == "" then create_user browser db else pure form.oid) >>= λ oid.
                      post_updates "/users" (user_updates browser db form oid)
                ])
                server
                log
              ≡ (thrown message, log)))
          ⊎ IsSavable browser db form
    checked (some message) e = inl (message, refl)
    checked none e = inr (user_error-IsSavable browser db form e)
