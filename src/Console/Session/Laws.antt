-- ===== src/Console/Session/Laws.antt =====
-- Which requests a call of httpd/html/javascript/gate-control.js can make.
use uhppoted_httpd.Prelude.{
  String, Bool, true, false, List, [], ◌∷◌, All, ◌≡◌, refl, ap, sym, if◌then◌else◌,
}
use uhppoted_httpd.Console.Session.{
  Update, Body, Request, post, synchronize, Server, Outcome, returned, thrown, Session, pure, throw,
  and_then, ◌>>=◌, request, post_configuration, synchronize_hardware, post_updates, first_new,
  create,
}

-- The value that a call returns.
abbrev value_or : {A : Type 0} → A → Outcome A → A
value_or d (returned a) = a
value_or d (thrown message) = d

pub returned-injective : {A : Type 0} (a b : A) → returned a ≡ returned b → a ≡ b
returned-injective a b e = ap (value_or a) e

-- A call that ends in a value has had each value that it awaited.
pub bind-returned :
    {A B : Type 0} (m : Session A) (g : A → B) (server : Server) (log : List Request) (b : B)
    → ((m >>= λ a. pure (g a)).run server log).0 ≡ returned b
    → (a : A) × ((m.run server log).0 ≡ returned a) × (b ≡ g a)
unfolding ◌>>=◌ and_then pure
bind-returned {A} {B} m g server log b e = go (m.run server log) refl e
  where
    go :
        (r : Outcome A × List Request)
        → m.run server log ≡ r
        → (and_then {A = A} {B = B} (λ a. pure (g a)) server r).0 ≡ returned b
        → (a : A) × ((m.run server log).0 ≡ returned a) × (b ≡ g a)
    go (returned a, log') h f = (a, ap (λ t. t.0) h, sym (returned-injective (g a) b f))
    go (thrown message, log') h f = cc f

-- Whatever the server replies, the call makes no request but those that satisfy `P`.
pub record Only {A : Type 0} (P : Request → Type 0) (m : Session A) : Type 0 where
  pub keeps : (server : Server) (log : List Request) → All P log → All P (m.run server log).1

module _ (P : Request → Type 0) where
  pub pure-Only : {A : Type 0} (a : A) → Only P (pure a)
  unfolding pure
  pure-Only a = record { keeps = λ server log h. h }

  pub throw-Only : (A : Type 0) (message : String) → Only P (throw {A = A} message)
  unfolding throw
  throw-Only A message = record { keeps = λ server log h. h }

  pub bind-Only :
      {A B : Type 0} (m : Session A) (f : A → Session B)
      → Only P m
      → ((a : A) → Only P (f a))
      → Only P (m >>= f)
  unfolding ◌>>=◌ and_then
  bind-Only {A} {B} m f h k = record {
    keeps = λ server log l. go server (m.run server log) (h.keeps server log l);
  }
    where
      go :
          (server : Server) (r : Outcome A × List Request)
          → All P r.1
          → All P (and_then {A = A} {B = B} f server r).1
      go server (returned a, log') l' = (k a).keeps server log' l'
      go server (thrown message, log') l' = l'

  pub request-Only :
      (r : Request) (complain : String → String → String) → P r → Only P (request r complain)
  unfolding request
  request-Only r complain p = record { keeps = λ server log h. (p, h) }

  pub if-Only :
      {A : Type 0} (b : Bool) (m k : Session A) → Only P m → Only P k → Only P (if b then m else k)
  if-Only true m k h g = h
  if-Only false m k h g = g

  pub post_configuration-Only :
      (url : String) (body : Body) → P (post url body) → Only P (post_configuration url body)
  unfolding post_configuration
  post_configuration-Only url body p = request-Only _ _ p

  pub synchronize_hardware-Only :
      (trim : String → String) (path label : String)
      → P (synchronize path)
      → Only P (synchronize_hardware trim path label)
  unfolding synchronize_hardware
  synchronize_hardware-Only trim path label p =
      bind-Only _ _ (request-Only _ _ p) (λ _. pure-Only tt)

  pub post_updates-Only :
      (url : String) (updates : List Update)
      → ((body : Body) → P (post url body))
      → Only P (post_updates url updates)
  unfolding post_updates
  post_updates-Only url [] p = pure-Only tt
  post_updates-Only url (u ∷ us) p =
      bind-Only _ _ (post_configuration-Only url _ (p _)) (λ _. pure-Only tt)

  pub create-Only :
      (url name message : String)
      → ((body : Body) → P (post url body))
      → Only P (create url name message)
  unfolding create
  create-Only url name message p =
      bind-Only _ _ (post_configuration-Only url _ (p _))
        (λ d. if-Only _ _ _ (throw-Only String message) (pure-Only (first_new (d name))))

-- Whatever the server replies, the call throws.
pub record Fails {A : Type 0} (m : Session A) : Type 0 where
  pub message :
      (server : Server) (log : List Request) → (s : String) × ((m.run server log).0 ≡ thrown s)

pub throw-Fails : (A : Type 0) (message : String) → Fails (throw {A = A} message)
unfolding throw
throw-Fails A message = record { message = λ server log. (message, refl) }

pub bind-Fails : {A B : Type 0} (m : Session A) (f : A → Session B) → Fails m → Fails (m >>= f)
unfolding ◌>>=◌ and_then
bind-Fails {A} {B} m f h = record {
  message = λ server log. go server (m.run server log) (h.message server log);
}
  where
    go :
        (server : Server) (r : Outcome A × List Request)
        → (s : String) × (r.0 ≡ thrown s)
        → (s : String) × ((and_then {A = A} {B = B} f server r).0 ≡ thrown s)
    go server (returned a, log') (s, e) = cc e
    go server (thrown message, log') h' = (message, refl)

pub later-Fails :
    {A B : Type 0} (m : Session A) (f : A → Session B) → ((a : A) → Fails (f a)) → Fails (m >>= f)
unfolding ◌>>=◌ and_then
later-Fails {A} {B} m f h = record { message = λ server log. go server (m.run server log) }
  where
    go :
        (server : Server) (r : Outcome A × List Request)
        → (s : String) × ((and_then {A = A} {B = B} f server r).0 ≡ thrown s)
    go server (returned a, log') = (h a).message server log'
    go server (thrown message, log') = (message, refl)

-- What follows an error makes no request.
pub throw-bind :
    {A B : Type 0} (message : String) (f : A → Session B)
    → (throw {A = A} message >>= f) ≡ throw message
unfolding throw ◌>>=◌ and_then
throw-bind message f = refl

pub pure-bind : {A B : Type 0} (a : A) (f : A → Session B) → (pure a >>= f) ≡ f a
unfolding pure ◌>>=◌ and_then
pure-bind a f = refl
