-- ===== src/WebServer/Authorized.antt =====
-- Who can change the password of the web interface.
use pico_modbus_meter.Base.{
  ℕ, ◌≡◌, refl, ap, ◌∙◌, ◌≢◌, ◌⊎◌, inl, inr, false, none, some, List, [], ◌∷◌, arith, bytes_eq,
  ◌==◌, if◌then◌else◌, length, take, codes, ne→==, Option,
}
use pico_modbus_meter.Base.Yields.{result, Yields-bind, Yields-at}
use pico_modbus_meter.CryptoStorage.{pwd_size, header_fields, check_authorization}
use pico_modbus_meter.CryptoStorage.Authorization.{
  set_password-load, user_of, check_authorization-user_of,
}
use pico_modbus_meter.StaticString.Bounds.{IsValid, text}
use pico_modbus_meter.StaticVector.{contents}
use pico_modbus_meter.HttpServer.{get_header, MessageBuffer, Net}
use pico_modbus_meter.Base.CString.{until_zero}
use pico_modbus_meter.HttpServer.Serve.{Callback, is_match, find_callback, select}
use pico_modbus_meter.StringUtil.{extract_word}
use pico_modbus_meter.WebServer.{user_pwd, App, Platform, body_text, empty_reply, status_ok}
use pico_modbus_meter.WebServer.Pages.{request_user}
use pico_modbus_meter.WebServer.Settings.{set_time, set_password, store}
use pico_modbus_meter.WebServer.Related
use pico_modbus_meter.WebServer.Related.{
  Keepers, no_endpoint, endpoint, reading-IsKeeper, if_Keeps, default-IsKeeper, select-Keeps,
}
use pico_modbus_meter.WebServer.Keepers.{
  SamePassword, set_password-Keeps, set_time-IsKeeper, set_modbus_id-IsKeeper,
  set_invert_watts-IsKeeper, set_log_level-IsKeeper, set_hostname-IsKeeper, set_ap_active-IsKeeper,
  connect_to_wifi-IsKeeper,
}
use pico_modbus_meter.WebServer.Table.{
  Texts, exact, post_endpoints, put_endpoints, default_endpoint_cb, webserver,
}

is_match-other :
    (path : List ℕ) (c : Callback App) (asked : List ℕ)
    → bytes_eq asked (until_zero path) ≡ false
    → is_match (exact path c) asked ≡ false
unfolding is_match
is_match-other path c asked h = rw h refl

abbrev Keeps : App → Option (MessageBuffer × App × Net) → Type 0
Keeps app r = Related.Keeps SamePassword app r

same-SamePassword : (app : App) → SamePassword app app
same-SamePassword app = refl

module _ (p : Platform) (t : Texts) where
  post_endpoints-Keepers : Keepers SamePassword (post_endpoints p t)
  unfolding post_endpoints
  post_endpoints-Keepers = endpoint (set_modbus_id-IsKeeper p) (
      endpoint (set_invert_watts-IsKeeper p) (
        endpoint (set_log_level-IsKeeper p) (
          endpoint (set_hostname-IsKeeper p) (
            endpoint (set_ap_active-IsKeeper p) (
              endpoint (connect_to_wifi-IsKeeper p)
                (endpoint (reading-IsKeeper SamePassword same-SamePassword _) no_endpoint))))))

  -- A PUT keeps the password if it is for another path, or if nobody is authorized.
  put-Keeps :
      (req res : MessageBuffer) (app : App) (net : Net)
      → (bytes_eq req.path (codes "/set_password") ≡ false) ⊎ (request_user p req app ≡ some [])
      → Keeps app
          (find_callback (put_endpoints p t) (default_endpoint_cb p t) req.path req res app net)
  unfolding put_endpoints find_callback is_match
  put-Keeps req res app net h = elim h [
    | inl other ↦ rw (is_match-other (codes "/set_password") (set_password p) req.path other) rest
    | inr nobody ↦
        if_Keeps SamePassword (is_match (exact (codes "/set_password") (set_password p)) req.path)
          (set_password p) _ req res app net (set_password-Keeps p req res app net nobody) rest
  ]
    where
      rest : Keeps app (
          (if is_match (exact (codes "/time") (set_time p)) req.path
              then set_time p
              else default_endpoint_cb p t)
            req res app net)
      rest =
          if_Keeps SamePassword (is_match (exact (codes "/time") (set_time p)) req.path)
            (set_time p) (default_endpoint_cb p t) req res app net
            (set_time-IsKeeper p req res app net)
            (default-IsKeeper SamePassword same-SamePassword p t req res app net)

  webserver-Keeps :
      (send recieve : List MessageBuffer) (net0 : Net) (app0 : App) (req res : MessageBuffer)
      (app : App) (net : Net)
      → (bytes_eq req.method (codes "PUT") ≡ false)
        ⊎ ((bytes_eq req.path (codes "/set_password") ≡ false) ⊎ (request_user p req app ≡ some []))
      → Keeps app (select (webserver p t send recieve net0 app0) req req res app net)
  webserver-Keeps send recieve net0 app0 req res app net h =
      select-Keeps SamePassword same-SamePassword p t send recieve net0 app0 req res app net
        post_endpoints-Keepers
        (λ put. elim h [ inl other ↦ cc | inr ok ↦ put-Keeps req res app net ok ])

-- the user that digest authentication prescribes for the header of a request
abbrev pub user_of_request : Platform → MessageBuffer → App → List ℕ
user_of_request p req app =
    user_of p.sha256 (text app.crypto.user_pwd) req.method
      (header_fields (get_header (contents req.headers) (codes "Authorization")))

header_fields-nothing : header_fields [] ≡ none
unfolding header_fields extract_word bytes_eq
header_fields-nothing = refl

request_user-user_of :
    (p : Platform) (req : MessageBuffer) (app : App)
    → ((message : List ℕ) → length (p.sha256 message) ≡ 32)
    → length p.sha_storage ≡ 128
    → IsValid pwd_size app.crypto.user_pwd
    → request_user p req app ≡ some (user_of_request p req app)
unfolding request_user
request_user-user_of p req app size room v =
    go (get_header (contents req.headers) (codes "Authorization"))
  where
    go :
        (header : List ℕ)
        → (if length header == 0
            then some []
            else check_authorization p.sha256 p.sha_storage app.crypto req.method header)
          ≡ some (user_of p.sha256 (text app.crypto.user_pwd) req.method (header_fields header))
    go [] = rw header_fields-nothing refl
    go (c ∷ cs) = rw (ne→== (length (c ∷ cs)) 0 (λ z. omega (arith, z))) (
        check_authorization-user_of p.sha256 size p.sha_storage room app.crypto req.method (c ∷ cs)
          v)

-- With a hash of 32 bytes and a valid password, no request changes the password, whatever endpoint serves it,
-- but a PUT of /set_password by a user whom digest authentication lets in.
pub webserver-keeps_password :
    (p : Platform) (t : Texts) (send recieve : List MessageBuffer) (net0 : Net) (app0 : App)
    (req res : MessageBuffer) (app : App) (net : Net) (res' : MessageBuffer) (app' : App)
    (net' : Net)
    → ((message : List ℕ) → length (p.sha256 message) ≡ 32)
    → length p.sha_storage ≡ 128
    → IsValid pwd_size app.crypto.user_pwd
    → (bytes_eq req.method (codes "PUT") ≡ false)
      ⊎ ((bytes_eq req.path (codes "/set_password") ≡ false) ⊎ (user_of_request p req app ≡ []))
    → select (webserver p t send recieve net0 app0) req req res app net ≡ some (res', app', net')
    → app'.crypto ≡ app.crypto
webserver-keeps_password p t send recieve net0 app0 req res app net res' app' net' size room v h e =
    Yields-at _ (res', app', net')
      (webserver-Keeps p t send recieve net0 app0 req res app net (elim h [
        | inl method ↦ inl method
        | inr (inl path) ↦ inr (inl path)
        | inr (inr nobody) ↦ inr (inr (request_user-user_of p req app size room v ∙ ap some nobody))
      ]))
      e

-- With a hash of 32 bytes and a valid password, `set_password` by a user whom digest authentication lets in
-- makes the first 64 bytes of the body the password.
pub set_password-stores :
    (p : Platform) (req res : MessageBuffer) (app : App) (net : Net) (res' : MessageBuffer)
    (app' : App) (net' : Net)
    → ((message : List ℕ) → length (p.sha256 message) ≡ 32)
    → length p.sha_storage ≡ 128
    → IsValid pwd_size app.crypto.user_pwd
    → length (user_of_request p req app) ≢ 0
    → set_password p req res app net ≡ some (res', app', net')
    → text app'.crypto.user_pwd ≡ take 64 (body_text req)
unfolding set_password
set_password-stores p req res app net res' app' net' size room v user e =
    let (pwd, after, again, stored, _, _, shown, _) =
      set_password-load app.crypto (body_text req) v in
    let changed : App = store (user_pwd pwd) (record app { crypto = after }) in
    Yields-at {P = λ a. text a.1.crypto.user_pwd ≡ take 64 (body_text req)} _ (res', app', net')
      (rw
        (
          request_user-user_of p req app size room v,
          ne→== (length (user_of_request p req app)) 0 user,
          stored,
        )
        (Yields-bind (empty_reply p status_ok res net) _ (λ a. result shown)))
      e
