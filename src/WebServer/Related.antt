-- ===== src/WebServer/Related.antt =====
-- What the endpoints of the web interface do to the objects, as a relation between those before and after a request.
use pico_modbus_meter.Base.{
  ℕ, Bool, true, false, Option, List, [], ◌∷◌, bytes_eq, if◌then◌else◌, codes, ◌≡◌, Bool-cases, inl,
  inr,
}
use pico_modbus_meter.Base.Yields.{Yields, result, Yields-bind}
use pico_modbus_meter.HttpServer.{MessageBuffer, Net}
use pico_modbus_meter.HttpServer.Serve.{Callback, Endpoint, is_match, find_callback, select}
use pico_modbus_meter.WebServer.{App, Platform, Reply, only_reply}
use pico_modbus_meter.WebServer.Pages.{Page}
use pico_modbus_meter.WebServer.Table.{
  Texts, reading, get_endpoints, post_endpoints, put_endpoints, default_endpoint_cb, webserver,
}

module _ (R : App → App → Type 0) where
  -- The objects of every result are related to those before.
  abbrev pub Keeps : App → Option (MessageBuffer × App × Net) → Type 0
  Keeps app r = Yields (λ a. R app a.1) r

  -- They are, whatever the request is.
  abbrev pub IsKeeper : Callback App → Type 0
  IsKeeper c = (req res : MessageBuffer) (app : App) (net : Net) → Keeps app (c req res app net)

  pub only_reply-Keeps :
      (reply : Reply) (req res : MessageBuffer) (app changed : App) (net : Net)
      → R app changed
      → Keeps app (only_reply reply req res changed net)
  only_reply-Keeps reply req res app changed net h = Yields-bind (reply res net) _ (λ a. result h)

  pub data Keepers : List (Endpoint App) → Type 0 where
    no_endpoint : Keepers []
    endpoint :
        {e : Endpoint App} {es : List (Endpoint App)}
        → IsKeeper e.callback
        → Keepers es
        → Keepers (e ∷ es)

  pub if_Keeps :
      (b : Bool) (f g : Callback App) (req res : MessageBuffer) (app : App) (net : Net)
      → Keeps app (f req res app net)
      → Keeps app (g req res app net)
      → Keeps app ((if b then f else g) req res app net)
  if_Keeps true f g req res app net h k = h
  if_Keeps false f g req res app net h k = k

  pub find_callback-Keeps :
      (es : List (Endpoint App)) (default : Callback App) (path : List ℕ)
      → Keepers es
      → IsKeeper default
      → IsKeeper (find_callback es default path)
  unfolding find_callback
  find_callback-Keeps [] default path k d req res app net = d req res app net
  find_callback-Keeps (e ∷ es) default path (endpoint h k) d req res app net =
      if_Keeps (is_match e path) e.callback (find_callback es default path) req res app net
        (h req res app net) (find_callback-Keeps es default path k d req res app net)

  module _ (same : (app : App) → R app app) where
    pub reading-IsKeeper : (page : Page) → IsKeeper (reading page)
    reading-IsKeeper page req res app net =
        only_reply-Keeps (page req app) req res app app net (same app)

    module _ (p : Platform) (t : Texts) where
      get_endpoints-Keepers : Keepers (get_endpoints p t)
      unfolding get_endpoints
      get_endpoints-Keepers = endpoint (reading-IsKeeper _) (
          endpoint (reading-IsKeeper _) (
            endpoint (reading-IsKeeper _) (
              endpoint (reading-IsKeeper _) (
                endpoint (reading-IsKeeper _) (
                  endpoint (reading-IsKeeper _) (
                    endpoint (reading-IsKeeper _) (
                      endpoint (reading-IsKeeper _) (
                        endpoint (reading-IsKeeper _) (
                          endpoint (reading-IsKeeper _) (
                            endpoint (reading-IsKeeper _) (
                              endpoint (reading-IsKeeper _) (
                                endpoint (reading-IsKeeper _) (
                                  endpoint (reading-IsKeeper _)
                                    (endpoint (reading-IsKeeper _) no_endpoint))))))))))))))

      pub default-IsKeeper : IsKeeper (default_endpoint_cb p t)
      unfolding default_endpoint_cb
      default-IsKeeper = reading-IsKeeper _

      -- A request keeps the relation, given that a POST does and that this request does as a PUT, if it is one.
      pub select-Keeps :
          (send recieve : List MessageBuffer) (net0 : Net) (app0 : App) (req res : MessageBuffer)
          (app : App) (net : Net)
          → Keepers (post_endpoints p t)
          → (bytes_eq req.method (codes "PUT") ≡ true
              → Keeps app (
                  find_callback
                    (put_endpoints p t)
                    (default_endpoint_cb p t)
                    req.path
                    req
                    res
                    app
                    net))
          → Keeps app (select (webserver p t send recieve net0 app0) req req res app net)
      unfolding select webserver
      select-Keeps send recieve net0 app0 req res app net posts puts =
          if_Keeps (bytes_eq req.method (codes "GET")) _ _ req res app net
            (find_callback-Keeps (get_endpoints p t) (default_endpoint_cb p t) req.path
              get_endpoints-Keepers default-IsKeeper req res app net)
            (if_Keeps (bytes_eq req.method (codes "POST")) _ _ req res app net
              (find_callback-Keeps (post_endpoints p t) (default_endpoint_cb p t) req.path posts
                default-IsKeeper req res app net)
              (elim (Bool-cases (bytes_eq req.method (codes "PUT"))) [
                | inr other ↦ rw other others
                | inl put ↦ rw put (puts put)
              ]))
        where
          others : Keeps app (
              (if bytes_eq req.method (codes "DELETE")
                  then find_callback [] (default_endpoint_cb p t) req.path
                  else default_endpoint_cb p t)
                req res app net)
          others =
              if_Keeps (bytes_eq req.method (codes "DELETE"))
                (find_callback [] (default_endpoint_cb p t) req.path) (default_endpoint_cb p t) req
                res app net
                (find_callback-Keeps [] (default_endpoint_cb p t) req.path no_endpoint
                  default-IsKeeper req res app net)
                (default-IsKeeper req res app net)
