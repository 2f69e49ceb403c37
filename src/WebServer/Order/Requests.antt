-- ===== src/WebServer/Order/Requests.antt =====
-- No request to the web interface brings the objects of the program out of order.
use pico_modbus_meter.Base.{◌≡◌, some, List}
use pico_modbus_meter.Base.Yields.{Yields-at}
use pico_modbus_meter.HttpServer.{MessageBuffer, Net}
use pico_modbus_meter.HttpServer.Serve.{select}
use pico_modbus_meter.WebServer.{App, Platform}
use pico_modbus_meter.WebServer.Table.{
  Texts, post_endpoints, put_endpoints, default_endpoint_cb, webserver,
}
use pico_modbus_meter.WebServer.Related.{
  Keepers, no_endpoint, endpoint, reading-IsKeeper, find_callback-Keeps, default-IsKeeper,
  select-Keeps,
}
use pico_modbus_meter.WebServer.Order.{
  IsOrdered, StaysOrdered, set_time-IsKeeper, set_modbus_id-IsKeeper, set_invert_watts-IsKeeper,
  set_log_level-IsKeeper, set_hostname-IsKeeper, set_ap_active-IsKeeper, connect_to_wifi-IsKeeper,
  set_password-IsKeeper,
}

same-StaysOrdered : (app : App) → StaysOrdered app app
same-StaysOrdered app v = v

module _ (p : Platform) (t : Texts) where
  post_endpoints-Keepers : Keepers StaysOrdered (post_endpoints p t)
  unfolding post_endpoints
  post_endpoints-Keepers = endpoint (set_modbus_id-IsKeeper p) (
      endpoint (set_invert_watts-IsKeeper p) (
        endpoint (set_log_level-IsKeeper p) (
          endpoint (set_hostname-IsKeeper p) (
            endpoint (set_ap_active-IsKeeper p) (
              endpoint (connect_to_wifi-IsKeeper p)
                (endpoint (reading-IsKeeper StaysOrdered same-StaysOrdered _) no_endpoint))))))

  put_endpoints-Keepers : Keepers StaysOrdered (put_endpoints p t)
  unfolding put_endpoints
  put_endpoints-Keepers =
      endpoint (set_password-IsKeeper p) (endpoint (set_time-IsKeeper p) no_endpoint)

  -- Whatever a request to the web interface holds, its result leaves the objects in order.
  pub webserver-IsOrdered :
      (send recieve : List MessageBuffer) (net0 : Net) (app0 : App) (req res res' : MessageBuffer)
      (app app' : App) (net net' : Net)
      → IsOrdered app
      → select (webserver p t send recieve net0 app0) req req res app net ≡ some (res', app', net')
      → IsOrdered app'
  webserver-IsOrdered send recieve net0 app0 req res res' app app' net net' v e =
      Yields-at _ (res', app', net')
        (select-Keeps StaysOrdered same-StaysOrdered p t send recieve net0 app0 req res app net
          post_endpoints-Keepers
          (λ put.
            find_callback-Keeps StaysOrdered (put_endpoints p t) (default_endpoint_cb p t) req.path
              put_endpoints-Keepers (default-IsKeeper StaysOrdered same-StaysOrdered p t) req res
              app net))
        e v
