-- ===== src/WebServer/Table.antt =====
-- include/webserver.h: which endpoint serves which path. The pages are made by the build; the texts of the
-- measurements and of a network are those of `std::format`.
use pico_modbus_meter.Base.{ℕ, Bool, true, false, List, [], ◌∷◌, codes}
use pico_modbus_meter.HttpServer.{MessageBuffer, Net}
use pico_modbus_meter.HttpServer.Serve.{Callback, Endpoint, Server}
use pico_modbus_meter.WifiStorage.{WifiInfo}
use pico_modbus_meter.WebServer.{App, Platform, only_reply, status_ok, status_not_found}
use pico_modbus_meter.WebServer.Pages.{
  Page, static_page_callback, post_login, get_user, get_time, get_measurements, get_modbus_id,
  get_invert_watts, get_logs, get_discovered_wifis, get_hostname, get_ap_active,
}
use pico_modbus_meter.WebServer.Settings.{
  set_time, set_modbus_id, set_invert_watts, set_log_level, set_hostname, set_ap_active,
  connect_to_wifi, set_password,
}

pub record Texts : Type 0 where
  pub not_found_html : List ℕ
  pub index_html : List ℕ
  pub style_css : List ℕ
  pub internet_html : List ℕ
  pub overview_html : List ℕ
  pub settings_html : List ℕ
  pub measurements : List ℕ
  pub wifi_line : Bool → WifiInfo → List ℕ → Bool → List ℕ

-- `{.path_match = true}`; the zeros behind the path are left out.
abbrev pub exact : List ℕ → Callback App → Endpoint App
exact path callback = record { path_match = true; path = path; callback = callback }

abbrev pub reading : Page → Callback App
reading page req res app net = only_reply (page req app) req res app net

abbrev pub html : List ℕ
html = codes "text/html"

module _ (p : Platform) (t : Texts) where
  unfoldable pub get_endpoints : List (Endpoint App)
  get_endpoints =
      exact (codes "/measurements") (reading (get_measurements p t.measurements))
      ∷ exact (codes "/modbus_id") (reading (get_modbus_id p))
      ∷ exact (codes "/invert_watts") (reading (get_invert_watts p))
      ∷ exact (codes "/logs") (reading (get_logs p))
      ∷ exact (codes "/discovered_wifis") (reading (get_discovered_wifis p t.wifi_line))
      ∷ exact (codes "/host_name") (reading (get_hostname p))
      ∷ exact (codes "/ap_active") (reading (get_ap_active p))
      ∷ exact (codes "/user") (reading (get_user p))
      ∷ exact (codes "/time") (reading (get_time p))
      ∷ exact (codes "/") (reading (static_page_callback p t.index_html status_ok html))
      ∷ exact (codes "/index.html") (reading (static_page_callback p t.index_html status_ok html))
      ∷ exact (codes "/style.css")
          (reading (static_page_callback p t.style_css status_ok (codes "text/css")))
      ∷ exact (codes "/internet.html")
          (reading (static_page_callback p t.internet_html status_ok html))
      ∷ exact (codes "/overview.html")
          (reading (static_page_callback p t.overview_html status_ok html))
      ∷ exact (codes "/settings.html")
          (reading (static_page_callback p t.settings_html status_ok html))
      ∷ []

  unfoldable pub post_endpoints : List (Endpoint App)
  post_endpoints =
      exact (codes "/modbus_id") (set_modbus_id p)
      ∷ exact (codes "/invert_watts") (set_invert_watts p)
      ∷ exact (codes "/set_log_level") (set_log_level p)
      ∷ exact (codes "/host_name") (set_hostname p)
      ∷ exact (codes "/ap_active") (set_ap_active p)
      ∷ exact (codes "/wifi_connect") (connect_to_wifi p)
      ∷ exact (codes "/login") (reading (post_login p))
      ∷ []

  unfoldable pub put_endpoints : List (Endpoint App)
  put_endpoints =
      exact (codes "/set_password") (set_password p) ∷ exact (codes "/time") (set_time p) ∷ []

  unfoldable pub default_endpoint_cb : Callback App
  unfolding static_page_callback
  default_endpoint_cb = reading (static_page_callback p t.not_found_html status_not_found html)

  -- `Webserver()`, with its buffers, its connections and the objects that it serves
  unfoldable pub webserver : List MessageBuffer → List MessageBuffer → Net → App → Server App
  unfolding get_endpoints post_endpoints put_endpoints default_endpoint_cb
  webserver send recieve net app = record {
    port = 80;
    default_endpoint_cb = default_endpoint_cb;
    get_endpoints = get_endpoints;
    post_endpoints = post_endpoints;
    put_endpoints = put_endpoints;
    delete_endpoints = [];
    server_pcb = 0;
    closed = false;
    send_buffers = send;
    recieve_buffers = recieve;
    net = net;
    app = app;
  }
