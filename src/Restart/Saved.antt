-- ===== src/Restart/Saved.antt =====
-- A restart after a request to the web interface.
use pico_modbus_meter.Base.{
  ℕ, ◌%◌, ◌≡◌, refl, sym, ap, ◌∙◌, Bool, true, false, not, Option, some, List, [], ◌∷◌, ◌++◌, ◌==◌,
  if◌then◌else◌,
}
use pico_modbus_meter.Base.Yields.{Yields-at}
use pico_modbus_meter.HttpServer.{MessageBuffer, Net}
use pico_modbus_meter.HttpServer.Serve.{select}
use pico_modbus_meter.PersistentStorage.{PersistentStorage}
use pico_modbus_meter.PersistentStorage.Flash.{FlashOps, Documented}
use pico_modbus_meter.PersistentStorage.Write.{both_run}
use pico_modbus_meter.PersistentStorage.ReadBack.{IsValid}
use pico_modbus_meter.WebServer.{
  App, Platform, Stored, modbus_id, invert_watts, hostname, ssid_wifi, pwd_wifi, user_pwd,
}
use pico_modbus_meter.WebServer.Table.{
  Texts, post_endpoints, put_endpoints, default_endpoint_cb, webserver,
}
use pico_modbus_meter.WebServer.Related.{
  Keepers, no_endpoint, endpoint, reading-IsKeeper, find_callback-Keeps, default-IsKeeper,
  select-Keeps,
}
use pico_modbus_meter.WebServer.Order.{IsOrdered}
use pico_modbus_meter.Restart.{
  Member, inverted, address, layout_size, write_stored, read_member, startup,
}
use pico_modbus_meter.Restart.Members.{latest, all_ok, read_member-write_stored}
use pico_modbus_meter.Restart.Saving.{
  last_addr, last_inverted, Saved, Saves, same-Saves, set_time-IsKeeper, set_modbus_id-IsKeeper,
  set_invert_watts-IsKeeper, set_log_level-IsKeeper, set_hostname-IsKeeper, set_ap_active-IsKeeper,
  connect_to_wifi-IsKeeper, set_password-IsKeeper,
}

module _ (p : Platform) (t : Texts) where
  post_endpoints-Keepers : Keepers Saves (post_endpoints p t)
  unfolding post_endpoints
  post_endpoints-Keepers = endpoint (set_modbus_id-IsKeeper p) (
      endpoint (set_invert_watts-IsKeeper p) (
        endpoint (set_log_level-IsKeeper p) (
          endpoint (set_hostname-IsKeeper p) (
            endpoint (set_ap_active-IsKeeper p) (
              endpoint (connect_to_wifi-IsKeeper p)
                (endpoint (reading-IsKeeper Saves same-Saves _) no_endpoint))))))

  put_endpoints-Keepers : Keepers Saves (put_endpoints p t)
  unfolding put_endpoints
  put_endpoints-Keepers =
      endpoint (set_password-IsKeeper p) (endpoint (set_time-IsKeeper p) no_endpoint)

  webserver-Saved :
      (send recieve : List MessageBuffer) (net0 : Net) (app0 : App) (req res res' : MessageBuffer)
      (app app' : App) (net net' : Net)
      → IsOrdered app
      → select (webserver p t send recieve net0 app0) req req res app net ≡ some (res', app', net')
      → Saved app app'
  webserver-Saved send recieve net0 app0 req res res' app app' net net' v e =
      Yields-at _ (res', app', net')
        (select-Keeps Saves same-Saves p t send recieve net0 app0 req res app net
          post_endpoints-Keepers
          (λ put.
            find_callback-Keeps Saves (put_endpoints p t) (default_endpoint_cb p t) req.path
              put_endpoints-Keepers (default-IsKeeper Saves same-Saves p t) req res app net))
        e v

latest-address :
    (xs : List Stored) (f : Member → Option (List ℕ)) (a : ℕ)
    → f address ≡ some (a ∷ [])
    → latest xs f address ≡ some (last_addr xs a ∷ [])
latest-address [] f a h = h
latest-address (modbus_id id ∷ xs) f a h = latest-address xs _ (id % 256) refl
latest-address (invert_watts i ∷ xs) f a h = latest-address xs _ a h
latest-address (hostname s ∷ xs) f a h = latest-address xs _ a h
latest-address (ssid_wifi s ∷ xs) f a h = latest-address xs _ a h
latest-address (pwd_wifi s ∷ xs) f a h = latest-address xs _ a h
latest-address (user_pwd s ∷ xs) f a h = latest-address xs _ a h

-- the byte of a `bool`
abbrev pub flag : Bool → ℕ
flag i = if i then 1 else 0

latest-inverted :
    (xs : List Stored) (f : Member → Option (List ℕ)) (i : Bool)
    → f inverted ≡ some (flag i ∷ [])
    → latest xs f inverted ≡ some (flag (last_inverted xs i) ∷ [])
latest-inverted [] f i h = h
latest-inverted (modbus_id id ∷ xs) f i h = latest-inverted xs _ i h
latest-inverted (invert_watts j ∷ xs) f i h = latest-inverted xs _ j refl
latest-inverted (hostname s ∷ xs) f i h = latest-inverted xs _ i h
latest-inverted (ssid_wifi s ∷ xs) f i h = latest-inverted xs _ i h
latest-inverted (pwd_wifi s ∷ xs) f i h = latest-inverted xs _ i h
latest-inverted (user_pwd s ∷ xs) f i h = latest-inverted xs _ i h

flag-back : (i : Bool) → not (flag i == 0) ≡ i
flag-back true = refl
flag-back false = refl

module _ (ops : FlashOps) (docs : Documented ops) (flash_size : ℕ) where
  -- The flash holds the address and the sign of the objects.
  pub record Agrees (s : PersistentStorage) (app : App) : Type 0 where
    pub valid : IsValid flash_size layout_size s
    pub addr : read_member ops flash_size s address ≡ some (app.addr ∷ [])
    pub sign : read_member ops flash_size s inverted ≡ some (flag app.inverted ∷ [])

  startup-Agrees :
      (s : PersistentStorage) (app first : App)
      → Agrees s app
      → startup ops flash_size s first
        ≡ some (record first { addr = app.addr; inverted = app.inverted })
  unfolding startup
  startup-Agrees s app first h =
      rw (h.addr, h.sign)
        (ap (λ i. some (record first { addr = app.addr; inverted = i })) (flag-back app.inverted))

  -- With the documented flash functions, which run, objects in order, and a flash that holds their address and sign: after any request to
  -- the web interface that has a result, each write of what it stores to the flash succeeds, each member of the layout
  -- holds what was written to it last, or what it held before, the flash holds the new address and sign, and a restart
  -- finds them.
  pub startup-webserver :
      (p : Platform) (t : Texts) (send recieve : List MessageBuffer) (net0 : Net) (app0 : App)
      (req res res' : MessageBuffer) (app app' first : App) (net net' : Net) (s : PersistentStorage)
      → IsOrdered app
      → Agrees s app
      → select (webserver p t send recieve net0 app0) req req res app net ≡ some (res', app', net')
      → (writes : List Stored) × (s' : PersistentStorage) × (app'.stored ≡ app.stored ++ writes)
        × (write_stored ops flash_size both_run writes s ≡ some (all_ok writes, s'))
        × ((m : Member)
            → read_member ops flash_size s' m ≡ latest writes (read_member ops flash_size s) m)
        × Agrees s' app'
        × (startup ops flash_size s' first
            ≡ some (record first { addr = app'.addr; inverted = app'.inverted }))
  startup-webserver p t send recieve net0 app0 req res res' app app' first net net' s v h e =
      let saved = webserver-Saved p t send recieve net0 app0 req res res' app app' net net' v e in
      let (s', done, v', shown) =
        read_member-write_stored ops docs flash_size saved.writes s h.valid saved.sized in
      let agrees : Agrees s' app' = record {
        valid = v';
        addr =
            shown address
            ∙ latest-address saved.writes _ app.addr h.addr
            ∙ ap (λ a. some (a ∷ [])) (sym saved.addr);
        sign =
            shown inverted
            ∙ latest-inverted saved.writes _ app.inverted h.sign
            ∙ ap (λ i. some (flag i ∷ [])) (sym saved.sign);
      } in
      (saved.writes, s', saved.appended, done, shown, agrees, startup-Agrees s' app' first agrees)
