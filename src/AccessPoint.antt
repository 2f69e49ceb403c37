-- ===== src/AccessPoint.antt =====
-- include/access_point.h: the access point with its DHCP and DNS servers. The calls of the WiFi driver are events; what lwIP
-- gives and the addresses of the driver are arguments.
use pico_modbus_meter.Base.{ℕ, Bool, true, false, not, Option, List, [], ◌∷◌, if◌then◌else◌}
use pico_modbus_meter.DhcpServer
use pico_modbus_meter.DnsServer

pub record AccessPoint : Type 0 where
  pub name : List ℕ
  pub password : List ℕ
  pub active : Bool
  pub dhcp_server : pico_modbus_meter.DhcpServer.Server
  pub dns_server : pico_modbus_meter.DnsServer.Server
  pub ip : List ℕ
  pub mask : List ℕ

-- what `udp_new` returns for the two servers and `udp_bind` for the second, and the two addresses
pub record Setup : Type 0 where
  pub dhcp_udp : Option ℕ
  pub dns_udp : Option ℕ
  pub dns_bind_err : ℕ
  pub default_ip : List ℕ
  pub default_mask : List ℕ

pub data ApCall : Type 0 where
  enable_ap_mode : List ℕ → List ℕ → ApCall
  disable_ap_mode : ApCall
  dhcp : List pico_modbus_meter.DhcpServer.SocketCall → ApCall
  dns : List pico_modbus_meter.DnsServer.SocketCall → ApCall

unfoldable pub init : Setup → AccessPoint → AccessPoint × List ApCall
unfolding pico_modbus_meter.DhcpServer.init pico_modbus_meter.DnsServer.init
init s a =
    let (dhcp_server, dhcp_calls) =
      pico_modbus_meter.DhcpServer.init s.dhcp_udp a.dhcp_server s.default_ip s.default_mask in
    let (dns_server, dns_calls) =
      pico_modbus_meter.DnsServer.init s.dns_udp s.dns_bind_err a.dns_server s.default_ip in
    if a.active then (a, []) else (
      record a {
        active = true;
        dhcp_server = dhcp_server;
        dns_server = dns_server;
        ip = s.default_ip;
        mask = s.default_mask;
      },
      enable_ap_mode a.name a.password ∷ dhcp dhcp_calls ∷ dns dns_calls ∷ [],
    )

unfoldable pub deinit : AccessPoint → AccessPoint × List ApCall
unfolding pico_modbus_meter.DhcpServer.deinit pico_modbus_meter.DnsServer.deinit
deinit a =
    let (dns_server, dns_calls) = pico_modbus_meter.DnsServer.deinit a.dns_server in
    let (dhcp_server, dhcp_calls) = pico_modbus_meter.DhcpServer.deinit a.dhcp_server in
    if not a.active then (a, []) else (
      record a { active = false; dhcp_server = dhcp_server; dns_server = dns_server },
      dns dns_calls ∷ dhcp dhcp_calls ∷ disable_ap_mode ∷ [],
    )
