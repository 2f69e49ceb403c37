-- ===== src/WebServer/Samples.antt =====
-- A device, a platform and an empty response, to compute with.
use pico_modbus_meter.Base.{
  ℕ, ◌+◌, ◌%◌, ◌≡◌, true, false, none, List, [], ◌∷◌, arith, length, replicate, codes,
  length-replicate,
}
use pico_modbus_meter.HttpServer.{Header, MessageBuffer, no_view, Net, err_ok}
use pico_modbus_meter.LogStorage.{info}
use pico_modbus_meter.StaticString.{StaticString}
use pico_modbus_meter.StaticString.Bounds.{IsValid}
use pico_modbus_meter.WebServer.{App, Platform}
use pico_modbus_meter.WebServer.Table.{Texts}

abbrev pub zeros : ℕ → StaticString
zeros n = record { storage = replicate n 0; cur_size = 0 }

pub zeros-IsValid : IsValid 64 (zeros 64)
zeros-IsValid = record {
  capacity = length-replicate {A = ℕ} 64 0;
  small = omega arith;
  within = omega arith;
}

abbrev pub device : App
device = record {
  crypto = record { user_pwd = zeros 64 };
  wifi = record {
    wifis = record { storage = []; cur_size = 0 };
    last_scanned = 0;
    wifi_changed = false;
    wifi_connected = false;
    ssid_wifi = zeros 64;
    pwd_wifi = zeros 64;
    hostname_inited = false;
    hostname_changed = false;
    hostname = zeros 64;
  };
  ap = record {
    name = codes "pico_iot";
    password = codes "12345678";
    active = true;
    dhcp_server = record { ip = []; nm = []; lease = []; udp = none };
    dns_server = record { udp = none; ip = [] };
    ip = [];
    mask = [];
  };
  ntp = record { ntp_server_address = []; ntp_pcb = none; ntp_time = 0; local_time = 0 };
  log = record {
    logs = record { storage = []; cur_start = 0; cur_write = 0; full = false };
    cur_severity = info;
    print_to_cout = false;
  };
  addr = 1;
  inverted = false;
  stored = [];
  ap_calls = [];
}

-- a hash of 32 bytes for the tests: the length of the message, everywhere
abbrev pub weak_hash : List ℕ → List ℕ
weak_hash message = replicate 32 (length message % 256)

pub weak_hash-size : (message : List ℕ) → length (weak_hash message) ≡ 32
weak_hash-size message = length-replicate {A = ℕ} 32 (length message % 256)

abbrev pub platform : Platform
platform = record {
  decimal = λ n. (48 + n % 10) ∷ [];
  strtol = λ text. 0;
  strtoul = λ text. 0;
  sha256 = weak_hash;
  sha_storage = replicate 128 0;
  challenge = codes "Digest";
  now = 0;
  setup = record {
    dhcp_udp = none;
    dns_udp = none;
    dns_bind_err = 0;
    default_ip = [];
    default_mask = [];
  };
  close_err = λ history pcb. err_ok;
}

pub platform-room : length platform.sha_storage ≡ 128
platform-room = length-replicate {A = ℕ} 128 0

abbrev pub no_line : Header
no_line = record { key = []; value = [] }

abbrev pub blank : MessageBuffer
blank = record {
  used = true;
  buffer = zeros 256;
  method = [];
  path = [];
  http_version = [];
  status = [];
  headers = record { storage = no_line ∷ no_line ∷ no_line ∷ no_line ∷ []; cur_size = 0 };
  body = no_view;
  tpcb = 7;
  on_stream_out = false;
}

abbrev pub idle : Net
idle = record { client_pcbs = 7 ∷ []; rounds = []; events = [] }

abbrev pub texts : Texts
texts = record {
  not_found_html = codes "no";
  index_html = codes "index";
  style_css = [];
  internet_html = [];
  overview_html = [];
  settings_html = [];
  measurements = [];
  wifi_line = λ first w name connected. name;
}
