-- ===== src/UsbInterface/Samples.antt =====
-- A terminal without readings.
use pico_modbus_meter.Base.{◌+◌, ◌%◌, false, [], ◌∷◌, codes}
use pico_modbus_meter.WebServer.Samples.{platform}
use pico_modbus_meter.UsbInterface.{Terminal}

abbrev pub terminal : Terminal
terminal = record {
  help = codes "help";
  decimal = λ n. (48 + n % 10) ∷ [];
  float_text = λ v. codes "0.5";
  parse_float = λ cs. (0, false, cs);
  measured = λ f. 0;
  ip_text = codes "0.0.0.0";
  setup = platform.setup;
}
