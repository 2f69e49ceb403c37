-- ===== src/Device/Samples.antt =====
-- A device at its start.
use pico_modbus_meter.Base.{[], arith}
use pico_modbus_meter.LogStorage.Samples.{log}
use pico_modbus_meter.WebServer.Samples.{device, zeros-IsValid}
use pico_modbus_meter.WebServer.Order.{IsOrdered}
use pico_modbus_meter.WifiStorage.Samples.{fresh, fresh-IsInOrder}
use pico_modbus_meter.Device.{Device}

abbrev pub started : Device
started = record {
  console = record {
    app = record device { wifi = fresh; log = log };
    settings = record { k_s = 0x3f000000 };
    station_calls = [];
  };
  last_conn = 0;
}

pub started-IsOrdered : IsOrdered started.console.app
started-IsOrdered = record {
  wifi = fresh-IsInOrder;
  positive = omega arith;
  small = omega arith;
  password = zeros-IsValid;
}
