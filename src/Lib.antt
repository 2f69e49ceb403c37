-- ===== src/Lib.antt =====
-- Verification library of the firmware in this repository: a Pico W that reads an energy meter over
-- Modbus, serves it by HTTP and SunSpec Modbus TCP, and opens an access point for its setup.
--
-- Parts of the program, and the modules that model them:
-- * Fixed-size containers, include/static_types.h, on which every other part stands:
--   StaticString (`static_string`), StaticVector (`static_vector`) and RingBuffer
--   (`static_ring_buffer`). The template parameter `N` is an argument `n`; an `int cur_size` is its
--   32-bit pattern, so that a value from 2 ^ 31 on is negative; an index stands for a pointer.
-- * The log, include/log_storage.h: LogStorage, a ring buffer of static strings. `push`,
--   `print_errors` and the functions `LogInfo` to `LogFatal` (`log_static`, `log_formatted`).
-- * The settings in flash, include/persistent_storage.h: PersistentStorage, with `write`,
--   `write_array_range`, `read` and `_write_impl`. PersistentStorage.Flash has the two flash functions
--   of the Pico SDK, as a parameter with their documented behaviour.
-- * The access point's servers: DnsServer (src/dnsserver.c) answers every name with the device's
--   address, DhcpServer (src/dhcpserver.c, include/dhcpserver/dhcpserver.h) leases eight addresses.
-- * The clock, src/ntp_client.cpp: NtpClient, with `ntp_recv` and the reading of the time.
-- * The Modbus TCP connections, src/sunspec_modbus.cpp and include/sunspec_modbus.h: SunspecModbus,
--   a static vector of connections, each with a static vector of bytes, and the callbacks on it.
-- * Words and lines, include/string_util.h, which the parsers use: StringUtil.
-- * The password of the web interface, include/crypto_storage.h: CryptoStorage, with `set_password`
--   and `check_authorization`. SHA-256 is a parameter.
-- * The HTTP server, include/tcp_server/tcp_server.h: HttpServer has the message buffers, `send_data`
--   and `tcp_server_result`; HttpServer.Request the parser `req_update_structured_views`;
--   HttpServer.Response the functions `res_set_status_line`, `res_add_header` and `res_write_body`;
--   HttpServer.Serve the endpoints, `process_request` and `tcp_server_recv`; HttpServer.Lifecycle
--   `start`, `stop` and the other callbacks. An endpoint is a function on a state of the program, the
--   messages and the connections; what lwIP answers while the server sends is a list of rounds.
-- * The web interface, include/webserver.h: WebServer.Pages has the endpoints that only read,
--   WebServer.Settings those that change something, WebServer.Table which endpoint serves which path.
--   They are callbacks of HttpServer on one record of the objects that they share.
-- * The WiFi credentials and the networks in reach, include/wifi_storage.h: WifiStorage.
-- * The access point, include/access_point.h: AccessPoint, which starts and stops its two servers.
-- * The registers of the two meters, modbus_layouts/modbus-layouts.h: Layouts. A pointer to a member is
--   a constructor, `image` the memory of a structure.
-- * The lock on the SunSpec registers, include/mutex.h: Mutex. The semaphore of FreeRTOS is a
--   parameter; the tasks that take the lock are steps in any order.
-- * The serial line to the Eastron meter, include/eastron_modbus.h: EastronModbus, with `read_bytes` and
--   `write_bytes`.
-- * The tasks of src/main.cpp: Main is `wifi_search_task`, on the WiFi storage, the access point and the
--   clock; Meter is the copying and the waiting of `update_meter_task`, from the one layout to the other.
-- * The console, include/usb_interface.h: UsbInterface, on the objects of the web interface, with
--   Settings (include/settings.h), Measurements (include/measurements.h), and Stream for what it uses of
--   `std::istream`.
-- * The tasks and callbacks together: Device has as steps a command of the console, a round of
--   `wifi_search_task`, a result of a scan, a request to the web interface and a log message, in any order.
-- * What is kept over a restart: Restart has the layout of the storage in flash, the writes of the web
--   interface on it, and the reads of `startup_task`.
-- The network parts take received packets from lwIP and send through it: Lwip holds the packets, as a
-- parameter with the documented behaviour of `pbuf_copy_partial` and `pbuf_get_at`, and the calls made,
-- as a list of events.
--
-- Conventions: a C object is a list of bytes, and an access outside it is undefined behaviour, the
-- result `none`; so a theorem that an operation gives `some` says that it stays in bounds. What a
-- local buffer holds before it is written is an argument, and so are the time and the answers of lwIP.
-- The text that `std::format` produces is an argument. Base has the shared names, lemmas on lists and,
-- in Base.Memory, the accesses.
--
-- Fuel: the loop over the labels of a DNS question takes 301 steps of fuel, one more than the buffer
-- has bytes; every round moves on by at least one byte. The loop over DHCP options takes 309, and
-- moves on by at least two of 308 bytes. A range loop over a ring buffer takes `n + 1`. The loop over
-- the headers of a request takes one more than the text has bytes, and moves on by a key. So none of
-- these loops uses up its fuel. `send_data` in HttpServer
-- runs as long as lwIP answers, and is `none` when the list of answers is used up.
--
-- The loops of the tasks and of `read_bytes` run on a list of what the platform answers in each round; a
-- theorem about `read_bytes` says that it is done before the list is used up.
--
-- Not modelled: the lwIP, WIZnet, FreeRTOS, mbedTLS and Pico SDK libraries and the Modbus library of a
-- submodule, which the program calls; of src/main.cpp the other calls of the start-up,
-- `sunspec_server_task` and the calls of `read_remote`, and of include/lwip_init.h all, which call these
-- libraries in a fixed order; the client of a solar inverter, which no build contains and whose header
-- is missing; the headers that configure the libraries. Log messages are left out of the parts that
-- write them, but for those of the web interface that quote the body of a request; in Device any log
-- message is a step.
pub mod Base
pub mod StaticString
pub mod StaticVector
pub mod RingBuffer
pub mod Lwip
pub mod DnsServer
pub mod DhcpServer
pub mod LogStorage
pub mod NtpClient
pub mod PersistentStorage
pub mod SunspecModbus
pub mod StringUtil
pub mod CryptoStorage
pub mod HttpServer
pub mod AccessPoint
pub mod WifiStorage
pub mod WebServer
pub mod Layouts
pub mod Meter
pub mod Mutex
pub mod Stream
pub mod Settings
pub mod Measurements
pub mod UsbInterface
pub mod EastronModbus
pub mod Main
pub mod Device
pub mod Restart
