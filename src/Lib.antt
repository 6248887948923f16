-- ===== src/Lib.antt =====
-- The firmware of the RFMarkIt sensor node: a board with an inertial sensor that sends time-stamped readings
-- over Wi-Fi. The models stand for these parts of the repository:
--
-- RingBuf: lib/ring_buf/ring_buf.c, the buffer between the sensor's task and the sender. `RingBuf` is
-- `ring_buf_t`; `init`, `push`, `peek` and the rest are the functions `ring_buf_init` and so on. A result `none`
-- stands for undefined behaviour of C. The history of pushed items is in RingBuf/History.
-- Hi229: lib/hi229/hi229_serial.c, the serial protocol of the HI229 sensor. Hi229/Raw has `raw_t` and the reads of
-- the buffer, Hi229/Crc `crc16_update`, Hi229/Parse `parse_data` with one function for each item, Hi229/Input
-- `decode_ch`, `sync_ch` and `ch_serial_input`, Hi229/Driver the functions of lib/hi229/hi229.c, with the
-- set-up of the sensor in Hi229/Driver/Start. A serial stream of frames, damaged frames and stray bytes is in
-- Hi229/Input/Packets and Hi229/Input/Stream. Floating point is a parameter, `FloatOps`. The loop over the payload has as much fuel as the payload has bytes.
-- Blink: components/blink/blink.c, the patterns of the LED, the code word of the sequence number
-- (`fill_u8_hamming`), the pattern that shows it (`blink_prepare_pattern`) and the timer's callback.
-- LedStatus: components/sys/led_status.c, which status the LED has to show, and the handler that sets it through
-- the functions of Blink.
-- Power: components/sys/power_mgmt.c, the states and modes of the power management. Power/Events has the entries
-- into the states and `sys_power_mgmt_handler`; Power/Reach the states that a boot and events lead to.
-- Power/Boot has the wake-up handler with the boot of main/app_main.c, Power/Nights boots one after another, and
-- Power/Saving the task `app_power_save`. The results of the reads of the sensor are a list, which is the fuel of the loops
-- that wait for a read.
-- Spatial: lib/spatial/spatial.c, the two operations that the power management calls.
-- Rest: components/rest_controller, the decoding of the parameters of a request (Rest/Url: `url_decode_copyn`,
-- `parse_url_kv_pair`) and the handlers of rest_controller_handlers.c, by what they serve: Rest/System, Rest/Variables,
-- Rest/Imu and Rest/Led. A handler goes from a request and a node to a response and a node; `none` stands for undefined
-- behaviour. Rest/Routes has the table of rest_controller.c.
-- Node: what the handlers and the tasks share, `g_mcu` and `g_imu` with the events that are set, the bits of the tasks
-- and the queue of the system loop; the operation mode of components/sys/sys.c.
-- Loop: components/apps/system_loop.c, the timers and a round of the loop, which turns events into events of the
-- system loop. Loop/Pending has its steps with the ends of the handlers.
-- Wifi: components/sys/wifi.c, the events of the driver, the attempt to connect, its configuration and the reconnection. The wait for the
-- driver ends with the list of its events.
-- TimeSync: components/sys/time_sync.c, the choice of the server and the wait, with the timeout as its fuel: each round
-- counts one second of it.
-- Stream: components/apps/monitor.c and components/apps/network.c, the rounds of the task that reads the sensor and of
-- the task that sends, over the ring buffer. Stream/Rounds has
-- their rounds by outcome, and Stream/Order the stretches in which the client keeps up.
-- Udp: lib/libudp/udp.c, the socket object; what the network stack answers is an argument of each function.
-- Button: components/sys/button.c, the interrupt handler on the edges of the button, with the queue of 10 entries that
-- it sends to, and the daemon's rounds.
-- Nvs: components/sys/nvs_mgmt.c, the table of the variables, the lookup by name, what is stored for a variable, and the
-- limits of the loaded values. Nvs/Load has the loading at boot, over the flash library of ESP-IDF as the record `Flash`,
-- whose documented behaviour is `IsFlash`; what an uninitialised variable of C holds is an argument.
-- Discovery: components/sys/discovery.c, the decoding of the reply to a discovery message, and the handler over the
-- rounds of the network (Discovery/Handler).
-- Ble: components/ble, the advertising and the events of connections of ble_srv.c, and in Ble/Gatt the access to the
-- Wi-Fi service of gatt_srv.c. Ble/Advertised has the runs of the stack, Ble/Provision what a write leads to, Ble/Overflow writes against
-- the sizes of the arrays, and Ble/Kept
-- its way through the flash to the next boot.
-- Sys: components/sys/sys.c, the names of the node (`sys_init_chip`), with Sys/Tasks for the start and stop of the tasks,
-- and Sys/Guard for the guard of an update.
-- Tcp: lib/libtcp, the rounds of the server in tcp_server.c, and in Tcp/Send the macro `send_all` of tcp.h.
-- Battery: lib/battery/battery.c, the level of the battery, over what the converter of ESP-IDF returns.
-- Bno08x: lib/bno08x/bno08x.c, the adapter of the other sensor.
-- Base: lists, bits, bytes in memory and results that the parts share. Esp: the result codes of ESP-IDF.
--
-- The calls of ESP-IDF, of the drivers and of the network stack are no part of the repository. The models record
-- that they are made, latest first, in a list of calls, and take what they answer as arguments. A mutex that is
-- taken without a time limit is taken.
--
-- Not modelled: the driver lib/bno08x/bno08x_driver.c, which is a copy of another project; the set-up of
-- peripherals, with the creation of the queue of the button, and of the Wi-Fi driver, which is configuration; the
-- Bluetooth stack, the JSON library and the HTTP server, which are other projects'; the erasing of the flash; the printing
-- and profiling; the TCP client; and floating point.
pub mod Base
pub mod Esp
pub mod RingBuf
pub mod Hi229
pub mod Blink
pub mod LedStatus
pub mod Power
pub mod Spatial
pub mod Rest
pub mod Udp
pub mod Wifi
pub mod Loop
pub mod Bno08x
pub mod Stream
pub mod TimeSync
pub mod Button
pub mod Nvs
pub mod Discovery
pub mod Node
pub mod Ble
pub mod Sys
pub mod Tcp
pub mod Battery
