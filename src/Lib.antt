-- ===== src/Lib.antt =====
-- Verification of win-can-utils, the CAN tools for Windows: drivers that turn the bytes of an adapter
-- into CAN frames and back, and the programs canserver, candump and cansend around them.
--
-- A driver (gs_usb over USB, slcan over a serial port) is polled by canserver, which hands the frames
-- to candump and takes those of cansend. Bytes come in pieces that need not be whole frames, so these
-- two drivers keep a buffer; the PCAN driver asks its library for one message after the other.
--
--   Base        lists, panics, words in little endian, hexadecimal numbers and texts; no code of the
--               repository
--   Can         `crosscan::can::CanFrame`, which is another crate's: a record of its operations
--               (`CanApi`) that the code takes as a parameter, and what some theorems rely on
--               (`DataFrameLaws`), which the frames of Can/Plain meet
--   Io          `std::io::Result`
--   GsUsb       src/drivers/gs_usb: Constants is constants.rs, Frames is frames.rs
--               (`parse_host_frame_at`, cut at its comments into helpers), EventLoop is the receiving
--               side of `UsbEventLoop` in driver.rs and Commands its commands, Encode is
--               `encode_frame_tx_76`, `encode_frame_minimal` and `maybe_pad_tx`, and Driver what
--               `GsUsbDriver` asks of the device (Requests) to send frames and to open the channel;
--               Run is `UsbEventLoop::run` as a sequence of commands and completed reads; Setup is the
--               handshake of `GsUsbDriver::open`, the bitrate and opening to listen only, the steps
--               that the calls amount to, and what the device has been told (InStep) and the event loop
--               has noted (Agreement); BitTiming is bit_timing.rs, the floating-point score a
--               parameter; Discovery is device.rs, over descriptors as data; Context is context.rs:
--               error kinds, results, and the memory of transfers, with its uses
--   Slcan       src/drivers/slcan.rs: Lines is `parse_slcan_line_bytes` and `send_frame`, Driver is
--               the state with `read_frames`, `set_bitrate`, `get_measured_bitrate` and `get_version`
--   Pcan        src/drivers/pcan.rs: messages and frames, the receive loop and the bitrate, and the
--               names of channels (Channels)
--   Candump     src/bin/candump.rs: Filter is the filters, read and applied, Stamps the timestamps, and
--               Output the printed lines
--   Cansend     src/bin/cansend.rs: the argument and the retried connection
--   Canserver   src/bin/canserver.rs: Names is `next_auto_channel`, Init the set-up of the drivers over
--               the calls of `CanDriver`, with the gs_usb driver of Setup put in (Live) and the bytes
--               that its event loop reads from then on (Stream), and Bridge the frames to and from the
--               pipes, with the coder of bincode a parameter; Pipes is src/thread_manager_async.rs, the
--               tasks that serve the pipes; Shutdown is the end of `main`, with what tokio promises of
--               the handles of its tasks as hypotheses
--
-- State is passed on explicitly: a function takes the record and gives the new one. A call that can
-- panic, by an index or a slice out of range, gives an `Outcome`. Numbers are natural numbers; where
-- the code wraps around, the remainder is written out. What a port, a pipe or a device answers is an
-- argument.
--
-- Loops with no structural end take fuel and give `none` without enough of it. `process_rx_chunk` and
-- `read_frames` give their loops one more round than the buffer has bytes, and each round but the last
-- takes a byte at least; `connect_pipe_retry` takes as many rounds as attempts, `next_auto_channel` one
-- more than there are names in use (its index, an i32, has no bound here), and the client's `unframe` one for each message.
--
-- Not modelled: libusb, PCANBasic and the pipes of Windows, the start of tasks and threads, and log
-- messages. A command to the gs_usb event loop is the request that it passes on, and a closed channel
-- one more error answer; the recovery of a stalled write, which the event loop makes on its own, is not
-- among the requests of the driver.
pub mod Base
pub mod Can
pub mod Io
pub mod GsUsb
pub mod Candump
pub mod Slcan
pub mod Cansend
pub mod Canserver
pub mod Pcan
