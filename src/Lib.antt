-- ===== src/Lib.antt =====
-- Verification of Cap-CC1101-NFC, the NFC reader application of the Cap for Cardputer Zero.
--
-- A worker thread owns the reader, polls it for tags through a backend, debounces what it sees,
-- and puts events into a bounded queue. The model takes the events out on the user interface's
-- thread and keeps what the pages show; the view model and the application turn keys into
-- retries, sections and, after a long hold of ESC, the end of the program. NDEF messages that a
-- tag carries are parsed into records.
--
-- Parts and files:
--   * Types: src/nfc/nfc_types.hpp and nfc_types.cpp, the values that the parts exchange, with
--     sameTagIdentity, sameTagSnapshot and bytesToHex.
--   * Ndef: src/nfc/ndef_parser.hpp and ndef_parser.cpp. Ndef/Cursor is the class Cursor, Ndef/Utf8
--     isValidUtf8, Ndef/Decode decodeRecord and Ndef/Parser parseNdefMessage. Ndef/Format describes
--     the wire format with no reference to the parser.
--   * Backend: src/nfc/nfc_backend.hpp as a record of operations, which the worker takes as a
--     parameter; Backend/Mock and Backend/Unavailable are mock_nfc_backend.cpp and
--     unavailable_nfc_backend.cpp.
--   * St25r3916: src/nfc/st25r3916_driver.hpp and st25r3916_driver.cpp, the driver of the reader
--     chip. St25r3916/Action is the transport and the methods' type, Bus the registers and the
--     FIFO, Interrupts, Field and Exchange what their names say, Anticollision anticollisionLevel,
--     Type2 readType2Ndef, NfcA and NfcF the polls, and Lifecycle initialize, start and stop.
--   * LinuxBackend: src/nfc/linux_nfc_backend.cpp. LinuxBackend itself chooses between the protocols
--     over polls that are a parameter, LinuxBackend/Polls has those of the driver, startDiscovery,
--     stopDiscovery and pollDiscovery, LinuxBackend/Board the hardware below as an interface with
--     the settings, cancellableSleep and LinuxSt25r3916Transport, and LinuxBackend/Opening open,
--     close and the backend as a whole. LinuxBackend/Hardware fills that interface with the drivers
--     of src/hal.
--   * Hal/Power: src/hal/cardputerzero_cap_power.cpp; Hal/Power/Pinctrl is runPinctrl. Hal/Spi:
--     src/hal/linux_spi_device.cpp. LinuxBackend/Hardware has the release of
--     src/hal/linux_gpio_line.cpp.
--   * Keypad: src/input/nfc_keypad.hpp and nfc_keypad.cpp. Keypad/Codes is translateKey with its
--     tables, and Keypad/Application the callback of src/main.cpp.
--   * Worker: src/nfc/nfc_worker.hpp and nfc_worker.cpp. Worker/Events is pushEvent and
--     tryPopEvent, Worker/Commands post and tryPopCommand, Worker/Presence handleDiscoveryResult
--     and clearPresence, Worker/Thread run, initializeBackend and handleCommand, Worker/Lifecycle
--     the constructor, start and stop, and Worker/System the interleavings of the two threads.
--   * Model: src/models/nfc_model.hpp and nfc_model.cpp, NfcModel. Model/Running has what a started
--     model goes through.
--   * Ui: src/core/nfc_router.cpp, src/view_models/nfc_view_model.cpp and src/core/nfc_app.cpp, with
--     NfcView::tick of src/views/nfc_view.cpp.
--   * Base: lists with a length in the native numbers, Boolean tests, words and bit masks.
--   * Tests: the theorems at concrete inputs.
--
-- State is passed on explicitly: an operation takes the record of its object and returns it anew,
-- with its answer or the events it pushes. A backend call returns an Outcome, which is a value or
-- one of the exceptions; what it depends on outside its object is an argument of the call, its
-- World. The thread of the worker is a function from one step to the next, thread_step, with a
-- Phase in place of the program counter, and the calls of the other thread, which hold a mutex,
-- stand between the steps. The end of run is two steps, as it clears the running flag before it
-- closes the backend, and start joins a thread that stands between them. What one step pushes and
-- calls is not split further. A condition variable's wait is a step that changes nothing.
--
-- A method of the driver is an action on the driver and the surroundings of its transport, which
-- returns or throws; the transport is a parameter, with the clock and the cancellation flag that
-- the code reads, and nothing is assumed of it but where a theorem says so.
--
-- Bounds: counters of 64 and 32 bits wrap around. parse_loop and utf8_loop run on fuel, for which
-- they are given the number of bytes; each round takes at least one. A decimal number has at most
-- 20 digits. The loops of the driver that wait for a deadline are given a round for each
-- nanosecond up to it, and wait_child of runPinctrl as well: where the calls take time they end
-- before the fuel does. cancellable_sleep has a round for each millisecond, since a round sleeps
-- for one at least (LinuxBackend/Sleeping). fill has a round for each byte that is required, and
-- find_message for each byte of the capacity. The thread needs at most five steps to its end once
-- it is asked to stop.
--
-- What lies outside is a parameter: the bus and the clock of the driver, the board of the Linux
-- backend, the calls of Linux and LVGL under the keypad, the power and the SPI device. A record
-- of laws beside such a parameter says what a theorem relies on: the records Timed that calls
-- take time, Readback that a setting of the SPI device is reported as it is, Resources,
-- Descriptors and Holdings what a call takes and gives back. The drivers of src/hal fill
-- Resources. A poll of the keypad is given what the devices have queued as lists.
--
-- Not modelled: the requests of a GPIO line and the wait for its edge, and the loading of the
-- SPI overlay, which are calls of the system under the Linux backend; all drawing, and the main
-- loop but for its key callback. Of NfcApp and of the keypad, the branches of the desktop build
-- with SDL. Of the worker, the last handler of run, for exceptions that none of its calls
-- throws. Log lines are left out everywhere.
pub mod Base
pub mod Types
pub mod Ndef
pub mod Backend
pub mod St25r3916
pub mod Worker
pub mod LinuxBackend
pub mod Model
pub mod Ui
pub mod Keypad
pub mod Hal
pub mod Tests
