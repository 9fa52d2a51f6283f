-- ===== src/Tests.antt =====
-- The theorems at concrete inputs, and runs of the code.
mod Ndef
mod Worker
mod Model
mod Ui
mod Reader
mod Linux
mod Loops
mod Keypad
mod Board
mod Power
mod Spi
