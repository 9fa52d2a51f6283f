-- ===== src/Hal.antt =====
-- src/hal: the power of the Cap and the SPI device, over the calls of the system.
pub mod Power
pub mod Spi
