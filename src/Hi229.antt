-- ===== src/Hi229.antt =====
-- The HI229 sensor (lib/hi229): the CHAOHE serial protocol of hi229_serial.c.
mod Tests
pub mod Crc
pub mod Raw
pub mod Parse
pub mod Input
pub mod Driver
