-- ===== src/Bootrom.antt =====
-- bootrom/src, the program in the boot ROM: its accessors of the controllers, the copy of the
-- program image from the card into the main memory, the serial port and the Ethernet buffer.
pub mod Loader
pub mod Uart
pub mod Ether
pub mod Boot
mod Tests
