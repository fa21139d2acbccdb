-- ===== src/NetDriver.antt =====
-- buildroot/package/rvcomp-ethernet/src/rvcomp_ethernet.c, the Linux network driver.
pub mod State
pub mod Tx
pub mod Rx
pub mod Lifecycle
mod Tests
