-- ===== src/Clock.antt =====
-- kernel/src/devices/clock: the time of day, and the time since the start.
pub mod Rtc
pub mod Calendar
pub mod Time
pub mod System
pub mod History
pub mod Devices
mod DeviceExamples
mod Examples
