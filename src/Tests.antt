-- ===== src/Tests.antt =====
-- The theorems at concrete inputs, and runs of the code.
mod Timestamp
mod RxQueue
mod RxSession
mod Tx
mod Device
mod Streams
mod Settings
mod DeviceOptions
mod Rates
mod Clock
mod Startup
mod DcOffset
