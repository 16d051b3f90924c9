-- ===== src/Lib.antt =====
-- SoapySidekiq: the SoapySDR driver for Sidekiq cards.
--
-- A card delivers blocks of IQ samples, stamped by one of its counters. RxStreamSession owns the
-- hardware stream and a worker thread, which moves the blocks into an RxSampleQueue; an application
-- reads samples and their time from the queue. The counters are turned into nanoseconds by exact integer
-- arithmetic. Writes go the other way, through a ring of buffers that the card hands back by a callback.
--
-- Timestamp (include/SoapySidekiq/TimestampConversion.hpp, TimestampRate.hpp): `multiplyDivide` and
--   `ticksToNanoseconds`, each in both builds, `nanosecondsToTicks`, and `TimestampRate`. A loop over the
--   bits of a word is a recursion on the number of bits. The loop of `fromActualRate` has fuel 64, the
--   number of bits that it can shift out. A double is its sign, its mantissa and its exponent, as `frexp`
--   gives them.
-- RxQueue (RxSampleQueue.cpp): the members are the record Queue, each method a function of it. What is
--   done under one lock is one step. A wait is told what other threads call meanwhile. The copy loop has
--   the number of blocks and two as fuel, since a round uses up a block or ends the request.
-- RxSession (RxStreamSession.cpp): Lifecycle has the calls that hold the lifecycle mutex, ReceiveLoop
--   the worker, step by step, and Steps their interleavings as a relation, in which each store of a flag and
--   each operation of the queue is a step. Backend, thread creation and the value of ENODEV are parameters.
--   A join waits for as many worker steps as a list holds.
-- RxBackend (SidekiqRxBackend.cpp) and RxStream (RxStreaming.cpp): the two ends of that path, a block of
--   the SDK and a read by the application. The SDK's constants are parameters.
-- Tx (TxStreaming.cpp): the ring of transmit buffers, the completion callback, `writeStream` and
--   `readStreamStatus`. Each is told, for each turn of its loop, what other threads do in it and what the
--   SDK answers. The contexts that the SDK owns are a list of buffers, and a callback takes one of them.
--   One thread writes at a time.
-- Streams (Streaming.cpp, and stopTxStream of TxStreaming.cpp): the device's two streams over the session
--   and the ring: `setupStream`, `activateStream`, `deactivateStream`, `closeStream`. A token is an address;
--   the answers of the SDK and of the allocators are arguments. A stop that joins the receive worker has
--   no result where the list of what the worker still gets ends too early.
-- Settings (Settings.cpp, and equalsIgnoreCase of DeviceLifecycle.cpp): `writeSetting`, `readSetting` and
--   `getSettingInfo`. The hardware is a state of any type that the SDK's reads and writes act on.
-- DeviceOptions (DeviceOptions.cpp): the parser of the constructor's arguments.
-- Rates (RFControls.cpp, with checkedUnsigned of NumericConversion.hpp): rates and bandwidths over the
--   state of the hardware. The loop of `listSampleRates` has two rounds more than steps below the maximum
--   as fuel. Its rates and bounds are integers of 32 bits, which a double holds exactly.
-- DcOffset (RFControls.cpp): `setDCOffsetMode` and `getDCOffsetMode` over the state of the hardware.
-- Clock (TimeClock.cpp): the time of the hardware over the conversions of Timestamp, the reference clock,
--   and in Clock.Pps the source of PPS edges. The kernel's attribute and the wait of a second are parameters.
-- Startup (DeviceLifecycle.cpp, SampleScale.hpp, ScopeExit.hpp): the constructor over the hardware of Rates,
--   Clock and Clock.Pps, and the destructor. A guard is a function of how the guarded code ended.
-- StreamRequest (StreamConfiguration.cpp) and Sensors (SensorReader.cpp): the check of a request, where a
--   string is its list of character codes, and the reads of sensors.
-- Base: the names that the modules share, words of 64 bits, outcomes with C++'s exceptions, and
--   lemmas on division. A machine word is a natural number with its wrap-around written out.
--
-- Not modelled: frequency, gain and antenna,
-- conversions in floating point (`ticksToNanosecondsAtRate`, sample conversion), logging,
-- the text of errors, and the SDK, which is a parameter wherever a part calls it. Allocation
-- does not fail, but for the blocks of TX.
pub mod Base
pub mod Timestamp
pub mod RxQueue
pub mod RxSession
pub mod Tx
pub mod StreamRequest
pub mod Sensors
pub mod RxBackend
pub mod RxStream
pub mod Streams
pub mod Settings
pub mod DeviceOptions
pub mod Rates
pub mod Clock
pub mod Startup
pub mod DcOffset
mod Tests
