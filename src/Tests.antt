-- ===== src/Tests.antt =====
-- Tests of the definitions, and the theorems at concrete inputs.
mod QueueTests
mod PoolTests
mod JobTests
mod Base64Tests
mod EventQueueTests
mod LoopBufTests
mod ZvmTests
mod NetTests
mod ParallelTests
mod BeTests
mod FifoTests
mod HashMapTests
mod MessageTests
mod SockTests
