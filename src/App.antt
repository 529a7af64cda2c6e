-- ===== src/App.antt =====
-- src/app: the program, its threads, and the queues between them. A queue's methods hold its mutex to the
-- end, so that each is one step on the queue.
pub mod BlockQueue
pub mod Producer
pub mod Preserve
pub mod NodeScan
pub mod BlockData
pub mod State
pub mod Consumer
pub mod DataWriter
pub mod BlockWriter
pub mod Config
pub mod Run
pub mod Threaded
pub mod Main
