-- ===== src/LockFreeStack.antt =====
-- Threads on one stack: LockFreeStack.h and ObjectPool.h of CppProject/22.12.03 - LockFreeStack, one
-- access to shared memory at a time, in any order. The nodes of the stack are the objects of its pool,
-- which LockFreeStack makes with no nodes and without flag_placementNew. The destructors are left out.
pub mod Top
pub mod State
pub mod Access
pub mod System
pub mod Versioned
pub mod Places
pub mod Turns
pub mod Placing
pub mod Sound
pub mod History
pub mod Spec
pub mod Refines
pub mod Runs
pub mod Client
pub mod Monitor
pub mod Tests
