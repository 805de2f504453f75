-- ===== src/Containers.antt =====
-- ycommon/containers.
pub mod HashTable
pub mod MemPool
pub mod AtomicHashTable
pub mod AtomicMemPool
pub mod AtomicQueue
pub mod UnorderedArray
pub mod MemBuffer
pub mod CommandTree
pub mod RefPointer
