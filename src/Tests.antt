-- ===== src/Tests.antt =====
-- The operations on concrete data: the theorems' hypotheses can be met.
mod Queues
mod Semaphores
mod Caches
mod Domains
mod Tables
mod Names
mod Storage
mod Trees
mod Deletion
mod Pool
mod Vm
mod Pager
mod Chunks
