-- ===== src/Examples.antt =====
-- Concrete runs of the components.
mod Filesystem
mod Disks
mod Queues
mod Lists
mod Locks
mod Strings
mod Trees
mod Pages
mod Heaps
mod Sleepers
mod Vnodes
mod Files
mod Processes
