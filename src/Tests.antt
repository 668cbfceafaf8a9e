-- ===== src/Tests.antt =====
-- The theorems at concrete inputs.
mod Trees
mod Threads
mod States
mod Servers
mod Commands
mod Storages
mod Copies
mod Requests
mod Endings
mod Terminal
mod Served
mod Reached
