-- ===== src/Tests.antt =====
-- The theorems at concrete inputs, by the part of the program that they are about.
mod Lists
mod Caches
mod Files
mod Tables
mod Databases
mod Commands
mod Parsers
mod Allocators
mod Runs
mod Locks
