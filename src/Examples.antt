-- ===== src/Examples.antt =====
-- The theorems at concrete inputs, over the host in memory.
mod Images
mod Archives
mod Building
mod Channels
mod Cleanups
mod Builds
mod Programs
mod Followed
mod Installs
mod Logins
mod Changes
mod Solves
mod Commands
mod Listings
mod Unread
mod Succeeding
mod Printing
mod Saving
mod Refusing
mod Children
