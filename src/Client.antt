-- ===== src/Client.antt =====
-- client.c: a command of the terminal, from the line that is read to what is printed.
pub mod World
pub mod Text
pub mod Listing
pub mod Servers
pub mod Write
pub mod Loop
pub mod Grant
pub mod Clean
pub mod Shown
pub mod Sent
pub mod Written
pub mod Acknowledged
pub mod Address
pub mod Reached
pub mod Fetched
pub mod Shrinks
pub mod Ends
