-- ===== src/Client.antt =====
-- The traffic generator of kernel_client/client.c: Client.Receive has the threads of a connection,
-- Client.Send the sending thread, Client.Serve the listening threads, and Client.Module the files
-- under /proc and the start and end of the module. The results of the kernel's calls are arguments,
-- in the order of the calls.
pub mod Receive
pub mod Send
pub mod Serve
pub mod Module
pub mod Pages
pub mod Zcopy
pub mod Traffic
mod Tests
use ktcp_split.Common.{ℕ}

abbrev pub page_size : ℕ
page_size = 4096

abbrev pub vec_sz : ℕ
vec_sz = 16

abbrev pub nsec_per_sec : ℕ
nsec_per_sec = 1000000000

abbrev pub enomem : ℕ
enomem = 12
