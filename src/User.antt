-- ===== src/User.antt =====
-- user/: the shell in user mode. It reaches the kernel through system calls alone.
pub mod Shell
