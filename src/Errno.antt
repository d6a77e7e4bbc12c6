-- ===== src/Errno.antt =====
-- The return codes of the kernel: `OK`, the `ERR` of the utilities, and those of
-- include/posix_include/errno.h that the modelled code returns.
pub data Errno : Type 0 where
  ok err : Errno
  esrch eintr echild ebadf enomem eacces efault einval enfile emfile espipe edeadlk eio : Errno
