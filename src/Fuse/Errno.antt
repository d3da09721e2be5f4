-- ===== src/Fuse/Errno.antt =====
-- The error numbers of Linux that the handlers answer.
use stratosync.Common.{ℕ}

abbrev pub eperm : ℕ
eperm = 1

abbrev pub enoent : ℕ
enoent = 2

abbrev pub eio : ℕ
eio = 5

abbrev pub ebadf : ℕ
ebadf = 9

abbrev pub eacces : ℕ
eacces = 13

abbrev pub enotdir : ℕ
enotdir = 20

abbrev pub einval : ℕ
einval = 22

abbrev pub enospc : ℕ
enospc = 28

abbrev pub enotempty : ℕ
enotempty = 39

abbrev pub edquot : ℕ
edquot = 122

abbrev pub erange : ℕ
erange = 34

abbrev pub enodata : ℕ
enodata = 61
