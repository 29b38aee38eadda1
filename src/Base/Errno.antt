-- ===== src/Base/Errno.antt =====
-- Return values. A function that returns 0 or -errno is modelled by the errno as a number, 0 on
-- success.
use Prim.Native.Nat.{ℕ}

abbrev pub Ret : Type 0
Ret = ℕ

abbrev pub enoent : ℕ
enoent = 2

abbrev pub eio : ℕ
eio = 5

abbrev pub enomem : ℕ
enomem = 12

abbrev pub enodev : ℕ
enodev = 19

abbrev pub einval : ℕ
einval = 22

abbrev pub erange : ℕ
erange = 34

abbrev pub eproto : ℕ
eproto = 71

abbrev pub econnreset : ℕ
econnreset = 104

abbrev pub eshutdown : ℕ
eshutdown = 108

abbrev pub enodata : ℕ
enodata = 61

abbrev pub eopnotsupp : ℕ
eopnotsupp = 95

abbrev pub ehostdown : ℕ
ehostdown = 112
