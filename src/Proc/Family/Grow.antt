-- ===== src/Proc/Family/Grow.antt =====
-- `growproc` of xv6/proc.c where the memory of a process shrinks to nothing.
use buffer_overflow_attack.Proc.{Proc}
