-- ===== src/Tests.antt =====
-- The theorems at concrete inputs, and tests of the definitions.
mod StrTests
mod OverflowTests
mod KernelTests
mod PipeTests
mod SyscallTests
mod TextTests
mod LockTests
mod LogTests
mod FsTests
mod IoTests
mod VmTests
mod ShTests
mod PathTests
mod FamilyTests
mod TrapTests
