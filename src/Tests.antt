-- ===== src/Tests.antt =====
-- The theorems at concrete inputs, and runs of the functions.
mod Fs
mod Heap
mod Kernel
mod Main
mod Keyboard
mod Shell
mod ShellFiles
mod Str
mod Terminal
mod Vfs
