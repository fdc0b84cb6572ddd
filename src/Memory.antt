-- ===== src/Memory.antt =====
-- Memory behind pointers, slices and maps, and what it means that a copy is deep.
pub mod Agree
pub mod Deep
pub mod Pointers
pub mod Lists
