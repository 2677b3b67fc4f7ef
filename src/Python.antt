-- ===== src/Python.antt =====
-- The parts of Python's language and standard library that the scripts use: exceptions, bytes and
-- `struct`, text, UTF-8, integers in text, and dictionaries.
pub mod Division
pub mod Result
pub mod Struct
pub mod Hex
pub mod Text
pub mod Utf8
pub mod Numbers
pub mod Dict
pub mod Sorting
