-- ===== src/Standard.antt =====
-- What the code uses of the C++ standard library: `std::stoi` and `std::atoi`, and `std::map`.
pub mod Ints
pub mod Decimal
pub mod Map
