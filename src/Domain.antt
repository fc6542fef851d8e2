-- ===== src/Domain.antt =====
-- The shared kernel of the program: domain/primitives.py and domain/arithmetic.py.
pub mod Primitives
pub mod Events
pub mod Arithmetic
