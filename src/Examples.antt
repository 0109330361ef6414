-- ===== src/Examples.antt =====
-- Concrete elements and objects, tests of the model on them, and each theorem at such an input.
mod Sample
mod Decoding
mod Coding
mod Ranges
mod Rendering
mod Shaping
mod Operating
mod Searching
mod Converting
mod Counting
mod Processing
