-- ===== src/Syntax/RoundTrip.antt =====
-- packages/core/src: the parser on what the generator writes.
pub mod Enough
pub mod Steps
pub mod Form
pub mod Printable
pub mod Infix
pub mod Operands
pub mod Nodes
pub mod Calls
pub mod Operators
pub mod Fields
pub mod Tables
pub mod Follow
pub mod Functions
pub mod Atoms
pub mod Loops
pub mod For
pub mod Generic
pub mod Locals
pub mod Declared
pub mod Plain
pub mod Assign
pub mod Branches
pub mod Sequence
pub mod Bases
pub mod Whole
pub mod Bare
