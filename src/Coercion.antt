-- ===== src/Coercion.antt =====
-- src/arg_coercion.rs: the arguments of a command line, mostly texts, are brought to the types that the
-- schema of the operation asks for. A map is the list of its entries, in the order in which it is
-- iterated. An error keeps its kind; its message and the path in it are left out. What the code calls
-- of serde_json and of Rust's parsers of numbers are parameters. The recursion on the schema is on fuel.
pub mod Values
pub mod Walk
pub mod Fuel
pub mod Conforms
pub mod Allowed
pub mod Scalars
pub mod Required
pub mod Sound
pub mod Keeps
pub mod Prepare
pub mod Prepared
mod Tests
