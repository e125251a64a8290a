-- ===== src/Database.antt =====
-- The Supabase client that every module of agent/ goes through, as an interface: a table keeps
-- rows, and the calls are those that the sources make (`.select().eq().limit(1)`, `.select().eq()`,
-- `.insert()`, `.update().eq()`, `.delete().eq()`). The client is not part of the repository, so the
-- table is a parameter: its state and its calls are abstract, and a call may raise (`none`). The
-- laws are the documented meaning of each call on the set of rows; they fix no order of rows.
-- `InMemory` is an implementation by lists, which shows that the laws can be met.
pub mod InMemory
pub mod Action
pub mod Laws
mod Defs
pub use Defs.*
