-- ===== src/Table.antt =====
-- The statements that the repositories send to the database, over a table as the list of its rows.
-- The rows are in no order that the program relies on, but where a query sorts them.
mod Rows
mod Keys
mod Returning
pub use Keys.*
pub use Returning.*
unfoldable pub use Returning.{claim_row}
unfoldable pub use Rows.{select, update_where, upsert, insert}
pub use Rows.{
  select_sound, select-update_where, select-insert_new, select_narrower, select-insert_old,
  select-All, update_where-none, select-update_where_claimed, All-update_where, All-snoc,
}
