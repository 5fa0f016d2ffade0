-- ===== src/Storage.antt =====
-- storage/store.py: the SQLite store, as far as the engines use it.
pub mod Actions
pub mod Listing
pub mod Pages
pub mod Sorting
pub mod Cursors
pub mod Rows
pub mod Findings
pub mod Open
pub mod Closing
pub mod Latest
pub mod Lookup
pub mod Events
