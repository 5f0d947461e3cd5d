-- ===== src/Api/Mysql.antt =====
-- MySQLStore of services/api/internal/store/mysql.go. A table is the list of its rows in the order of
-- their ids, and each statement is what its SQL text says of those lists. The database itself is a
-- parameter: whether a statement fails, what its clock says, and where its numbering stands. A
-- statement that fails changes nothing, and a transaction that is not committed is undone.
pub mod Tables
pub mod Sessions
pub mod Jobs
pub mod Users
pub mod Refinement
pub mod Sweep
pub mod Updates
pub mod SignIn
pub mod Tokens
mod Examples
