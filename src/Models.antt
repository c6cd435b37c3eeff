-- ===== src/Models.antt =====
-- talos_panel/models.py: the enumerations and the rows of the database.
-- A UUID is a number and a timestamp counts microseconds. Columns that hold text which the panel
-- walks are `Text`; an audit action is one of the source's literals, and is a `String`.
-- The ORM's relationships are queries over the other tables, and have no field here.
pub mod Accounts
pub mod Servers
pub mod Tables
