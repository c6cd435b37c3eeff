-- ===== src/Lib.antt =====
-- Talos Panel: a web panel that runs Minecraft servers in Docker containers. This library models the
-- core logic of the Python package talos_panel and proves what makes it correct.
--
-- Parts and files:
-- Base, Http, Handler    shared tests and lists, text as code points, exceptions as values, and
--                        handlers as functions from a state to a result and a state.
-- Models                 talos_panel/models.py: the rows, and the tables as lists of rows.
-- Platform               the libraries that handlers call: hashing, TOTP, JSON, Unicode tables.
-- Auth.Session           talos_panel/auth.py create_session, load_identity.
-- Auth.Requests          talos_panel/auth.py require_csrf, require_same_origin, require_user,
--                        require_admin, AuthenticationMiddleware.
-- Auth.Recovery          talos_panel/auth.py recovery codes.
-- Auth.Audit             talos_panel/auth.py record_audit.
-- Auth.Passwords, Login  talos_panel/auth_web.py login, setup_admin, logout and what they call.
-- Users                  talos_panel/auth_web.py user administration; Users.Account the own account.
-- Permissions            talos_panel/permissions.py.
-- Runtime                talos_panel/runtime.py: Docker the client's calls, Containers and Commands the
--                        methods of DockerRuntime, Console the console text, Interface what other
--                        parts call of it.
-- Operations             talos_panel/operations_service.py: Recovery _sample_and_recover, Backups
--                        _scheduled_backup, Pass run_once.
-- Runtime.JvmFlags       talos_panel/jvm_flags.py.
-- Install                talos_panel/installer.py, talos_panel/install_service.py and install_server of
--                        talos_panel/api.py.
-- Api                    talos_panel/api.py: start, stop, restart and status of a server.
-- Security               talos_panel/security_service.py.
-- ServerProperties       talos_panel/server_settings.py.
-- Runtime.LifeCycle      the abstract server that the runtime refines: absent, halted or alive.
-- Web                    talos_panel/web.py: Site what the pages share, Lifecycle, Removal, Backups,
--                        Updates, Players, Settings, Creation and Files the pages of those names,
--                        Pages the shape that they have in common.
-- Files                  talos_panel/file_service.py and what it calls: Paths the resolution of paths,
--                        Operations the changes of items.
-- Status                 talos_panel/minecraft_status.py: Varint the numbers, Packet the answer.
-- Tests                  the theorems at concrete inputs.
--
-- How they interact: a request passes the gate of Auth.Requests, which loads the identity by
-- Auth.Session; a handler then checks the request and changes the tables. The maintenance passes call
-- the runtime by the interface of Runtime.Interface, and the backups by the record BackupStore.
--
-- Correspondence: a table is a list of rows in the order of insertion; a handler's commit is the
-- database that it returns, and a handler that raises returns the database as it was left. Times are
-- microseconds and UUIDs are numbers. An HTTPException is Failure.http with its status and detail, any
-- other exception is Failure.crash with its class. Random values are arguments.
--
-- Fuel: strip_escapes takes the length of the text as fuel; every step uses at least one character.
-- The numbers of the status protocol are read in five steps, the `range(5)` of the source.
--
-- Parameters: Argon2, SHA-256, JSON, TOTP, shlex, the Unicode tables and the Docker client are
-- arguments, whose laws are documented behaviour of these libraries.
--
-- Interfaces: Docker the daemon, DataStore the directories and the backup archives of servers, FileOps
-- the system calls on files, WebEnv what the pages call of other libraries.
--
-- Not modelled: the templates and the pages that only read, translation tables, migrations, asyncio
-- scheduling, reading and streaming logs, the console socket, uploads, archive extraction, listings and
-- downloads, the contents of backup archives, player profiles, avatars and the JSON fields of the
-- status answer.
pub mod Base
pub mod Http
pub mod Models
pub mod Handler
pub mod Platform
pub mod Auth
pub mod Users
pub mod Permissions
pub mod Runtime
pub mod Operations
pub mod Install
pub mod Security
pub mod ServerProperties
pub mod Api
mod Tests
pub mod Web
pub mod Status
pub mod Files
