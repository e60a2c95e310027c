-- ===== src/Lib.antt =====
-- OxideSSH: the part of the SSH client that decides, modelled from its Rust sources.
--
-- A window holds a collection of tabs. A tab is a terminal model, a session (remote or local) and
-- what it shows of the session's state; a queue of modal dialogs, shared by the tabs, asks for host
-- keys, secrets and confirmations. Keys and pasted text go through the input encoder to the
-- session's input queue; events of the session come back through the collection, which first
-- queues or clears dialogs and then hands the event to the tab; output goes to the terminal model,
-- whose actions are answers to write back, bells and repaints. Profiles, tags and settings stand in
-- one stored file, the keys of known hosts in another.
--
-- Prelude         Boolean tests, lists over the native numbers, `Result` with do blocks
-- Model           crates/oxide-ssh-core/src/model.rs: Types has identifiers, profiles, tags and
--                 settings, Validate the validate methods; Text is what they use of Rust's strings
-- Storage         crates/oxide-ssh-core/src/storage.rs: Config is validate_config and the
--                 canonical endpoint, Files reads and writes one file, Store is AppStore
-- Session         crates/oxide-ssh-core/src/session.rs and local.rs: events, errors, and the handle
--                 of a session (SessionHandle, LocalSessionHandle); Authenticate is authenticate,
--                 Connection is run_session and the task of SshService::connect
-- Input           crates/oxide-ssh-terminal/src/input.rs: Keys is InputEncoder::encode, Paste is
--                 InputEncoder::paste; KeyLaws and PasteLaws prove, Examples tests
-- Terminal        crates/oxide-ssh-terminal/src/model.rs: sizes, colours, xterm_color,
--                 TerminalModel::process_output, resize and colours; Cells is the style of a cell,
--                 Selection what is selected
-- Tabs            crates/oxide-ssh-app/src/tabs.rs: Modals is ModalQueue, Tab is Tab, Collection is
--                 TabCollection; Steps is the relation of all calls on a collection
-- Trust           crates/oxide-ssh-core/src/session.rs: Coordinator and Decide are
--                 HostTrustCoordinator with PendingTrustGuard, Verify its verify; Steps is
--                 the relation of what interleaved sessions and dialogs do
-- Credentials     crates/oxide-ssh-core/src/credentials.rs and
--                 crates/oxide-ssh-desktop/src/credentials.rs: Keyring is SystemCredentialStore, Steps
--                 and Coordinator are ProfileCredentialCoordinator
-- Desktop         crates/oxide-ssh-desktop/src/state/mod.rs: Filter is TagFilter and the list of
--                 profiles, State is AppState, StateSteps the relation of its calls; Form is
--                 state/connection_form.rs, Theme state/theme.rs, Locale i18n/mod.rs, Messages
--                 app/messages.rs; View is what AppView keeps, Pump and Handlers are the event pump of
--                 app/session.rs and its two handlers, Sessions and LocalSessions start sessions there,
--                 Dialogs has the answers of dialogs (also app/dialog.rs), Identity and Presenter
--                 the dialog that is asked for and shown, Controls the commands of app/mod.rs and
--                 the answer to a confirmation, Editor what app/editor.rs and app/tags.rs keep,
--                 Saving the calls of app/editor.rs and TagRows those of app/tags.rs; Commands and
--                 Preferences are the menus, the banner and the settings of app/mod.rs; Render is
--                 what prepaint of app/terminal.rs makes of the cells, Keyboard its keys and
--                 composed text; Sorting is Rust's sort_by
--
-- Correspondence. A method that mutates `self` becomes a function that returns the new value,
-- beside the method's result. A panic is `none`. An identifier is the number of its UUID, and a
-- fresh one is an argument. A text or a byte string is a list of numbers. Names are the source's;
-- where two types have a method of one name the module tells them apart. Getters are the fields.
--
-- Parameters. The terminal emulator (alacritty_terminal: Term and its Processor) is the record
-- Emulator over a type T, with no laws; the sending end of a session's input channel
-- (async-channel) is the record Channel over a type Q. The format of the stored files (serde_json)
-- is the record Codec, and of it the theorems on reads after writes ask IsFaithful: what it writes
-- it reads back. The texts of addresses and UUIDs and the lower case of a text are the record Texts,
-- with no laws. What the system lets pass in a call on a file is the argument Io.
-- What russh and a server answer is the record Server and the lists of turns of the two loops of
-- run_session, which say what becomes ready and in what order; a list that ends early is a
-- session that still runs. The keyring crate is the record Keyring, with ReadsBack for what it
-- documents; the trait CredentialStore is a record of its operations, with IsCredentialStore for
-- the contract that the transactions on profiles rely on. That a failed call changes nothing is part
-- of it: it is assumed, and more than the crate documents.
--
-- Fuel. The loop of InputEncoder::paste runs on fuel that starts at one more than the length of
-- the text; each round advances the index, so the fuel is enough, which is part of what is
-- proved. The event pump runs on one round for each thing that its queue holds, and one more for
-- the end; each round takes at least one.
--
-- Not modelled: the network and pseudo-terminal I/O behind a session, the desktop's widgets and
-- translated texts, and what the view measures in pixels, which is floating point: the cell under
-- the mouse is an argument.
pub mod Credentials
pub mod Desktop
pub mod Input
pub mod Model
pub mod Prelude
pub mod Session
pub mod Storage
pub mod Tabs
pub mod Terminal
pub mod Trust
