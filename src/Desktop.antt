-- ===== src/Desktop.antt =====
-- The desktop's view state and what drives the tabs.
pub mod Sorting
pub mod Filter
pub mod FilterLaws
pub mod State
pub mod StateLaws
pub mod StateSteps
pub mod Messages
pub mod Theme
pub mod Locale
pub mod Editor
pub mod View
pub mod Handlers
pub mod Pump
pub mod PumpLaws
pub mod HandlerLaws
pub mod Form
pub mod FormLaws
pub mod Examples
pub mod Sessions
pub mod LocalSessions
pub mod Dialogs
pub mod DialogLaws
pub mod Controls
pub mod ControlLaws
pub mod CycleLaws
pub mod ControlExamples
pub mod Render
pub mod PaintLaws
pub mod RunLaws
pub mod RowLaws
pub mod Keyboard
pub mod KeyboardLaws
pub mod TerminalExamples
pub mod Saving
pub mod SavingLaws
pub mod AnswerLaws
pub mod SavingExamples
pub mod Commands
pub mod Preferences
pub mod StatusLaws
pub mod PreferenceLaws
pub mod CommandExamples
pub mod Presenter
pub mod SecretLaws
pub mod SecretExamples
pub mod TagRows
pub mod TagLaws
pub mod TagExamples
pub mod Identity
