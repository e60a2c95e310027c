-- ===== src/Tabs/Repaint.antt =====
-- Output reaches the screen: what a tab reports for it asks for a repaint.
use oxide_ssh.Prelude.{
  Bool, true, false, ◌||◌, List, [], ◌∷◌, any, any-append, Bool-cases, ◌≡◌, refl, ◌∙◌, inl, inr,
  arith, ℕ,
}
use oxide_ssh.Input.Keys.{Bytes}
use oxide_ssh.Session.Events.{SessionEvent}
use oxide_ssh.Session.Handle.{Channel}
use oxide_ssh.Terminal.Types.{TerminalAction, write_back, Emulator}
use oxide_ssh.Terminal.Model.{is_wakeup, with_wakeup}
use oxide_ssh.Terminal.Model as Terminal
use oxide_ssh.Tabs.Tab.{
  Tab, TabNotification, repaint, apply_actions, apply_event, process_output, send_bytes, error_note,
}

abbrev pub is_repaint : TabNotification → Bool
is_repaint repaint = true
is_repaint _ = false

or_true : (b : Bool) → (b || true) ≡ true
or_true b = ground arith

with_wakeup-any :
    (b : ℕ) (bs : Bytes) (actions : List TerminalAction)
    → any is_wakeup (with_wakeup (b ∷ bs) actions) ≡ true
unfolding with_wakeup
with_wakeup-any b bs actions = elim (Bool-cases (any is_wakeup actions)) [
  | inl there ↦ rw (there, there) refl
  | inr gone ↦ rw gone (any-append is_wakeup actions _ ∙ (rw gone refl))
]

module _ {T Q : Type 0} ⦃channel : Channel Q⦄ where
  wakeup_repaints :
      (t : Tab T Q) (actions : List TerminalAction)
      → any is_wakeup actions ≡ true
      → any is_repaint (apply_actions t actions).1 ≡ true
  unfolding apply_actions error_note
  wakeup_repaints t [] h = ground arith
  wakeup_repaints t (write_back bytes ∷ rest) h =
      rw
        (
          any-append is_repaint (error_note (send_bytes t bytes).1)
              (apply_actions (send_bytes t bytes).0 rest).1,
          wakeup_repaints (send_bytes t bytes).0 rest h,
        )
        (or_true _)
  wakeup_repaints t (TerminalAction.bell ∷ rest) h = wakeup_repaints t rest h
  wakeup_repaints t (TerminalAction.wakeup ∷ rest) h = refl

  module _ ⦃em : Emulator T⦄ where
    -- Output of at least one byte makes a tab ask for a repaint, whatever the emulator sends and
    -- whatever becomes of the answers that are written back.
    pub apply_event-repaint :
        (t : Tab T Q) (b : ℕ) (bs : Bytes)
        → any is_repaint (apply_event t (SessionEvent.output (b ∷ bs))).1 ≡ true
    unfolding apply_event process_output Terminal.process_output
    apply_event-repaint t b bs = wakeup_repaints _ _ (with_wakeup-any b bs _)
