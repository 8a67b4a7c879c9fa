-- ===== src/Bridge/ChatInput/Typing.antt =====
-- The chat line over any messages of the window.
use libsamp.Common.{ℕ, Bool, ◌&&◌, ◌||◌, List, [], ◌∷◌, leb, ◌==◌, if-cases}
use libsamp.Bridge.Chat.{LocalTime}
use libsamp.Bridge.ChatInput.Submit.{Client, Session, Action}
use libsamp.Bridge.ChatInput.Keys.{
  Message, wm_char, wm_keyup, wm_keydown, on_char, on_keyup, on_keydown, on_message,
}
use libsamp.Bridge.ChatInput.Keeps.{
  IsInput, close-IsInput, open-IsInput, append_char-IsInput, backspace-IsInput, recall_up-IsInput,
  recall_down-IsInput,
}
use libsamp.Bridge.ChatInput.Session.{IsSafe, IsKept, submit-IsKept}

on_char-IsKept :
    (client : Client) (enabled : Bool) (now : LocalTime) (c : ℕ) (s : Session)
    → IsInput s.input
    → IsKept (on_char client enabled now c s)
unfolding on_char
on_char-IsKept client enabled now c s v =
    if-cases IsKept s.input.active _ _
      (λ on.
        if-cases IsKept (c == 13 || c == 10) _ _ (λ t. submit-IsKept client now s v)
          λ t.
            if-cases IsKept (c == 27) _ _ (λ u. (close-IsInput s.input v, tt))
              λ u.
                if-cases IsKept (c == 8) _ _ (λ w. (backspace-IsInput s.input v, tt))
                  λ w.
                    if-cases IsKept (leb 32 c && leb c 126) _ _
                      (λ x. (append_char-IsInput c s.input v, tt)) (λ x. (v, tt)))
      λ off.
        if-cases IsKept (c == 116 || c == 84 || c == 96) _ _
          (λ t. (open-IsInput enabled s.input v, tt)) (λ t. (v, tt))

on_keyup-IsKept :
    (client : Client) (enabled : Bool) (now : LocalTime) (key : ℕ) (s : Session)
    → IsInput s.input
    → IsKept (on_keyup client enabled now key s)
unfolding on_keyup
on_keyup-IsKept client enabled now key s v =
    if-cases IsKept (key == 0x75) _ _
      (λ t.
        if-cases IsKept s.input.active _ _ (λ on. (close-IsInput s.input v, tt))
          (λ off. (open-IsInput enabled s.input v, tt)))
      λ t.
        if-cases IsKept s.input.active _ _
          (λ on.
            if-cases IsKept (key == 0x1B) _ _ (λ u. (close-IsInput s.input v, tt))
              λ u.
                if-cases IsKept (key == 0x0D) _ _ (λ w. submit-IsKept client now s v)
                  (λ w. (v, tt)))
          (λ off. (v, tt))

on_keydown-IsKept : (key : ℕ) (s : Session) → IsInput s.input → IsKept (on_keydown key s)
unfolding on_keydown
on_keydown-IsKept key s v =
    if-cases IsKept s.input.active _ _
      (λ on.
        if-cases IsKept (key == 0x26) _ _ (λ t. (recall_up-IsInput s.input v, tt))
          λ t.
            if-cases IsKept (key == 0x28) _ _ (λ u. (recall_down-IsInput s.input v, tt))
              (λ u. (v, tt)))
      (λ off. (v, tt))

on_message-IsKept :
    (client : Client) (enabled : Bool) (now : LocalTime) (m : Message) (s : Session)
    → IsInput s.input
    → IsKept (on_message client enabled now m s)
unfolding on_message
on_message-IsKept client enabled now (wm_char c) s v = on_char-IsKept client enabled now c s v
on_message-IsKept client enabled now (wm_keyup key) s v = on_keyup-IsKept client enabled now key s v
on_message-IsKept client enabled now (wm_keydown key) s v = on_keydown-IsKept key s v

-- A message of the window, with what the world is like when it comes.
pub record Step : Type 0 where
  pub client : Client
  pub enabled : Bool
  pub now : LocalTime
  pub message : Message

-- The session after the messages, and what they led to.
unfoldable pub after_messages : List Step → Session → Session × List Action
after_messages [] s = (s, [])
after_messages (m ∷ steps) s =
    let r = on_message m.client m.enabled m.now m.message s in
    let rest = after_messages steps r.0 in (rest.0, r.1 ∷ rest.1)

abbrev pub AllSafe : List Action → Type 0
AllSafe [] = Unit
AllSafe (a ∷ actions) = IsSafe a × AllSafe actions

-- Whatever keys are pressed, in whatever order: the line stays within its 128 characters and its
-- length is right, the history index is -1 or that of a line, and no line with a password, that is
-- no /rcon line, is in the history or goes out as chat or as a command of the server.
pub after_messages-IsInput :
    (steps : List Step) (s : Session)
    → IsInput s.input
    → IsInput (after_messages steps s).0.input × AllSafe (after_messages steps s).1
unfolding after_messages
after_messages-IsInput [] s v = (v, tt)
after_messages-IsInput (m ∷ steps) s v =
    let r : Session × Action = on_message m.client m.enabled m.now m.message s in
    let kept : IsKept r = on_message-IsKept m.client m.enabled m.now m.message s v in
    let rest = after_messages-IsInput steps r.0 kept.0 in (rest.0, (kept.1, rest.1))
