-- ===== src/Bridge/ChatInput/Session.antt =====
-- The chat line, its history and the counts, over any messages of the window.
use libsamp.Common.{
  ℕ, ◌≤◌, ◌≡◌, refl, sym, subst, arith, Bool, false, Option, none, some, List, [], ◌∷◌, length,
  get_or, ltb, ◌==◌, if◌then◌else◌, if-cases, length-take,
}
use libsamp.Bridge.Chat.{LocalTime, is_empty}
use libsamp.Bridge.ChatInput.{
  Input, input_max, chat_input_close_compat, chat_input_add_history_compat,
}
use libsamp.Bridge.ChatInput.Command.{
  chat_input_is_local_quit_command_compat, chat_input_is_local_dl_command_compat,
  chat_input_match_local_command_compat,
}
use libsamp.Bridge.ChatInput.Submit.{
  Client, Session, Action, nothing, server_command, chat_line, quit, toggle_labels, rcon_name,
  local_commands, first_command, server_action, submit_rcon, submit_action, submitted_line,
  local_action, chat_input_submit_compat,
}
use libsamp.Bridge.ChatInput.History.{add_history-IsInput}
use libsamp.Bridge.ChatInput.Keeps.{IsInput, close-IsInput}

submitted-fits : (input : Input) → length (submitted_line input) ≤ input_max
unfolding submitted_line
submitted-fits input =
    let n : ℕ = if ltb input_max input.len then input_max else input.len in
    ground (arith, length-take n input.buffer)

submit_action-input :
    (client : Client) (now : LocalTime) (a : Action) (s : Session)
    → (submit_action client now a s).input ≡ s.input
unfolding submit_action
submit_action-input client now nothing s = refl
submit_action-input client now (server_command line) s =
    if-cases (λ (r : Session). r.input ≡ s.input) (client.send_server_command line) _ _ (λ t. refl)
      (λ t. refl)
submit_action-input client now (chat_line line) s =
    if-cases (λ (r : Session). r.input ≡ s.input) (client.send_chat line) _ _ (λ t. refl)
      (λ t. refl)
submit_action-input client now action s = refl

submit_rcon-input :
    (client : Client) (now : LocalTime) (arguments : List ℕ) (s : Session)
    → (submit_rcon client now arguments s).0.input ≡ s.input
unfolding submit_rcon
submit_rcon-input client now arguments s =
    if-cases (λ (r : Session × Action). r.0.input ≡ s.input) client.connected _ _
      (λ t.
        if-cases (λ (r : Session). r.input ≡ s.input) (client.send_rcon_command arguments) _ _
          (λ u. refl) (λ u. refl))
      (λ t. refl)

closed_index : (s : Input) → (chat_input_close_compat s).history_index ≡ none
unfolding chat_input_close_compat
closed_index s = refl

-- What goes to the server as chat or as a server's command is no /rcon line.
abbrev pub IsSafe : Action → Type 0
IsSafe (server_command line) = chat_input_match_local_command_compat line rcon_name ≡ none
IsSafe (chat_line line) = chat_input_match_local_command_compat line rcon_name ≡ none
IsSafe action = Unit

-- The handlers of a table of commands.
abbrev AreSafe : List (List ℕ × (List ℕ → Action)) → Type 0
AreSafe [] = Unit
AreSafe ((command, action) ∷ commands) =
    ((arguments : List ℕ) → IsSafe (action arguments)) × AreSafe commands

first_command-IsSafe :
    (line : List ℕ) (commands : List (List ℕ × (List ℕ → Action))) (rest : Action)
    → AreSafe commands
    → IsSafe rest
    → IsSafe (first_command line commands rest)
unfolding first_command
first_command-IsSafe line [] rest all r = r
first_command-IsSafe line ((command, action) ∷ commands) rest (one, all) r =
    elim (chat_input_match_local_command_compat line command)
      as (λ o.
        IsSafe (elim o [
          | none ↦ first_command line commands rest
          | some arguments ↦ action arguments
        ])) [
          | none ↦ first_command-IsSafe line commands rest all r
          | some arguments ↦ one arguments
        ]

local_action-IsSafe :
    (connected : Bool) (line : List ℕ)
    → chat_input_match_local_command_compat line rcon_name ≡ none
    → IsSafe (local_action connected line)
unfolding local_action server_action
local_action-IsSafe connected line e =
    if-cases IsSafe (chat_input_is_local_quit_command_compat line) (quit line) _ (λ t. tt)
      λ t.
        if-cases IsSafe (chat_input_is_local_dl_command_compat line) (toggle_labels line) _
          (λ u. tt)
          λ u.
            first_command-IsSafe line local_commands (server_action connected line)
              (
                (λ a. tt),
                (
                  (λ a. tt),
                  (
                    (λ a. tt),
                    (
                      (λ a. tt),
                      (
                        (λ a. tt),
                        (
                          (λ a. tt),
                          (
                            (λ a. tt),
                            (
                              (λ a. tt),
                              ((λ a. tt), ((λ a. tt), ((λ a. tt), ((λ a. tt), ((λ a. tt), (tt)))))),
                            ),
                          ),
                        ),
                      ),
                    ),
                  ),
                ),
              )
              (if-cases IsSafe connected _ _
                (λ c. if-cases IsSafe (get_or line 0 0 == 47) _ _ (λ d. e) (λ d. e)) (λ c. tt))

submit_rcon-IsSafe :
    (client : Client) (now : LocalTime) (arguments : List ℕ) (s : Session)
    → IsSafe (submit_rcon client now arguments s).1
unfolding submit_rcon
submit_rcon-IsSafe client now arguments s =
    if-cases (λ (r : Session × Action). IsSafe r.1) client.connected _ _ (λ t. tt) (λ t. tt)

-- The line keeps its invariant, and what goes out is safe.
abbrev pub IsKept : Session × Action → Type 0
IsKept r = IsInput r.0.input × IsSafe r.1

-- The session after a line that is not empty, by what the test for /rcon answers.
submit_cases :
    (client : Client) (now : LocalTime) (s : Session) (o : Option (List ℕ))
    → chat_input_match_local_command_compat (submitted_line s.input) rcon_name ≡ o
    → is_empty (submitted_line s.input) ≡ false
    → IsInput s.input
    → (let line = submitted_line s.input in
        let closed = record s { input = chat_input_close_compat s.input } in
        let r : Session × Action = elim o [
          | some arguments ↦ submit_rcon client now arguments closed
          | none ↦ (
            submit_action client now
                (local_action client.connected line)
                (record closed { input = chat_input_add_history_compat line closed.input }),
            local_action client.connected line,
          )
        ] in
        IsKept r)
submit_cases client now s (some arguments) e w v =
    let closed : Session = record s { input = chat_input_close_compat s.input } in
    (
      subst IsInput (sym (submit_rcon-input client now arguments closed)) (close-IsInput s.input v),
      submit_rcon-IsSafe client now arguments closed,
    )
submit_cases client now s none e w v =
    let line : List ℕ = submitted_line s.input in
    let added : Input = chat_input_add_history_compat line (chat_input_close_compat s.input) in
    (
      subst IsInput
          (sym (
            submit_action-input client now (local_action client.connected line)
              (record s { input = added })))
          (add_history-IsInput line (chat_input_close_compat s.input) (closed_index s.input)
            (record { written = w; fits = submitted-fits s.input; harmless = e })
            (close-IsInput s.input v)),
      local_action-IsSafe client.connected line e,
    )

pub submit-IsKept :
    (client : Client) (now : LocalTime) (s : Session)
    → IsInput s.input
    → IsKept (chat_input_submit_compat client now s)
unfolding chat_input_submit_compat
submit-IsKept client now s v =
    if-cases IsKept (is_empty (submitted_line s.input)) _ _ (λ t. (close-IsInput s.input v, tt))
      (λ t.
        submit_cases client now s
          (chat_input_match_local_command_compat (submitted_line s.input) rcon_name) refl t v)
