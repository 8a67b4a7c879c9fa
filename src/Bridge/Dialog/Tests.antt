-- ===== src/Bridge/Dialog/Tests.antt =====
-- The dialogs on concrete events.
use libsamp.Common.{refl, arith, true, false, none, List, [], ◌∷◌}
use libsamp.Bridge.ChatInput.{Input}
use libsamp.Bridge.Dialog.{Dialog, Snapshot, response_of}
use libsamp.Bridge.Dialog.Selection.{IsDialog}
use libsamp.Bridge.Dialog.Answer.{
  IsAnswer, Event, update, keydown, char, button, select, after_events, after_events-IsDialog,
}

abbrev no_dialog : Dialog
no_dialog = record {
  active = false;
  id = 0;
  style = 0;
  selected = none;
  scroll = 0;
  input_len = 0;
  input = [];
  response_count = 0;
  title = [];
  info = [];
  button1 = [];
  button2 = [];
}

abbrev closed_line : Input
closed_line = record {
  active = false;
  buffer = [];
  len = 0;
  history = [];
  history_count = 0;
  history_index = none;
  recall_saved = [];
}

no_dialog-IsDialog : IsDialog no_dialog
no_dialog-IsDialog = record { choice = λ on. absurd cc; size = refl; bound = omega arith }

-- A list with a header: "h", "a" and "b".
abbrev list_dialog : Snapshot
list_dialog = record {
  dialog_flag = true;
  last_dialog_id = 5;
  last_dialog_style = 5;
  dialog_title = [];
  dialog_info = 104 ∷ 10 ∷ 97 ∷ 13 ∷ 10 ∷ 98 ∷ [];
  dialog_button1 = [];
  dialog_button2 = [];
}

abbrev happened : List Event
happened =
    update list_dialog
    ∷ keydown (λ r. false) 0x28
    ∷ keydown (λ r. false) 0x22
    ∷ char (λ r. false) 120
    ∷ select 0
    ∷ keydown (λ r. false) 0x0D
    ∷ button (λ r. false) 1
    ∷ []

after_events-IsDialog_example :
    (let d = (after_events happened (no_dialog, closed_line)).0 in
      IsDialog d × IsAnswer d (response_of 1 d))
after_events-IsDialog_example =
    after_events-IsDialog happened (no_dialog, closed_line) no_dialog-IsDialog
