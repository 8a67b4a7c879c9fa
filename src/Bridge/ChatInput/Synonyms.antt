-- ===== src/Bridge/ChatInput/Synonyms.antt =====
-- The tests for /quit and /dl against the general match of a command.
use libsamp.Common.{
  ℕ, ◌≡◌, refl, sym, ap, ◌∙◌, arith, Bool, true, false, ◌&&◌, ◌||◌, Option, none, some, List, [],
  ◌∷◌, drop, ◌==◌, if◌then◌else◌, Bool-cases, inl, inr,
}
use libsamp.Bridge.Chat.{is_empty}
use libsamp.Bridge.ChatInput.Command.{
  chat_input_ascii_ieq_compat, skip_spaces, chat_input_only_spaces_compat, match_name, word_end,
  arguments_after, match_slash, chat_input_match_local_command_compat, ieq_at, is_quit,
  chat_input_is_local_quit_command_compat, is_dl, chat_input_is_local_dl_command_compat,
}

abbrev pub has_arguments : Option (List ℕ) → Bool
has_arguments none = false
has_arguments (some a) = true

word_end-has_arguments : (t : List ℕ) → word_end t ≡ has_arguments (arguments_after (some t))
word_end-has_arguments t = elim (Bool-cases (word_end t)) [ inl h ↦ rw h refl | inr h ↦ rw h refl ]

-- One letter of a name.
letter_yes :
    (c n : ℕ) (text name : List ℕ)
    → chat_input_ascii_ieq_compat c n ≡ true
    → match_name (c ∷ text) (n ∷ name) ≡ match_name text name
unfolding match_name
letter_yes c n text name h = rw (h, match_name) refl

letter_no :
    (c n : ℕ) (text name : List ℕ)
    → chat_input_ascii_ieq_compat c n ≡ false
    → match_name (c ∷ text) (n ∷ name) ≡ none
unfolding match_name
letter_no c n text name h = rw (h, match_name) refl

no_letter : (n : ℕ) (name : List ℕ) → match_name [] (n ∷ name) ≡ none
unfolding match_name
no_letter n name = refl

no_name : (text : List ℕ) → match_name text [] ≡ some text
unfolding match_name
no_name text = refl

-- The letters of a name one by one, with a test of what follows.
unfoldable letters : List ℕ → List ℕ → (List ℕ → Bool) → Bool
letters text [] test = test text
letters [] (n ∷ name) test = false
letters (c ∷ text) (n ∷ name) test = chat_input_ascii_ieq_compat c n && letters text name test

-- A test of the arguments, where the name matches.
abbrev pub on_arguments : (List ℕ → Bool) → Option (List ℕ) → Bool
on_arguments test none = false
on_arguments test (some a) = test a

letters-match_name :
    (text name : List ℕ) (test : List ℕ → Bool)
    → letters text name test ≡ on_arguments test (match_name text name)
unfolding letters
letters-match_name text [] test = sym (ap (on_arguments test) (no_name text))
letters-match_name [] (n ∷ name) test = sym (ap (on_arguments test) (no_letter n name))
letters-match_name (c ∷ text) (n ∷ name) test =
    elim (Bool-cases (chat_input_ascii_ieq_compat c n)) [
      | inl h ↦ rw h (
          letters-match_name text name test
          ∙ sym (ap (on_arguments test) (letter_yes c n text name h)))
      | inr h ↦ rw h (sym (ap (on_arguments test) (letter_no c n text name h)))
    ]

-- The NUL at the end of a text is no letter.
nul :
    (chat_input_ascii_ieq_compat 0 100 ≡ false)
    × (chat_input_ascii_ieq_compat 0 108 ≡ false)
    × (chat_input_ascii_ieq_compat 0 113 ≡ false)
    × (chat_input_ascii_ieq_compat 0 117 ≡ false)
    × (chat_input_ascii_ieq_compat 0 105 ≡ false)
    × (chat_input_ascii_ieq_compat 0 116 ≡ false)
unfolding chat_input_ascii_ieq_compat
nul = (refl, refl, refl, refl, refl, refl)

dl_letters :
    (text : List ℕ)
    → (ieq_at text 0 100 && ieq_at text 1 108 && word_end (drop 2 text))
      ≡ letters text (100 ∷ 108 ∷ []) word_end
unfolding letters
dl_letters [] = ground (arith, nul)
dl_letters (c ∷ []) = ground (arith, nul)
dl_letters (c ∷ (d ∷ text)) = ground (arith, nul)

quit_letters :
    (text : List ℕ)
    → (ieq_at text 0 113
        && ieq_at text 1 117
        && ieq_at text 2 105
        && ieq_at text 3 116
        && chat_input_only_spaces_compat (drop 4 text))
      ≡ letters text (113 ∷ 117 ∷ 105 ∷ 116 ∷ []) chat_input_only_spaces_compat
unfolding letters
quit_letters [] = ground (arith, nul)
quit_letters (c ∷ []) = ground (arith, nul)
quit_letters (c ∷ (d ∷ [])) = ground (arith, nul)
quit_letters (c ∷ (d ∷ (e ∷ []))) = ground (arith, nul)
quit_letters (c ∷ (d ∷ (e ∷ (f ∷ text)))) = ground (arith, nul)

q_letters :
    (text : List ℕ)
    → (ieq_at text 0 113 && chat_input_only_spaces_compat (drop 1 text))
      ≡ letters text (113 ∷ []) chat_input_only_spaces_compat
unfolding letters
q_letters [] = ground (arith, nul)
q_letters (c ∷ text) = ground (arith, nul)

only_spaces-bare :
    (t : List ℕ)
    → chat_input_only_spaces_compat t ≡ on_arguments is_empty (arguments_after (some t))
unfolding chat_input_only_spaces_compat word_end skip_spaces
only_spaces-bare [] = refl
only_spaces-bare (c ∷ text) = elim (Bool-cases (c == 32 || c == 9)) [
  | inl h ↦ rw h refl
  | inr h ↦ rw (h, skip_spaces) refl
]

dl_matched : (o : Option (List ℕ)) → on_arguments word_end o ≡ has_arguments (arguments_after o)
dl_matched none = refl
dl_matched (some t) = word_end-has_arguments t

bare_matched :
    (o : Option (List ℕ))
    → on_arguments chat_input_only_spaces_compat o ≡ on_arguments is_empty (arguments_after o)
bare_matched none = refl
bare_matched (some t) = only_spaces-bare t

abbrev pub dl_name : List ℕ
dl_name = 100 ∷ 108 ∷ []

abbrev pub q_name : List ℕ
q_name = 113 ∷ []

abbrev pub quit_name : List ℕ
quit_name = 113 ∷ 117 ∷ 105 ∷ 116 ∷ []

guard_dl :
    (b x y z : Bool) (o : Option (List ℕ))
    → (x && y && z) ≡ has_arguments o
    → (b && x && y && z) ≡ has_arguments (if b then o else none)
guard_dl true x y z o e = e
guard_dl false x y z o e = refl

guard_quit :
    (b x y : Bool) (o p : Option (List ℕ))
    → x ≡ on_arguments is_empty o
    → y ≡ on_arguments is_empty p
    → (b && (x || y)) ≡ (
        on_arguments is_empty (if b then o else none)
        || on_arguments is_empty (if b then p else none))
guard_quit true x y o p e f = rw (e, f) refl
guard_quit false x y o p e f = refl

is_dl-match_slash : (t : List ℕ) → is_dl t ≡ has_arguments (match_slash t dl_name)
unfolding is_dl match_slash
is_dl-match_slash [] = refl
is_dl-match_slash (c ∷ text) =
    let e =
      dl_letters text
      ∙ letters-match_name text dl_name word_end
      ∙ dl_matched (match_name text dl_name) in
    guard_dl (c == 47) _ _ _ (arguments_after (match_name text dl_name)) e

is_quit-match_slash :
    (t : List ℕ)
    → is_quit t ≡ (
        on_arguments is_empty (match_slash t q_name)
        || on_arguments is_empty (match_slash t quit_name))
unfolding is_quit match_slash
is_quit-match_slash [] = refl
is_quit-match_slash (c ∷ text) =
    let e =
      q_letters text
      ∙ letters-match_name text q_name chat_input_only_spaces_compat
      ∙ bare_matched (match_name text q_name) in
    let f =
      quit_letters text
      ∙ letters-match_name text quit_name chat_input_only_spaces_compat
      ∙ bare_matched (match_name text quit_name) in
    guard_quit (c == 47) _ _ (arguments_after (match_name text q_name))
      (arguments_after (match_name text quit_name)) e f

-- The tests for the two commands that are matched by hand agree with the general match: /dl with
-- any arguments, and /q or /quit without any.
pub local_commands-match :
    (line : List ℕ)
    → (chat_input_is_local_dl_command_compat line
        ≡ has_arguments (chat_input_match_local_command_compat line dl_name))
      × (chat_input_is_local_quit_command_compat line ≡ (
          on_arguments is_empty (chat_input_match_local_command_compat line q_name)
          || on_arguments is_empty (chat_input_match_local_command_compat line quit_name)))
unfolding chat_input_is_local_dl_command_compat chat_input_is_local_quit_command_compat
    chat_input_match_local_command_compat
local_commands-match line =
    (is_dl-match_slash (skip_spaces line), is_quit-match_slash (skip_spaces line))
