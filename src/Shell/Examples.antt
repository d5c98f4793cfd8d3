-- ===== src/Shell/Examples.antt =====
-- Concrete runs of the line editor.
use witos.Base.{ℕ, ◌≡◌, refl, none, some, List, [], ◌∷◌, ◌++◌, codes, arith}
use witos.Shell.Line.{Key, printable, delete, left, home, handle_keys, cleared}
use witos.Shell.Editor.{Shows, edit, rev_onto}
use witos.Shell.Translate.{
  Translate, command_translate, translate_loop, translate_char, translate_end, take_quote,
  take_char, take_space,
}
use witos.Shell.Words.{AreWords}
use witos.Shell.Splitting.{command_translate-Splits}
use witos.Shell.Typing.{edits, handle_keys-Shows, handle_keys_overrun, typed_at_start}

-- a b Left x Home Delete
abbrev keys : List Key
keys = printable 97 ∷ printable 98 ∷ left ∷ printable 120 ∷ home ∷ delete ∷ []

keys_edit : (edits keys [] []).after ≡ 120 ∷ 98 ∷ []
unfolding edits edit rev_onto
keys_edit = refl

handle_keys-Shows_example :
    Shows (handle_keys keys cleared) (edits keys [] []).before (edits keys [] []).after
handle_keys-Shows_example = handle_keys-Shows keys cleared [] [] (refl, refl, tt, tt)

handle_keys_overrun_example : (handle_keys (typed_at_start 600 97) cleared).buf 550 ≡ 97
handle_keys_overrun_example = handle_keys_overrun 600 97 550 (omega arith)

-- load -f "a b"
abbrev load_line : List ℕ
load_line = codes "load -f " ++ b'"' ∷ codes "a b" ++ b'"' ∷ []

command_translate-Splits_example :
    (t : Translate) × (command_translate 100 load_line (λ a. 7) (λ k. 9) ≡ some t)
    × (t.argc ≡ 3)
    × AreWords t 0 (codes "load" ∷ codes "-f" ∷ codes "a b" ∷ [])
command_translate-Splits_example =
    command_translate-Splits 100 load_line (λ a. 7) (λ k. 9) (omega arith)

open_quote : command_translate 100 (b'"' ∷ codes "a b") (λ a. 7) (λ k. 9) ≡ none
unfolding command_translate translate_loop translate_char translate_end take_quote take_char
    take_space
open_quote = refl
