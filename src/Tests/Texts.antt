-- ===== src/Tests/Texts.antt =====
-- Escapes, wildcards, lists and operations at concrete inputs.
use xcbuild.Prelude.{true, false, ◌≡◌, ◌≢◌, refl, none, List, [], ◌∷◌, ◌++◌, Every}
use xcbuild.Prelude.Text.{Bytes, codes, split_last, back_is}
use xcbuild.Escape.{shell, makefile}
use xcbuild.Escape.Shell.{word_of}
use xcbuild.Wildcard.{match}
use xcbuild.Wildcard.Laws.{starts_with, match_prefix}
use xcbuild.Settings.Lists.{parse_list, format_list}
use xcbuild.Settings.Lists.RoundTrip.{parse_list-format_list}
use xcbuild.Settings.Operations.{process_operation}

-- The empty text is written as nothing, which a shell reads as no word.
word_of-shell_empty : word_of (shell []) ≡ none
unfolding shell
word_of-shell_empty = refl

makefile_text : makefile (codes "a b:c") ≡ codes "a\\ b\\:c"
unfolding makefile
makefile_text = refl

match_set : match (codes "b[aei]*n") (codes "bitten") ≡ true
unfolding match
match_set = refl

-- A star stops at the first byte that fits, so this text is not found.
match_no_backtracking : match (codes "*ab") (codes "aab") ≡ false
unfolding match
match_no_backtracking = refl

match_prefix_example :
    match (codes "mac" ++ b'*' ∷ []) (codes "macosx") ≡ starts_with (codes "mac") (codes "macosx")
match_prefix_example = match_prefix (codes "mac") (codes "macosx") (refl, (refl, (refl, tt)))

parse_list_quotes : parse_list (codes "a 'b c' d\\ e") ≡ codes "a" ∷ codes "b c" ∷ codes "d e" ∷ []
unfolding parse_list
parse_list_quotes = refl

abbrev entries : List Bytes
entries = codes "a b" ∷ codes "c'd" ∷ []

entries-Every : Every (λ e. e ≢ []) entries
entries-Every = ((λ e. cc), ((λ e. cc), tt))

parse_list-format_list_example : parse_list (format_list entries) ≡ entries
parse_list-format_list_example = parse_list-format_list entries entries-Every

-- The examples of Libraries/pbxsetting/Tests/test_Environment.cpp.
abbrev complex : Bytes
complex = codes "-_'hello%."

process_operation_identifier : process_operation complex (codes "identifier") ≡ codes "___hello__"
unfolding process_operation
process_operation_identifier = refl

process_operation_rfc1034 :
    process_operation complex (codes "rfc1034identifier") ≡ codes "---hello--"
unfolding process_operation
process_operation_rfc1034 = refl

process_operation_dir :
    process_operation (codes "/path/to/../file.ext") (codes "dir") ≡ codes "/path/to/.."
unfolding process_operation split_last back_is
process_operation_dir = refl
