-- ===== src/Settings/Lists/RoundTrip.antt =====
-- `ParseList` reads back what `FormatList` writes.
use xcbuild.Prelude.{
  ℕ, false, ◌≡◌, ◌≢◌, refl, ap, ◌∙◌, inl, inr, List, [], ◌∷◌, ◌++◌, arith, Bool-cases, Every,
  append_assoc, append-nil,
}
use xcbuild.Prelude.Text.{Bytes}
use xcbuild.Settings.Lists.{
  ListState, step, parse_from, parse_list, is_escaped, format_entry, format_more, format_list,
}

-- The state between two bytes of an entry.
abbrev reading : List Bytes → Bytes → ListState
reading entries str = record { entries = entries; str = str; quote = 0; escaped = false }

step-plain :
    (entries : List Bytes) (str : Bytes) (c : ℕ)
    → is_escaped c ≡ false
    → step (reading entries str) c ≡ reading entries (str ++ c ∷ [])
unfolding step
step-plain entries str c h = ground arith

step-escaped :
    (entries : List Bytes) (str : Bytes) (c : ℕ)
    → step (step (reading entries str) b'\\') c ≡ reading entries (str ++ c ∷ [])
unfolding step
step-escaped entries str c = refl

parse_from-format_entry :
    (entry : Bytes) (entries : List Bytes) (str rest : Bytes)
    → parse_from (reading entries str) (format_entry entry ++ rest)
      ≡ parse_from (reading entries (str ++ entry)) rest
unfolding parse_from format_entry
parse_from-format_entry [] entries str rest = rw append-nil
parse_from-format_entry (c ∷ entry) entries str rest = elim (Bool-cases (is_escaped c)) [
  | inl h ↦
      rw (h, parse_from, step-escaped entries str c)
        (parse_from-format_entry entry entries (str ++ c ∷ []) rest
          ∙ ap (λ t. parse_from (reading entries t) rest) (append_assoc str (c ∷ []) entry))
  | inr h ↦
      rw (h, parse_from, step-plain entries str c h)
        (parse_from-format_entry entry entries (str ++ c ∷ []) rest
          ∙ ap (λ t. parse_from (reading entries t) rest) (append_assoc str (c ∷ []) entry))
]

-- An unquoted space ends an entry that is not empty.
step-space :
    (entries : List Bytes) (x : ℕ) (str : Bytes)
    → step (reading entries (x ∷ str)) b' ' ≡ reading (entries ++ (x ∷ str) ∷ []) []
unfolding step
step-space entries x str = refl

parse_from-format_more :
    (value : List Bytes) (entries : List Bytes) (x : ℕ) (str : Bytes)
    → Every (λ e. e ≢ []) value
    → parse_from (reading entries (x ∷ str)) (format_more value) ≡ entries ++ (x ∷ str) ∷ value
unfolding format_more parse_from
parse_from-format_more [] entries x str h = refl
parse_from-format_more ([] ∷ value) entries x str h = absurd (h.0 refl)
parse_from-format_more ((y ∷ e) ∷ value) entries x str h =
    ap (λ s. parse_from s (format_entry (y ∷ e) ++ format_more value)) (step-space entries x str)
    ∙ parse_from-format_entry (y ∷ e) (entries ++ (x ∷ str) ∷ []) [] (format_more value)
    ∙ parse_from-format_more value (entries ++ (x ∷ str) ∷ []) y e h.1
    ∙ append_assoc entries ((x ∷ str) ∷ []) ((y ∷ e) ∷ value)

-- Entries that are not empty come back as they were, whatever bytes they hold.
pub parse_list-format_list :
    (value : List Bytes) → Every (λ e. e ≢ []) value → parse_list (format_list value) ≡ value
unfolding parse_list format_list parse_from
parse_list-format_list [] h = refl
parse_list-format_list ([] ∷ value) h = absurd (h.0 refl)
parse_list-format_list ((x ∷ entry) ∷ value) h =
    parse_from-format_entry (x ∷ entry) [] [] (format_more value)
    ∙ parse_from-format_more value [] x entry h.1
