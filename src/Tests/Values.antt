-- ===== src/Tests/Values.antt =====
-- Libraries/pbxsetting: values at concrete inputs.
use xcbuild.Prelude.{◌≡◌, refl, [], ◌++◌}
use xcbuild.Prelude.Text.{Bytes, codes}
use xcbuild.Settings.Value.{Value, nil, string, reference, raw, join, found, parse}
use xcbuild.Settings.Value.Parsing.{parse_total, raw-join}
use xcbuild.Settings.Value.Search.{IsCanonical}
use xcbuild.Settings.Value.RoundTrip.{parse-raw}

-- `a$(b$(C))`
abbrev nested : Value
nested =
    string (codes "a") (reference (string (codes "b") (reference (string (codes "C") nil) nil)) nil)

parse_forms :
    parse (codes "a$(b$C)${d")
    ≡ found [] (
        string (codes "a") (
          reference
            (string (codes "b") (reference (string (codes "C") nil) nil))
            (string (codes "${d") nil)))
unfolding parse
parse_forms = refl

parse_total_example : (rest : Bytes) × (v : Value) × (parse (codes "$(a") ≡ found rest v)
parse_total_example = parse_total (codes "$(a")

raw-join_example : raw (join nested nested) ≡ raw nested ++ raw nested
raw-join_example = raw-join nested nested

nested-IsCanonical : IsCanonical nested
nested-IsCanonical =
    ((λ e. cc), (refl, tt), (((λ e. cc), (refl, tt), (((λ e. cc), (refl, tt)), tt)), tt))

parse-raw_example : parse (raw nested) ≡ found [] nested
parse-raw_example = parse-raw nested nested-IsCanonical
