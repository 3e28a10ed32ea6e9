-- ===== src/Tests/Dependencies.antt =====
-- Dependency information at concrete inputs.
use xcbuild.Prelude.{List, Every, ◌≡◌, refl, none, some, [], ◌∷◌, ◌++◌}
use xcbuild.Prelude.Text.{Bytes, codes, drop_back}
use xcbuild.Dependency.{BinaryDependencyInfo, serialize, deserialize}
use xcbuild.Dependency.RoundTrip.{HasStrings, deserialize-serialize}
use xcbuild.Dependency.Refusals.{deserialize-deserialize, deserialize_unterminated}
use xcbuild.Dependency.Makefile.{DependencyInfo, write_rules, read_rules}
use xcbuild.Dependency.Makefile.Names.{IsKept}
use xcbuild.Dependency.Makefile.Rules.{IsRule, read_rules-write_rules, read_rules-write_outputs}

abbrev sample : BinaryDependencyInfo
sample = record {
  version = codes "ld";
  inputs = codes "a.o" ∷ codes "b.o" ∷ [];
  outputs = codes "a" ∷ [];
  missing = [];
}

sample-HasStrings : HasStrings sample
sample-HasStrings = record {
  version_free = (refl, (refl, tt));
  inputs_free = ((refl, (refl, (refl, tt))), ((refl, (refl, (refl, tt))), tt));
  outputs_free = ((refl, tt), tt);
  missing_free = tt;
}

deserialize-serialize_example : deserialize (serialize sample) ≡ some sample
deserialize-serialize_example = deserialize-serialize sample sample-HasStrings

-- An input before an output, which `serialize` writes the other way round.
abbrev unordered : Bytes
unordered = 16 ∷ b'i' ∷ 0 ∷ 64 ∷ b'o' ∷ 0 ∷ []

abbrev unordered_info : BinaryDependencyInfo
unordered_info = record {
  version = [];
  inputs = codes "i" ∷ [];
  outputs = codes "o" ∷ [];
  missing = [];
}

deserialize-unordered : deserialize unordered ≡ some unordered_info
unfolding deserialize
deserialize-unordered = refl

deserialize-deserialize_example :
    HasStrings unordered_info × (deserialize (serialize unordered_info) ≡ some unordered_info)
deserialize-deserialize_example =
    deserialize-deserialize unordered unordered_info deserialize-unordered

deserialize_unterminated_example : deserialize ((16 ∷ b'a' ∷ []) ++ b'b' ∷ []) ≡ none
deserialize_unterminated_example = deserialize_unterminated (16 ∷ b'a' ∷ []) b'b' refl

-- Two versions are refused, but a first one that is empty does not count.
two_versions : deserialize (0 ∷ b'a' ∷ 0 ∷ 0 ∷ b'b' ∷ 0 ∷ []) ≡ none
unfolding deserialize
two_versions = refl

unknown_command : deserialize (2 ∷ b'a' ∷ 0 ∷ []) ≡ none
unfolding deserialize
unknown_command = refl

abbrev rules : List DependencyInfo
rules =
    record { inputs = codes "a b.c" ∷ codes "c.h" ∷ []; outputs = codes "a.o" ∷ [] }
    ∷ record { inputs = []; outputs = codes "b.o" ∷ [] }
    ∷ []

first-IsKept : IsKept (codes "a.o")
first-IsKept = (λ e. cc e, (refl, (refl, (refl, tt))))

second-IsKept : IsKept (codes "b.o")
second-IsKept = (λ e. cc e, (refl, (refl, (refl, tt))))

source-IsKept : IsKept (codes "a b.c")
source-IsKept = (λ e. cc e, (refl, (refl, (refl, (refl, (refl, tt))))))

header-IsKept : IsKept (codes "c.h")
header-IsKept = (λ e. cc e, (refl, (refl, (refl, tt))))

rules-IsRule : Every IsRule rules
rules-IsRule = (
  record {
    name = codes "a.o";
    one_output = refl;
    output_kept = first-IsKept;
    inputs_kept = (source-IsKept, (header-IsKept, tt));
  },
  (
    record { name = codes "b.o"; one_output = refl; output_kept = second-IsKept; inputs_kept = tt },
    tt,
  ),
)

read_rules-write_rules_example : read_rules (write_rules rules) ≡ some rules
read_rules-write_rules_example = read_rules-write_rules rules rules-IsRule

read_rules-write_outputs_example :
    read_rules (
      write_rules
        (record { inputs = codes "c.h" ∷ []; outputs = codes "a.o" ∷ codes "b.o" ∷ [] } ∷ []))
    ≡ some (record { inputs = codes "c.h" ∷ []; outputs = (codes "a.o" ++ codes "b.o") ∷ [] } ∷ [])
read_rules-write_outputs_example =
    read_rules-write_outputs (codes "a.o") (codes "b.o") (codes "c.h" ∷ []) first-IsKept
      second-IsKept (header-IsKept, tt)

-- The backslash before a colon stays in the name.
colon_kept :
    read_rules (write_rules (record { inputs = codes "c:d" ∷ []; outputs = codes "a" ∷ [] } ∷ []))
    ≡ some (record { inputs = codes "c\\:d" ∷ []; outputs = codes "a" ∷ [] } ∷ [])
unfolding read_rules write_rules drop_back
colon_kept = refl
