-- ===== src/Plist/Parser/Arrays.antt =====
-- An array that ASCIIWriter.cpp writes, read by ASCIIParser.cpp.
use xcbuild.Prelude.{
  ℕ, suc, ◌-◌, Bool, true, false, ◌≡◌, ◌≢◌, refl, ap, sym, subst, Option, some, List, [], ◌∷◌, ◌++◌,
  append_assoc, append-nil, arith, Every-append,
}
use xcbuild.Prelude.Text.{Bytes, codes}
use xcbuild.Plist.Object.{Object, Objects, array, nil, cons, append}
use xcbuild.Plist.Lexer.{Lexer, is_unquoted, front, is_skipped, array_start, array_end, comma}
use xcbuild.Plist.Writer.Tokens.{IsAt, Lexes-array_start, Lexes-array_end, Lexes-comma}
use xcbuild.Plist.Serializer.{
  Formats, Writer, tabs, write, write_array, handle_object, handle_items,
}
use xcbuild.Plist.Parser.{Frame, ParseState, plist, key_separator, entry_separator}
use xcbuild.Plist.Parser.Leads.{Leads, none_more, Leads-trans}
use xcbuild.Plist.Parser.Spots.{
  Spot, item, parser_at, state_behind, parser_behind, item_in, inner_frames, level_at, root_at,
  step-array_start, step-array_end, step-comma,
}
use xcbuild.Plist.Parser.Readable.{as_read, as_read_items, append_all, append_all-nil}
use xcbuild.Plist.Parser.Scalars.{
  place, AreBlank, IsBehind, ReadsValue, writer, one_round, AreBlank-tabs, margin, AreBlank-margin,
  Prints,
}

-- The items of an array behind the first, with a comma before each.
abbrev pub ReadsItems : Bytes → Objects → Type 0
ReadsItems t xs =
    (strings : Bool) (buffer rest : Bytes) (frames : List Frame) (acc : Objects) (level : ℕ)
    (root : Option Object) (l : Lexer)
    → IsBehind rest
    → IsAt buffer l (t ++ rest)
    → (l' : Lexer) × IsAt buffer l' rest
      × Leads strings buffer (place l entry_separator (parser_at (item frames acc level root)))
          (place l' entry_separator (parser_at (item frames (append_all acc xs) level root)))

abbrev pub KeepsBehind : Bytes → Type 0
KeepsBehind t = (rest : Bytes) → IsBehind rest → IsBehind (t ++ rest)

abbrev pub PrintsItems : Formats → Objects → Type 0
PrintsItems f xs =
    (i : ℕ) (x : Bytes)
    → (t : Bytes) × (handle_items f true xs (writer i false x) ≡ some (writer i false (x ++ t)))
      × KeepsBehind t
      × ReadsItems t (as_read_items xs)

pub PrintsItems-nil : (f : Formats) → PrintsItems f nil
unfolding handle_items append_all as_read_items
PrintsItems-nil f i x = (
  [],
  ap (λ y. some (writer i false y)) (sym (append-nil x)),
  λ rest h. h,
  λ strings buffer rest frames acc level root l h v. (l, v, none_more),
)

ReadsItems-cons :
    (t more : Bytes) (o : Object) (xs : Objects)
    → ReadsValue t o
    → KeepsBehind more
    → ReadsItems more xs
    → ReadsItems (b',' ∷ 10 ∷ (t ++ more)) (cons o xs)
unfolding append_all
ReadsItems-cons t more o xs reads keeps reads_more strings buffer rest frames acc level root l h v =
    let spot = item frames acc level root in
    let (l1, v1, m1) =
      one_round strings buffer [] (codes ",") (10 ∷ ((t ++ more) ++ rest)) comma (λ y. Unit) l
        entry_separator plist (parser_at spot) (parser_at spot) tt
        (Lexes-comma buffer (10 ∷ ((t ++ more) ++ rest))) v
        (λ l' q. step-comma strings buffer l' frames acc level root) in
    let (l2, v2, m2) =
      reads strings buffer (more ++ rest) (10 ∷ []) spot l1 (keeps rest h) (refl, tt)
        (subst (λ s. IsAt buffer l1 (10 ∷ s)) (append_assoc t more rest) v1) in
    let (l3, v3, m3) = reads_more strings buffer rest frames (append acc o) level root l2 h v2 in
    (l3, v3, Leads-trans m1 (Leads-trans m2 m3))

pub PrintsItems-cons :
    (f : Formats) (o : Object) (xs : Objects)
    → Prints (handle_object f true o) (as_read o)
    → PrintsItems f xs
    → PrintsItems f (cons o xs)
unfolding handle_items write is_unquoted front as_read_items
PrintsItems-cons f o xs p q i x =
    let y = x ++ b',' ∷ 10 ∷ [] in
    let (t, e, r) = p i false y in
    let (more, g, k, s) = q i (y ++ t) in
    (
      b',' ∷ 10 ∷ (t ++ more),
      rw (e, g) (ap (λ z. some (writer i false z)) (simp append_assoc)),
      λ rest h. refl,
      ReadsItems-cons t more (as_read o) (as_read_items xs) r k s,
    )

-- All the items of an array, from behind its parenthesis to the blanks before the other.
abbrev pub ReadsBody : Bytes → Objects → Type 0
ReadsBody t xs =
    (strings : Bool) (buffer rest : Bytes) (spot : Spot) (l : Lexer)
    → IsBehind rest
    → IsAt buffer l (10 ∷ (t ++ rest))
    → (l' : Lexer) × (state : ParseState) × (b : Bytes) × (state ≢ key_separator)
      × AreBlank b
      × IsAt buffer l' (b ++ rest)
      × Leads strings buffer (place l plist (parser_at (item_in spot nil)))
          (place l' state (parser_at (item_in spot xs)))

abbrev pub PrintsBody : Formats → Objects → Type 0
PrintsBody f xs =
    (i : ℕ) (x : Bytes)
    → (t : Bytes) × (handle_items f false xs (writer i false x) ≡ some (writer i false (x ++ t)))
      × ReadsBody t (as_read_items xs)

pub PrintsBody-nil : (f : Formats) → PrintsBody f nil
unfolding handle_items as_read_items
PrintsBody-nil f i x = (
  [],
  ap (λ y. some (writer i false y)) (sym (append-nil x)),
  λ strings buffer rest spot l h v. (l, plist, 10 ∷ [], λ e. cc e, (refl, tt), v, none_more),
)

pub PrintsBody-cons :
    (f : Formats) (o : Object) (xs : Objects)
    → Prints (handle_object f true o) (as_read o)
    → PrintsItems f xs
    → PrintsBody f (cons o xs)
unfolding handle_items as_read_items append append_all
PrintsBody-cons f o xs p q i x =
    let (t, e, r) = p i false x in
    let (more, g, k, s) = q i (x ++ t) in
    (
      t ++ more,
      rw (e, g) (ap (λ z. some (writer i false z)) (append_assoc x t more)),
      λ strings buffer rest spot l h v.
          let start = item_in spot nil in
          let (l1, v1, m1) =
            r strings buffer (more ++ rest) (10 ∷ []) start l (k rest h) (refl, tt)
              (subst (λ z. IsAt buffer l (10 ∷ z)) (append_assoc t more rest) v) in
          let (l2, v2, m2) =
            s strings buffer rest (inner_frames spot) (append nil (as_read o)) (level_at spot)
              (root_at spot) l1 h v1 in
          let all : append_all (append nil (as_read o)) (as_read_items xs)
              ≡ cons (as_read o) (as_read_items xs) =
            append_all-nil (cons (as_read o) (as_read_items xs)) in
          (
            l2,
            entry_separator,
            [],
            λ y. cc y,
            tt,
            v2,
            subst
                (λ z.
                  Leads strings buffer (place l plist (parser_at start))
                    (place l2 entry_separator (parser_at (item_in spot z))))
                all (Leads-trans m1 m2),
          ),
    )

pub less_one : (i : ℕ) → suc i - 1 ≡ i
less_one i = omega arith

write_array_lem :
    (items : Writer → Option Writer) (i : ℕ) (last_key : Bool) (x t : Bytes)
    → items (writer (suc i) false (x ++ (margin last_key i ++ codes "(\n")))
      ≡ some (writer (suc i) false ((x ++ (margin last_key i ++ codes "(\n")) ++ t))
    → write_array items (writer i last_key x)
      ≡ some (
          writer i false
            (x ++ (margin last_key i ++ (b'(' ∷ 10 ∷ (t ++ 10 ∷ (tabs i ++ codes ")"))))))
unfolding write_array write
write_array_lem items i last_key x t h =
    rw (h, less_one i) (ap (λ z. some (writer i false z)) (simp append_assoc))

ReadsValue-array :
    (m t tail : Bytes) (xs : Objects)
    → AreBlank m
    → AreBlank tail
    → ReadsBody t xs
    → ReadsValue (m ++ (b'(' ∷ 10 ∷ (t ++ 10 ∷ (tail ++ codes ")")))) (array xs)
unfolding is_unquoted front
ReadsValue-array m t tail xs bm bt r strings buffer rest b spot l h bb v =
    let close = 10 ∷ (tail ++ (b')' ∷ rest)) in
    let (l1, v1, m1) =
      one_round strings buffer (b ++ m) (codes "(") (10 ∷ (t ++ close)) array_start (λ y. Unit) l
        plist plist (parser_at spot) (parser_at (item_in spot nil))
        (Every-append (λ c. is_skipped c ≡ true) b m bb bm)
        (Lexes-array_start buffer (10 ∷ (t ++ close))) (subst (IsAt buffer l) (simp append_assoc) v)
        (λ l' q. step-array_start strings buffer l' spot) in
    let (l2, state, b', n, blank, v2, m2) = r strings buffer close spot l1 refl v1 in
    let blanks : AreBlank (b' ++ (10 ∷ tail)) =
      Every-append (λ c. is_skipped c ≡ true) b' (10 ∷ tail) blank (refl, bt) in
    let (l3, v3, m3) =
      one_round strings buffer (b' ++ 10 ∷ tail) (codes ")") rest array_end (λ y. Unit) l2 state
        (state_behind spot) (parser_at (item_in spot xs)) (parser_behind spot (array xs)) blanks
        (Lexes-array_end buffer rest) (subst (IsAt buffer l2) (simp append_assoc) v2)
        (λ l' q. step-array_end strings buffer l' state spot xs n) in
    (l3, v3, Leads-trans m1 (Leads-trans m2 m3))

pub Prints-array :
    (f : Formats) (xs : Objects)
    → PrintsBody f xs
    → Prints (write_array (handle_items f false xs)) (array (as_read_items xs))
Prints-array f xs p i last_key x =
    let m = margin last_key i in
    let (t, e, r) = p (suc i) (x ++ (m ++ codes "(\n")) in
    (
      m ++ (b'(' ∷ 10 ∷ (t ++ 10 ∷ (tabs i ++ codes ")"))),
      write_array_lem (handle_items f false xs) i last_key x t e,
      ReadsValue-array m t (tabs i) (as_read_items xs) (AreBlank-margin last_key i)
          (AreBlank-tabs i) r,
    )
