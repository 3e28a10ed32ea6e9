-- ===== src/Plist/Parser/Dictionaries.antt =====
-- A dictionary that ASCIIWriter.cpp writes, read by ASCIIParser.cpp.
use xcbuild.Prelude.{
  ℕ, suc, Bool, true, false, ◌≡◌, refl, ap, sym, subst, ◌∙◌, Option, none, some, List, [], ◌∷◌,
  ◌++◌, append_assoc, append-nil, Every-append,
}
use xcbuild.Prelude.Text.{Bytes, codes}
use xcbuild.Plist.Object.{Object, Entries, dictionary, end, entry, push_back, set}
use xcbuild.Plist.Lexer.{
  Lexer, is_unquoted, front, is_skipped, dictionary_start, dictionary_end, semicolon,
  dictionary_key_val_separator,
}
use xcbuild.Plist.Unquote.{unquote}
use xcbuild.Plist.Writer.{write_string}
use xcbuild.Plist.Writer.Tokens.{
  IsAt, Lexes-write_string, Lexes-dictionary_start, Lexes-dictionary_end, Lexes-semicolon,
  Lexes-separator,
}
use xcbuild.Plist.Serializer.{
  Formats, Writer, ◌>>◌, set_last_key, tabs, write, write_escaped, write_entry, write_dictionary,
  handle_object, handle_entries,
}
use xcbuild.Plist.Parser.{Frame, plist, key_separator, entry_separator}
use xcbuild.Plist.Parser.Leads.{Leads, none_more, Leads-trans}
use xcbuild.Plist.Parser.Spots.{
  value, at_keys, parser_at, state_behind, parser_behind, keys_in, inner_frames, level_at, root_at,
  step-key, step-dictionary_start, step-dictionary_end, step-separator, step-semicolon,
}
use xcbuild.Plist.Parser.Readable.{
  IsKept, AreNew, as_read, as_read_entries, push_all, push_all-end, Knows, Knows-end,
  Knows-push_back, set-push_back,
}
use xcbuild.Plist.Parser.Scalars.{
  place, AreBlank, ReadsValue, writer, one_round, AreBlank-tabs, margin, AreBlank-margin,
  write_string-some, until_nul-kept, Prints,
}
use xcbuild.Plist.Parser.Arrays.{less_one}

-- An entry, from whatever blanks stand before it to the end of its line.
ReadsEntry :
    (strings : Bool) (buffer b m kt t rest key : Bytes) (o : Object) (frames : List Frame)
    (acc : Entries) (level : ℕ) (root : Option Object) (l : Lexer)
    → AreBlank b
    → AreBlank m
    → IsKept key
    → write_string key ≡ some kt
    → ReadsValue t o
    → IsAt buffer l (b ++ ((m ++ (kt ++ (codes " = " ++ (t ++ (59 ∷ 10 ∷ []))))) ++ rest))
    → (l' : Lexer) × IsAt buffer l' (10 ∷ rest)
      × Leads strings buffer
          (place l plist (at_keys frames acc level root))
          (place l' plist (at_keys frames (set key o acc) level root))
unfolding is_unquoted front
ReadsEntry strings buffer b m kt t rest key o frames acc level root l bb bm k e r v =
    let s3 = b';' ∷ 10 ∷ rest in
    let s2 = b' ' ∷ (t ++ s3) in
    let s1 = b' ' ∷ b'=' ∷ s2 in
    let spot = value frames acc key level root in
    let keys = at_keys frames acc level root in
    let keys' = at_keys frames (set key o acc) level root in
    let (token, is, x) = Lexes-write_string buffer key kt s1 k refl e in
    let (l1, v1, m1) =
      one_round strings buffer (b ++ m) kt s1 token (λ y. unquote y ≡ key) l plist key_separator
        keys (parser_at spot) (Every-append (λ c. is_skipped c ≡ true) b m bb bm) x
        (subst (IsAt buffer l) (simp append_assoc) v)
        (λ l' q.
          step-key strings buffer l' token frames acc level root key is q (until_nul-kept key k)) in
    let (l2, v2, m2) =
      one_round strings buffer (codes " ") (codes "=") s2 dictionary_key_val_separator (λ y. Unit)
        l1 key_separator plist (parser_at spot) (parser_at spot) (refl, tt)
        (Lexes-separator buffer s2) v1
        (λ l' q. step-separator strings buffer l' (parser_at spot)) in
    let (l3, v3, m3) = r strings buffer s3 (codes " ") spot l2 refl (refl, tt) v2 in
    let (l4, v4, m4) =
      one_round strings buffer [] (codes ";") (10 ∷ rest) semicolon (λ y. Unit) l3 entry_separator
        plist keys' keys' tt (Lexes-semicolon buffer (10 ∷ rest)) v3
        (λ l' q. step-semicolon strings buffer l' frames (set key o acc) level root) in
    (l4, v4, Leads-trans m1 (Leads-trans m2 (Leads-trans m3 m4)))

write_escaped_lem :
    (key : Bytes) (i : ℕ) (x kt : Bytes)
    → write_string key ≡ some kt
    → write_escaped key true (writer i false x) ≡ some (writer i false (x ++ (tabs i ++ kt)))
unfolding write_escaped
write_escaped_lem key i x kt e = rw (write_escaped, e) refl

write_entry_lem :
    (key : Bytes) (handle : Writer → Option Writer) (i : ℕ) (x kt t : Bytes)
    → write_string key ≡ some kt
    → handle (writer i true ((x ++ (tabs i ++ kt)) ++ codes " = "))
      ≡ some (writer i false (((x ++ (tabs i ++ kt)) ++ codes " = ") ++ t))
    → write_entry key handle (writer i false x)
      ≡ some (writer i false (x ++ (tabs i ++ (kt ++ (codes " = " ++ (t ++ (59 ∷ 10 ∷ [])))))))
unfolding write_entry write
write_entry_lem key handle i x kt t e h =
    let w = writer i false x in
    ap
      (λ r.
        ((λ z. r)
            >> write (codes " = ") false
            >> set_last_key true
            >> handle
            >> write (59 ∷ 10 ∷ []) false)
          w)
      (write_escaped_lem key i x kt e)
    ∙ ap (λ r. ((λ z. r) >> write (59 ∷ 10 ∷ []) false) w) h
    ∙ ap (λ z. some (writer i false z)) (simp append_assoc)

-- Entries with new keys, from the blanks before them to those behind.
abbrev ReadsEntries : Bytes → Entries → List Bytes → Type 0
ReadsEntries t entries seen =
    (strings : Bool) (buffer rest b : Bytes) (frames : List Frame) (acc : Entries) (level : ℕ)
    (root : Option Object) (l : Lexer)
    → Knows acc seen
    → AreBlank b
    → IsAt buffer l (b ++ (t ++ rest))
    → (l' : Lexer) × (b' : Bytes) × AreBlank b'
      × IsAt buffer l' (b' ++ rest)
      × Leads strings buffer (place l plist (at_keys frames acc level root))
          (place l' plist (at_keys frames (push_all acc entries) level root))

abbrev pub PrintsEntries : Formats → Entries → Type 0
PrintsEntries f entries =
    (seen : List Bytes)
    → AreNew seen entries
    → (i : ℕ) (x : Bytes)
    → (t : Bytes) × (handle_entries f entries (writer i false x) ≡ some (writer i false (x ++ t)))
      × ReadsEntries t (as_read_entries entries) seen

pub PrintsEntries-end : (f : Formats) → PrintsEntries f end
unfolding handle_entries as_read_entries push_all
PrintsEntries-end f seen n i x = (
  [],
  ap (λ y. some (writer i false y)) (sym (append-nil x)),
  λ strings buffer rest b frames acc level root l k h v. (l, b, h, v, none_more),
)

handle_entries-next :
    (f : Formats) (key : Bytes) (o : Object) (entries : Entries) (w w' : Writer)
    → write_entry key (handle_object f true o) w ≡ some w'
    → handle_entries f (entry key o entries) w ≡ handle_entries f entries w'
unfolding handle_entries
handle_entries-next f key o entries w w' h =
    ap (λ r. elim r [ none ↦ none | some y ↦ handle_entries f entries y ]) h

pub PrintsEntries-entry :
    (f : Formats) (key : Bytes) (o : Object) (entries : Entries)
    → IsKept key
    → Prints (handle_object f true o) (as_read o)
    → PrintsEntries f entries
    → PrintsEntries f (entry key o entries)
unfolding handle_entries as_read_entries push_all AreNew
PrintsEntries-entry f key o entries k p q seen (new_key, n) i x =
    let (kt, e) = write_string-some key k in
    let y = (x ++ (tabs i ++ kt)) ++ codes " = " in
    let (t, g, r) = p i true y in
    let one = tabs i ++ (kt ++ (codes " = " ++ (t ++ (59 ∷ 10 ∷ [])))) in
    let (more, h, s) = q (key ∷ seen) n i (x ++ one) in
    (
      one ++ more,
      handle_entries-next f key o entries (writer i false x) (writer i false (x ++ one))
            (write_entry_lem key (handle_object f true o) i x kt t e g)
          ∙ h
          ∙ ap (λ z. some (writer i false z)) (append_assoc x one more),
      λ strings buffer rest b frames acc level root l knows bb v.
          let (l1, v1, m1) =
            ReadsEntry strings buffer b (tabs i) kt t (more ++ rest) key (as_read o) frames acc
              level root l bb (AreBlank-tabs i) k e r
              (subst (IsAt buffer l) (ap (λ z. b ++ z) (append_assoc one more rest)) v) in
          let pushed : set key (as_read o) acc ≡ push_back acc key (as_read o) =
            set-push_back acc seen key (as_read o) knows new_key in
          let (l2, b', blank, v2, m2) =
            s strings buffer rest (10 ∷ []) frames (push_back acc key (as_read o)) level root l1
              (Knows-push_back acc seen key (as_read o) knows) (refl, tt) v1 in
          (
            l2,
            b',
            blank,
            v2,
            Leads-trans
                (subst
                  (λ z.
                    Leads strings buffer (place l plist (at_keys frames acc level root))
                      (place l1 plist (at_keys frames z level root)))
                  pushed m1)
                m2,
          ),
    )

write_dictionary_lem :
    (entries : Writer → Option Writer) (i : ℕ) (last_key : Bool) (x t : Bytes)
    → entries (writer (suc i) false (x ++ (margin last_key i ++ codes "{\n")))
      ≡ some (writer (suc i) false ((x ++ (margin last_key i ++ codes "{\n")) ++ t))
    → write_dictionary true entries (writer i last_key x)
      ≡ some
          (writer i false (x ++ (margin last_key i ++ (b'{' ∷ 10 ∷ (t ++ (tabs i ++ codes "}"))))))
unfolding write_dictionary write
write_dictionary_lem entries i last_key x t h =
    rw (h, less_one i) (ap (λ z. some (writer i false z)) (simp append_assoc))

ReadsValue-dictionary :
    (m t tail : Bytes) (entries : Entries)
    → AreBlank m
    → AreBlank tail
    → ReadsEntries t entries []
    → ReadsValue (m ++ (b'{' ∷ 10 ∷ (t ++ (tail ++ codes "}")))) (dictionary entries)
ReadsValue-dictionary m t tail entries bm bt r strings buffer rest b spot l h bb v =
    let close = tail ++ (b'}' ∷ rest) in
    let (l1, v1, m1) =
      one_round strings buffer (b ++ m) (codes "{") (10 ∷ (t ++ close)) dictionary_start (λ y. Unit)
        l plist plist (parser_at spot) (keys_in spot end)
        (Every-append (λ c. is_skipped c ≡ true) b m bb bm)
        (Lexes-dictionary_start buffer (10 ∷ (t ++ close)))
        (subst (IsAt buffer l) (simp append_assoc) v)
        (λ l' q. step-dictionary_start strings buffer l' spot) in
    let (l2, b', blank, v2, m2) =
      r strings buffer close (10 ∷ []) (inner_frames spot) end (level_at spot) (root_at spot) l1
        Knows-end (refl, tt) v1 in
    let (l3, v3, m3) =
      one_round strings buffer (b' ++ tail) (codes "}") rest dictionary_end (λ y. Unit) l2 plist
        (state_behind spot) (keys_in spot (push_all end entries))
        (parser_behind spot (dictionary (push_all end entries)))
        (Every-append (λ c. is_skipped c ≡ true) b' tail blank bt)
        (Lexes-dictionary_end buffer rest)
        (subst (IsAt buffer l2) (sym (append_assoc b' tail (b'}' ∷ rest))) v2)
        (λ l' q. step-dictionary_end strings buffer l' spot (push_all end entries)) in
    (
      l3,
      v3,
      subst
          (λ z.
            Leads strings buffer (place l plist (parser_at spot))
              (place l3 (state_behind spot) (parser_behind spot (dictionary z))))
          (push_all-end entries) (Leads-trans m1 (Leads-trans m2 m3)),
    )

pub Prints-dictionary :
    (f : Formats) (entries : Entries)
    → AreNew [] entries
    → PrintsEntries f entries
    → Prints
        (write_dictionary true (handle_entries f entries))
        (dictionary (as_read_entries entries))
Prints-dictionary f entries n p i last_key x =
    let m = margin last_key i in
    let (t, e, r) = p [] n (suc i) (x ++ (m ++ codes "{\n")) in
    (
      m ++ (b'{' ∷ 10 ∷ (t ++ (tabs i ++ codes "}"))),
      write_dictionary_lem (handle_entries f entries) i last_key x t e,
      ReadsValue-dictionary m t (tabs i) (as_read_entries entries) (AreBlank-margin last_key i)
          (AreBlank-tabs i) r,
    )
