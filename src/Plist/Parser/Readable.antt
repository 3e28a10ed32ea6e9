-- ===== src/Plist/Parser/Readable.antt =====
-- The objects that ASCIIParser.cpp reads back from what ASCIIWriter.cpp writes, and as what.
use xcbuild.Prelude.{
  true, false, ◌≡◌, refl, ap, sym, ◌∙◌, List, [], ◌∷◌, Every, Bool-cases, inl, inr, if◌then◌else◌,
}
use xcbuild.Prelude.Text.{Bytes, codes, equal}
use xcbuild.Plist.Object.{
  Object, Objects, Entries, string, boolean, contents, date, array, dictionary, nil, cons, end,
  entry, append, remove, push_back, set,
}
use xcbuild.Plist.Writer.Escaped.{is_kept}
use xcbuild.Plist.Serializer.Digits.{AreBytes}

-- ASCII without NUL, backslash and vertical tab.
abbrev pub IsKept : Bytes → Type 0
IsKept s = Every (λ c. is_kept c ≡ true) s

-- None of the keys is one before it.
unfoldable pub AreNew : List Bytes → Entries → Type 0
AreNew seen end = Unit
AreNew seen (entry key o entries) =
    Every (λ k. equal k key ≡ false) seen × AreNew (key ∷ seen) entries

unfoldable mutual
  unfolding AreNew

  -- Numbers, UIDs and nulls are left out.
  pub IsReadable : Object → Type 0
  IsReadable (string s) = IsKept s
  IsReadable (boolean b) = Unit
  IsReadable (contents s) = AreBytes s
  IsReadable (date s) = IsKept s
  IsReadable (array xs) = AreReadable xs
  IsReadable (dictionary entries) = AreNew [] entries × AreReadableEntries entries
  IsReadable _ = ⊥

  pub AreReadable : Objects → Type 0
  AreReadable nil = Unit
  AreReadable (cons x xs) = IsReadable x × AreReadable xs

  pub AreReadableEntries : Entries → Type 0
  AreReadableEntries end = Unit
  AreReadableEntries (entry key o entries) = IsKept key × IsReadable o × AreReadableEntries entries

-- What is read: a text for a Boolean and a date.
unfoldable mutual
  pub as_read : Object → Object
  as_read (boolean b) = string (if b then codes "YES" else codes "NO")
  as_read (date s) = string s
  as_read (array xs) = array (as_read_items xs)
  as_read (dictionary entries) = dictionary (as_read_entries entries)
  as_read o = o

  pub as_read_items : Objects → Objects
  as_read_items nil = nil
  as_read_items (cons x xs) = cons (as_read x) (as_read_items xs)

  pub as_read_entries : Entries → Entries
  as_read_entries end = end
  as_read_entries (entry key o entries) = entry key (as_read o) (as_read_entries entries)

-- Objects put in one by one.
unfoldable pub append_all : Objects → Objects → Objects
unfolding append
append_all acc nil = acc
append_all acc (cons x xs) = append_all (append acc x) xs

join : Objects → Objects → Objects
join nil ys = ys
join (cons x xs) ys = cons x (join xs ys)

join-append :
    (xs : Objects) (o : Object) (ys : Objects) → join (append xs o) ys ≡ join xs (cons o ys)
unfolding join append
join-append nil o ys = refl
join-append (cons x xs) o ys = ap (cons x) (join-append xs o ys)

join-nil : (xs : Objects) → join xs nil ≡ xs
unfolding join
join-nil nil = refl
join-nil (cons x xs) = ap (cons x) (join-nil xs)

append_all-join : (acc xs : Objects) → append_all acc xs ≡ join acc xs
unfolding append_all
append_all-join acc nil = sym (join-nil acc)
append_all-join acc (cons x xs) = append_all-join (append acc x) xs ∙ join-append acc x xs

pub append_all-nil : (xs : Objects) → append_all nil xs ≡ xs
unfolding join
append_all-nil xs = append_all-join nil xs

unfoldable pub push_all : Entries → Entries → Entries
unfolding push_back
push_all acc end = acc
push_all acc (entry key o entries) = push_all (push_back acc key o) entries

link : Entries → Entries → Entries
link end ys = ys
link (entry key x xs) ys = entry key x (link xs ys)

link-push_back :
    (xs : Entries) (key : Bytes) (o : Object) (ys : Entries)
    → link (push_back xs key o) ys ≡ link xs (entry key o ys)
unfolding link push_back
link-push_back end key o ys = refl
link-push_back (entry k x xs) key o ys = ap (entry k x) (link-push_back xs key o ys)

link-end : (xs : Entries) → link xs end ≡ xs
unfolding link
link-end end = refl
link-end (entry k x xs) = ap (entry k x) (link-end xs)

push_all-link : (acc xs : Entries) → push_all acc xs ≡ link acc xs
unfolding push_all
push_all-link acc end = sym (link-end acc)
push_all-link acc (entry k x xs) = push_all-link (push_back acc k x) xs ∙ link-push_back acc k x xs

pub push_all-end : (xs : Entries) → push_all end xs ≡ xs
unfolding link
push_all-end xs = push_all-link end xs

-- No key but those seen is in the dictionary.
abbrev pub Knows : Entries → List Bytes → Type 0
Knows acc seen = (key : Bytes) → Every (λ k. equal k key ≡ false) seen → remove key acc ≡ acc

pub Knows-end : Knows end []
unfolding remove
Knows-end key h = refl

remove-push_back :
    (acc : Entries) (key k : Bytes) (o : Object)
    → equal k key ≡ false
    → remove key (push_back acc k o) ≡ push_back (remove key acc) k o
unfolding remove push_back
remove-push_back end key k o h = rw h refl
remove-push_back (entry j x acc) key k o h = elim (Bool-cases (equal j key)) [
  | inl y ↦ rw y refl
  | inr y ↦ rw y (ap (entry j x) (remove-push_back acc key k o h))
]

pub Knows-push_back :
    (acc : Entries) (seen : List Bytes) (k : Bytes) (o : Object)
    → Knows acc seen
    → Knows (push_back acc k o) (k ∷ seen)
Knows-push_back acc seen k o n key (h, g) =
    remove-push_back acc key k o h ∙ ap (λ e. push_back e k o) (n key g)

-- A key that is new is put at the end.
pub set-push_back :
    (acc : Entries) (seen : List Bytes) (key : Bytes) (o : Object)
    → Knows acc seen
    → Every (λ k. equal k key ≡ false) seen
    → set key o acc ≡ push_back acc key o
unfolding set
set-push_back acc seen key o n h = ap (λ e. push_back e key o) (n key h)
