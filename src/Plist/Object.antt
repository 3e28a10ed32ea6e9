-- ===== src/Plist/Object.antt =====
-- The objects of Libraries/plist: Object.h and its subclasses. A number is its 64 bits.
use xcbuild.Prelude.{ℕ, Bool, if◌then◌else◌}
use xcbuild.Prelude.Text.{Bytes, equal}

-- An array and a dictionary hold lists of objects; a dictionary's are in the order of its keys.
-- A date is its `stringValue`.
mutual
  pub data Object : Type 0 where
    string : Bytes → Object
    integer : ℕ → Object
    real : ℕ → Object
    boolean : Bool → Object
    contents : Bytes → Object
    date : Bytes → Object
    uid : ℕ → Object
    null_object : Object
    array : Objects → Object
    dictionary : Entries → Object

  pub data Objects : Type 0 where
    nil : Objects
    cons : Object → Objects → Objects

  pub data Entries : Type 0 where
    end : Entries
    entry : Bytes → Object → Entries → Entries

-- `Array::append`
unfoldable pub append : Objects → Object → Objects
append nil o = cons o nil
append (cons x xs) o = cons x (append xs o)

-- `Dictionary::remove`
unfoldable pub remove : Bytes → Entries → Entries
unfolding equal
remove key end = end
remove key (entry k o entries) =
    let rest = remove key entries in if equal k key then entries else entry k o rest

unfoldable pub push_back : Entries → Bytes → Object → Entries
push_back end key o = entry key o end
push_back (entry k x entries) key o = entry k x (push_back entries key o)

-- `Dictionary::set`
unfoldable pub set : Bytes → Object → Entries → Entries
unfolding remove push_back
set key o entries = push_back (remove key entries) key o
