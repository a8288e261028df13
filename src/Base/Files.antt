-- ===== src/Base/Files.antt =====
-- `std::fs`, as far as the stores use it: a directory is the list of its entries.
use Prim.Native.Nat.{ℕ}
use Prim.Native.String.{String}
use mathlib.Core.Path.{◌≡◌}
use mathlib.Core.Option.{Option, none, some}
use mathlib.Core.List.{List, [], ◌∷◌}
use native.Mathlib.Omega.{arith}
use text.Mathlib.TextEquality.{eq_iff}
use soverign_founder_os.Base.Tests.{if◌then◌else◌}
use soverign_founder_os.Base.Equality.{◌==◌, string_eq, ==-refl}

-- A regular file with its content, or a link, a directory or another special file.
pub data Entry : Type 0 where
  file : List ℕ → Entry
  special : Entry

abbrev pub Dir : Type 0
Dir = List (String × Entry)

unfoldable pub lookup : String → Dir → Option Entry
lookup name [] = none
lookup name ((n, e) ∷ dir) = if n == name then some e else lookup name dir

-- Create the name, or replace what it stands for.
unfoldable pub insert : String → Entry → Dir → Dir
insert name e [] = (name, e) ∷ []
insert name e ((n, f) ∷ dir) = if n == name then (name, e) ∷ dir else (n, f) ∷ insert name e dir

-- `remove_file`; a missing name is no change
unfoldable pub remove : String → Dir → Dir
remove name [] = []
remove name ((n, f) ∷ dir) = let rest = remove name dir in if n == name then rest else (n, f) ∷ rest

pub lookup-insert :
    (j k : String) (e : Entry) (dir : Dir)
    → lookup j (insert k e dir) ≡ (if k == j then some e else lookup j dir)
unfolding lookup insert
lookup-insert j k e [] = ground (arith, eq_iff k j)
lookup-insert j k e ((n, f) ∷ dir) =
    ground (arith, eq_iff k j, eq_iff n k, eq_iff n j, lookup-insert j k e dir)

pub lookup-insert_self :
    (name : String) (e : Entry) (dir : Dir) → lookup name (insert name e dir) ≡ some e
lookup-insert_self name e dir = ground (arith, lookup-insert name name e dir, ==-refl name)

pub lookup-remove :
    (j k : String) (dir : Dir) → lookup j (remove k dir) ≡ (if k == j then none else lookup j dir)
unfolding lookup remove
lookup-remove j k [] = ground (arith, eq_iff k j)
lookup-remove j k ((n, f) ∷ dir) =
    ground (arith, eq_iff k j, eq_iff n k, eq_iff n j, lookup-remove j k dir)
