-- ===== src/Base/Text.antt =====
-- `str` and `char`: the tests of the standard library that the program applies to its identifiers.
use Prim.Native.Nat.{ℕ, ◌+◌, ◌/◌, ◌%◌}
use Prim.Native.Char.{code}
use Prim.Native.String.{String, ◌++◌ as str_append}
use text.Mathlib.TextLemmas.{nil-append, cons-append}
use mathlib.Core.Path.{◌≡◌, refl, ap, ◌∙◌}
use mathlib.Core.Logic.{◌↔◌, inl, inr}
use mathlib.Core.Bool.{Bool, true, false, ◌&&◌, ◌||◌}
use mathlib.Core.List.{List, [], ◌∷◌, ◌++◌, reverse}
use native.Mathlib.Omega.{arith}
use soverign_founder_os.Base.Tests.{ltb, leb, nat_beq, Bool-cases, if◌then◌else◌}
use soverign_founder_os.Base.Equality.{nat_eq, list_eq, string_eq}

abbrev pub Bytes : Type 0
Bytes = List ℕ

-- The scalar values of a text. `String` has its own `[]` and `∷`.
abbrev pub codes : String → List ℕ
codes String.[] = []
codes (String.◌∷◌ c s) = code c ∷ codes s

-- UTF-8: the bytes of one scalar value, and `str::as_bytes` of a text given by its scalar values.
unfoldable pub utf8_char : ℕ → Bytes
utf8_char c =
    if ltb c 0x80
    then c ∷ []
    else if ltb c 0x800
    then (0xc0 + c / 64) ∷ (0x80 + c % 64) ∷ []
    else if ltb c 0x10000
    then (0xe0 + c / 4096) ∷ (0x80 + c / 64 % 64) ∷ (0x80 + c % 64) ∷ []
    else (0xf0 + c / 262144) ∷ (0x80 + c / 4096 % 64) ∷ (0x80 + c / 64 % 64) ∷ (0x80 + c % 64) ∷ []

unfoldable pub utf8 : List ℕ → Bytes
unfolding utf8_char
utf8 [] = []
utf8 (c ∷ cs) = utf8_char c ++ utf8 cs

-- `char::is_control`: the category Cc.
abbrev pub is_control : ℕ → Bool
is_control c = ltb c 0x20 || (leb 0x7f c && leb c 0x9f)

-- `char::is_whitespace`: the property White_Space.
abbrev pub is_whitespace : ℕ → Bool
is_whitespace c =
    (leb 9 c && leb c 13)
    || nat_beq c 0x20
    || nat_beq c 0x85
    || nat_beq c 0xa0
    || nat_beq c 0x1680
    || (leb 0x2000 c && leb c 0x200a)
    || nat_beq c 0x2028
    || nat_beq c 0x2029
    || nat_beq c 0x202f
    || nat_beq c 0x205f
    || nat_beq c 0x3000

unfoldable pub trim_start : List ℕ → List ℕ
trim_start [] = []
trim_start (c ∷ cs) = let rest = trim_start cs in if is_whitespace c then rest else c ∷ cs

-- `str::trim`
unfoldable pub trim : List ℕ → List ℕ
unfolding trim_start
trim cs = reverse (trim_start (reverse (trim_start cs)))

-- `str::starts_with` and `str::contains`, on the scalar values.
abbrev pub starts_with : List ℕ → List ℕ → Bool
starts_with [] s = true
starts_with (c ∷ cs) [] = false
starts_with (c ∷ cs) (x ∷ xs) = nat_beq c x && starts_with cs xs

abbrev pub contains : List ℕ → List ℕ → Bool
contains p [] = starts_with p []
contains p (x ∷ xs) = starts_with p (x ∷ xs) || contains p xs

abbrev pub HasPrefix : List ℕ → List ℕ → Type 0
HasPrefix p s = (rest : List ℕ) × (s ≡ p ++ rest)

abbrev pub HasInfix : List ℕ → List ℕ → Type 0
HasInfix p s = (before : List ℕ) × (after : List ℕ) × (s ≡ before ++ (p ++ after))

pub starts_with-HasPrefix : (p s : List ℕ) → starts_with p s ≡ true → HasPrefix p s
starts_with-HasPrefix [] s h = (s, refl)
starts_with-HasPrefix (c ∷ cs) [] h = cc
starts_with-HasPrefix (c ∷ cs) (x ∷ xs) h =
    let (rest, e) = starts_with-HasPrefix cs xs (ground arith) in (rest, ground arith)

pub starts_with-append : (p rest : List ℕ) → starts_with p (p ++ rest) ≡ true
starts_with-append [] rest = refl
starts_with-append (c ∷ cs) rest = ground (arith, starts_with-append cs rest)

pub starts_with_iff : (p s : List ℕ) → (starts_with p s ≡ true) ↔ HasPrefix p s
starts_with_iff p s = (starts_with-HasPrefix p s, λ h. rw h.1 (starts_with-append p h.0))

contains-append : (p before after : List ℕ) → contains p (before ++ (p ++ after)) ≡ true
contains-append p [] after = elim-head p after
  where
    elim-head : (p after : List ℕ) → contains p (p ++ after) ≡ true
    elim-head [] [] = refl
    elim-head [] (x ∷ after) = refl
    elim-head (c ∷ cs) after = ground (arith, starts_with-append cs after)
contains-append p (x ∷ before) after = ground (arith, contains-append p before after)

pub contains_iff : (p s : List ℕ) → (contains p s ≡ true) ↔ HasInfix p s
contains_iff p s = (find p s, λ h. rw h.2 (contains-append p h.0 h.1))
  where
    prefix_first : (p s : List ℕ) → HasPrefix p s → HasInfix p s
    prefix_first p s h = ([], h.0, h.1)

    find : (p s : List ℕ) → contains p s ≡ true → HasInfix p s
    find p [] h = prefix_first p [] (starts_with-HasPrefix p [] h)
    find p (x ∷ xs) h = elim (Bool-cases (starts_with p (x ∷ xs))) [
      | inl here ↦ prefix_first p (x ∷ xs) (starts_with-HasPrefix p (x ∷ xs) here)
      | inr not_here ↦ let (b, a, e) = find p xs (ground arith) in (x ∷ b, a, ap (λ r. x ∷ r) e)
    ]

pub codes-append : (s t : String) → codes (str_append s t) ≡ codes s ++ codes t
codes-append String.[] t = rw nil-append
codes-append (String.◌∷◌ c s) t = rw cons-append (ap (λ r. code c ∷ r) (codes-append s t))

-- `String::from_utf8`, as the test of its bytes: what may follow, in the table of RFC 3629.
pub data Utf8State : Type 0 where
  boundary one_more two_more three_more after_e0 after_ed after_f0 after_f4 invalid : Utf8State

abbrev in_range : ℕ → ℕ → Utf8State → ℕ → Utf8State
in_range low high next x = if leb low x && leb x high then next else invalid

abbrev utf8_start : ℕ → Utf8State
utf8_start x =
    if ltb x 0x80
    then boundary
    else if leb 0xc2 x && leb x 0xdf
    then one_more
    else if nat_beq x 0xe0
    then after_e0
    else if nat_beq x 0xed
    then after_ed
    else if leb 0xe1 x && leb x 0xef
    then two_more
    else if nat_beq x 0xf0
    then after_f0
    else if leb 0xf1 x && leb x 0xf3
    then three_more
    else if nat_beq x 0xf4
    then after_f4
    else invalid

unfoldable pub utf8_step : Utf8State → ℕ → Utf8State
utf8_step boundary x = utf8_start x
utf8_step one_more x = in_range 0x80 0xbf boundary x
utf8_step two_more x = in_range 0x80 0xbf one_more x
utf8_step three_more x = in_range 0x80 0xbf two_more x
utf8_step after_e0 x = in_range 0xa0 0xbf one_more x
utf8_step after_ed x = in_range 0x80 0x9f one_more x
utf8_step after_f0 x = in_range 0x90 0xbf two_more x
utf8_step after_f4 x = in_range 0x80 0x8f two_more x
utf8_step invalid x = invalid

abbrev pub utf8_run : Utf8State → Bytes → Utf8State
utf8_run state [] = state
utf8_run state (x ∷ b) = utf8_run (utf8_step state x) b

abbrev at_boundary : Utf8State → Bool
at_boundary boundary = true
at_boundary _ = false

abbrev pub is_utf8 : Bytes → Bool
is_utf8 b = at_boundary (utf8_run boundary b)

-- `str::lines`, on bytes: a line ends at `\n` or `\r\n`, and nothing stands after the last end.
abbrev pub starts_lf : Bytes → Bool
starts_lf [] = false
starts_lf (x ∷ b) = nat_beq x 10

abbrev pub push_byte : ℕ → List Bytes → List Bytes
push_byte x [] = (x ∷ []) ∷ []
push_byte x (line ∷ rest) = (x ∷ line) ∷ rest

unfoldable pub lines : Bytes → List Bytes
lines [] = []
lines (x ∷ b) =
    let rest = lines b in
    if nat_beq x 10
    then [] ∷ rest
    else if nat_beq x 13 && starts_lf b
    then rest
    else push_byte x rest

utf8_run-append :
    (state : Utf8State) (a b : Bytes) → utf8_run state (a ++ b) ≡ utf8_run (utf8_run state a) b
utf8_run-append state [] b = refl
utf8_run-append state (x ∷ a) b = utf8_run-append (utf8_step state x) a b

at_boundary-eq : (state : Utf8State) → at_boundary state ≡ true → state ≡ boundary
at_boundary-eq boundary h = refl
at_boundary-eq one_more h = cc
at_boundary-eq two_more h = cc
at_boundary-eq three_more h = cc
at_boundary-eq after_e0 h = cc
at_boundary-eq after_ed h = cc
at_boundary-eq after_f0 h = cc
at_boundary-eq after_f4 h = cc
at_boundary-eq invalid h = cc

-- valid text in front changes nothing
pub is_utf8-append : (a b : Bytes) → is_utf8 a ≡ true → is_utf8 (a ++ b) ≡ is_utf8 b
is_utf8-append a b h =
    ap at_boundary (
      utf8_run-append boundary a b
      ∙ ap (λ s. utf8_run s b) (at_boundary-eq (utf8_run boundary a) h))

-- no control characters
abbrev pub is_plain : Bytes → Bool
is_plain [] = true
is_plain (x ∷ b) = leb 32 x && is_plain b

pub lines-plain : (b rest : Bytes) → is_plain b ≡ true → lines (b ++ (10 ∷ rest)) ≡ b ∷ lines rest
unfolding lines
lines-plain [] rest h = refl
lines-plain (x ∷ b) rest h =
    let printable : leb 32 x ≡ true = ground arith in
    rw (lines-plain b rest (ground arith)) (ground arith)

pub lines-plain_last : (x : ℕ) (b : Bytes) → is_plain (x ∷ b) ≡ true → lines (x ∷ b) ≡ (x ∷ b) ∷ []
unfolding lines
lines-plain_last x [] h = ground arith
lines-plain_last x (y ∷ b) h = rw (lines-plain_last y b (ground arith)) (ground arith)
