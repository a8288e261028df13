-- ===== src/External/Toy/Fields.antt =====
-- Records as lists of byte strings, for the concrete encodings that the witnesses use.
use soverign_founder_os.Base.{
  ℕ, ◌≡◌, refl, ap, String, Option, some, none, List, [], ◌∷◌, length, zero, suc,
}
use soverign_founder_os.Base.Int.{ℤ, pos, negsuc}
use soverign_founder_os.Base.Text.{Bytes, codes}
use soverign_founder_os.External.Toy.{put_all, get_all, get_all-put_all}
use soverign_founder_os.External.Toy.Text.{of_codes, of_codes-codes}

abbrev pub number_of : Bytes → ℕ
number_of [] = 0
number_of (n ∷ _) = n

abbrev pub int_bytes : ℤ → Bytes
int_bytes (pos n) = 0 ∷ n ∷ []
int_bytes (negsuc n) = 1 ∷ n ∷ []

abbrev pub int_of : Bytes → ℤ
int_of (zero ∷ b) = pos (number_of b)
int_of (suc _ ∷ b) = negsuc (number_of b)
int_of [] = pos 0

pub int_of-int_bytes : (z : ℤ) → int_of (int_bytes z) ≡ z
int_of-int_bytes (pos n) = refl
int_of-int_bytes (negsuc n) = refl

module _ {A : Type 0} (write : A → Bytes) (read : Bytes → A) where
  abbrev pub option_bytes : Option A → Bytes
  option_bytes none = []
  option_bytes (some a) = 1 ∷ write a

  abbrev pub option_of : Bytes → Option A
  option_of [] = none
  option_of (_ ∷ b) = some (read b)

  pub option_of-option_bytes :
      ((a : A) → read (write a) ≡ a) → (o : Option A) → option_of (option_bytes o) ≡ o
  option_of-option_bytes law none = refl
  option_of-option_bytes law (some a) = ap some (law a)

abbrev pub text_bytes : Option String → Bytes
text_bytes = option_bytes codes of_codes

abbrev pub text_of : Bytes → Option String
text_of = option_of codes of_codes

pub text_of-text_bytes : (o : Option String) → text_of (text_bytes o) ≡ o
text_of-text_bytes = option_of-option_bytes codes of_codes of_codes-codes

abbrev pub uuid_bytes : Option ℕ → Bytes
uuid_bytes = option_bytes (λ n. n ∷ []) number_of

abbrev pub uuid_of : Bytes → Option ℕ
uuid_of = option_of (λ n. n ∷ []) number_of

pub uuid_of-uuid_bytes : (o : Option ℕ) → uuid_of (uuid_bytes o) ≡ o
uuid_of-uuid_bytes = option_of-option_bytes (λ n. n ∷ []) number_of (λ n. refl)

abbrev pub write_fields : List Bytes → Bytes
write_fields fields = length fields ∷ put_all fields []

abbrev pub read_fields : Bytes → List Bytes
read_fields [] = []
read_fields (n ∷ b) = (get_all n b).0

pub read_fields-write_fields : (fields : List Bytes) → read_fields (write_fields fields) ≡ fields
read_fields-write_fields fields = ap (λ (p : List Bytes × Bytes). p.0) (get_all-put_all fields [])
