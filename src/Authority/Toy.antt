-- ===== src/Authority/Toy.antt =====
-- Concrete `Formats`, for the witnesses.
use soverign_founder_os.Base.{
  ◌≡◌, refl, String, Bool, true, false, Option, some, none, [], ◌∷◌, Result, ok, err, arith, ◌==◌,
  nat_eq, string_eq, Bool-cases, inl, inr, if◌then◌else◌,
}
use text.Mathlib.TextEquality.{eq_iff}
use soverign_founder_os.Base.Int.{ℤ, pos, negsuc}
use soverign_founder_os.Base.Text.{Bytes, codes, starts_with}
use soverign_founder_os.Contracts.{Uuid}
use soverign_founder_os.Authority.{AuthorityRecord, ClaimIo, Formats, written}

-- Records of tokens alone have an encoding.
abbrev write_record : Bool → Option String → ℤ → ℤ → Result String Bytes
write_record true none (pos a) (pos b) = ok (a ∷ b ∷ [])
write_record _ _ _ _ = err "not the record of a token"

abbrev read_token : Bytes → Option AuthorityRecord
read_token (a ∷ b ∷ []) = some (record {
  kind = "token";
  fingerprint_hex = none;
  consumed_at_unix = pos a;
  expires_at_unix = pos b;
})
read_token _ = none

pub read-write_record :
    (kind : String) (is_token : Bool) (fp : Option String) (a e : ℤ) (b : Bytes)
    → (kind == "token") ≡ is_token
    → write_record is_token fp a e ≡ ok b
    → read_token b
      ≡ some
          (record { kind = kind; fingerprint_hex = fp; consumed_at_unix = a; expires_at_unix = e })
read-write_record kind true none (pos m) (pos n) b same h = ground (arith, eq_iff kind "token")
read-write_record kind true none (pos m) (negsuc n) b same h = absurd (ground arith)
read-write_record kind true none (negsuc m) e b same h = absurd (ground arith)
read-write_record kind true (some fp) a e b same h = absurd (ground arith)
read-write_record kind false fp a e b same h = absurd (ground arith)

abbrev uuid_text : Uuid → String
uuid_text u = if u == 1 then "one" else "other"

pub no_tmp : (u : Uuid) → starts_with (codes "tmp-") (codes (uuid_text u)) ≡ false
no_tmp u = elim (Bool-cases (u == 1)) [ inl same ↦ rw same refl | inr differ ↦ rw differ refl ]

abbrev pub toy_formats : Formats
toy_formats = record {
  to_vec =
      λ r. write_record (r.kind == "token") r.fingerprint_hex r.consumed_at_unix r.expires_at_unix;
  from_slice = read_token;
  hex_encode = λ b. "";
  uuid_text = uuid_text;
  from-to = λ r b h.
      read-write_record r.kind _ r.fingerprint_hex r.consumed_at_unix r.expires_at_unix b refl h;
  uuid_text_no_tmp = no_tmp;
}

abbrev pub io : ClaimIo
io = record { temp_id = 9; write = written; link = none; cleaned = true; readable = true }
