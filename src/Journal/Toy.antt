-- ===== src/Journal/Toy.antt =====
-- A concrete `Formats` of the journal, for the witnesses: one byte for each record that it has a byte
-- for.
use soverign_founder_os.Base.{
  ℕ, ◌≡◌, refl, subst, ap, arith, ◌&&◌, string_eq, Bool, true, false, ◌==◌, nat_eq, if◌then◌else◌,
  String, true, false, Option, some, none, [], ◌∷◌, ◌++◌, Result, ok, err, is_empty,
}
use soverign_founder_os.Base.Int.{int_eq}
use soverign_founder_os.Base.Text.{Bytes, is_utf8, is_plain, utf8_step}
use soverign_founder_os.Journal.{
  ExecutionIntent, ExecutionOutcome, JournalRecord, requested, terminal, Formats,
}

abbrev same : ExecutionIntent → ExecutionIntent → Bool
same a b =
    a.execution_id == b.execution_id
    && a.component_digest_hex == b.component_digest_hex
    && a.canonical_input_digest_hex == b.canonical_input_digest_hex
    && a.requested_at_unix == b.requested_at_unix

same-eq : (a b : ExecutionIntent) → same a b ≡ true → b ≡ a
same-eq a b h =
    let id : b.execution_id ≡ a.execution_id = ground (arith, h) in
    let component : b.component_digest_hex ≡ a.component_digest_hex =
      ground (arith, h, string_eq.beq_iff a.component_digest_hex b.component_digest_hex) in
    let input : b.canonical_input_digest_hex ≡ a.canonical_input_digest_hex =
      ground
        (arith, h, string_eq.beq_iff a.canonical_input_digest_hex b.canonical_input_digest_hex) in
    let requested_at : b.requested_at_unix ≡ a.requested_at_unix =
      ground (arith, h, int_eq.beq_iff a.requested_at_unix b.requested_at_unix) in
    λ k. record {
      execution_id = id k;
      component_digest_hex = component k;
      canonical_input_digest_hex = input k;
      requested_at_unix = requested_at k;
    }

-- the one intent that has a byte
module _ (intent : ExecutionIntent) where
  abbrev text_byte : ℕ → String → Result String Bytes
  text_byte byte String.[] = ok (byte ∷ [])
  text_byte byte (String.◌∷◌ c s) = err "no byte"

  abbrev to_byte : JournalRecord → Result String Bytes
  to_byte (requested i) = if same i intent then ok (82 ∷ []) else err "no byte"
  to_byte JournalRecord.started = ok (83 ∷ [])
  to_byte (terminal (ExecutionOutcome.completed s)) = text_byte 67 s
  to_byte (terminal (ExecutionOutcome.failed s)) = text_byte 70 s
  to_byte (terminal (ExecutionOutcome.indeterminate s)) = text_byte 73 s

  abbrev from_one : ℕ → Option JournalRecord
  from_one x =
      if x == 82
      then some (requested intent)
      else if x == 83
      then some JournalRecord.started
      else if x == 67
      then some (terminal (ExecutionOutcome.completed ""))
      else if x == 70
      then some (terminal (ExecutionOutcome.failed ""))
      else if x == 73
      then some (terminal (ExecutionOutcome.indeterminate ""))
      else none

  abbrev from_byte : Bytes → Option JournalRecord
  from_byte (x ∷ []) = from_one x
  from_byte _ = none

  -- what the encoding says of a record: a byte that is read back
  abbrev IsByte : JournalRecord → Result String Bytes → Type 0
  IsByte r (err reason) = Unit
  IsByte r (ok []) = ⊥
  IsByte r (ok (x ∷ [])) =
      (is_plain (x ∷ []) ≡ true) × (is_utf8 (x ∷ []) ≡ true) × (from_byte (x ∷ []) ≡ some r)
  IsByte r (ok (x ∷ y ∷ b)) = ⊥

  requested-IsByte :
      (i : ExecutionIntent) (b : Bool)
      → same i intent ≡ b
      → IsByte (requested i) (if b then ok (82 ∷ []) else err "no byte")
  unfolding utf8_step
  requested-IsByte i true h =
      (refl, refl, ap (λ (x : ExecutionIntent). some (requested x)) (same-eq i intent h))
  requested-IsByte i false h = tt

  to_byte-IsByte : (r : JournalRecord) → IsByte r (to_byte r)
  unfolding utf8_step
  to_byte-IsByte (requested i) = requested-IsByte i (same i intent) refl
  to_byte-IsByte JournalRecord.started = (refl, refl, refl)
  to_byte-IsByte (terminal (ExecutionOutcome.completed String.[])) = (refl, refl, refl)
  to_byte-IsByte (terminal (ExecutionOutcome.completed (String.◌∷◌ c s))) = tt
  to_byte-IsByte (terminal (ExecutionOutcome.failed String.[])) = (refl, refl, refl)
  to_byte-IsByte (terminal (ExecutionOutcome.failed (String.◌∷◌ c s))) = tt
  to_byte-IsByte (terminal (ExecutionOutcome.indeterminate String.[])) = (refl, refl, refl)
  to_byte-IsByte (terminal (ExecutionOutcome.indeterminate (String.◌∷◌ c s))) = tt

  IsByte-of : (r : JournalRecord) (b : Bytes) → to_byte r ≡ ok b → IsByte r (ok b)
  IsByte-of r b h = subst (IsByte r) h (to_byte-IsByte r)

  pub not_empty : (r : JournalRecord) (b : Bytes) → to_byte r ≡ ok b → is_empty b ≡ false
  not_empty r [] h = absurd (IsByte-of r [] h)
  not_empty r (x ∷ b) h = refl

  pub plain : (r : JournalRecord) (b : Bytes) → to_byte r ≡ ok b → is_plain b ≡ true
  plain r [] h = refl
  plain r (x ∷ []) h = (IsByte-of r (x ∷ []) h).0
  plain r (x ∷ y ∷ b) h = absurd (IsByte-of r (x ∷ y ∷ b) h)

  pub is_text : (r : JournalRecord) (b : Bytes) → to_byte r ≡ ok b → is_utf8 b ≡ true
  is_text r [] h = refl
  is_text r (x ∷ []) h = (IsByte-of r (x ∷ []) h).1
  is_text r (x ∷ y ∷ b) h = absurd (IsByte-of r (x ∷ y ∷ b) h)

  pub read_back : (r : JournalRecord) (b : Bytes) → to_byte r ≡ ok b → from_byte b ≡ some r
  read_back r [] h = absurd (IsByte-of r [] h)
  read_back r (x ∷ []) h = (IsByte-of r (x ∷ []) h).2
  read_back r (x ∷ y ∷ b) h = absurd (IsByte-of r (x ∷ y ∷ b) h)

  pub cut :
      (r : JournalRecord) (front : Bytes) (x : ℕ) (back : Bytes)
      → to_byte r ≡ ok (front ++ (x ∷ back))
      → from_byte front ≡ none
  cut r [] x back h = refl
  cut r (y ∷ []) x back h = absurd (IsByte-of r (y ∷ x ∷ back) h)
  cut r (y ∷ z ∷ front) x back h = refl

  abbrev pub toy_journal : Formats
  toy_journal = record {
    to_vec = to_byte;
    from_str = from_byte;
    uuid_text = λ n. "id";
    not_empty = not_empty;
    plain = plain;
    is_text = is_text;
    from-to = read_back;
    cut = cut;
  }
