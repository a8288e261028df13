-- ===== src/Authority.antt =====
-- crates/authority/src/lib.rs: one-use claims as files, published by a hard link. What the file
-- system answers to each call is an argument of the operation, so it may fail at every point.
mod Claims
mod Purge
mod History
pub mod Toy
mod Tests
use Prim.Native.String.{◌++◌ as str_append}
use soverign_founder_os.Base.{
  ℕ, ◌+◌, ◌*◌, ◌≡◌, String, Bool, true, false, ◌&&◌, Option, some, none, List, [], ◌∷◌, Result, ok,
  err, map_err, ◌>>=◌, ltb, length, if◌then◌else◌, ◌==◌, string_eq,
}
use soverign_founder_os.Base.Int.{ℤ, leb_ℤ}
use soverign_founder_os.Base.Text.{Bytes, codes, starts_with}
use soverign_founder_os.Base.Files.{Entry, file, special, Dir, lookup, insert, remove}
use soverign_founder_os.Contracts.{Uuid}

abbrev max_record_bytes : ℕ
max_record_bytes = 4 * 1024

pub data AuthorityError : Type 0 where
  already_consumed idempotency_replay idempotency_conflict corrupt_record : AuthorityError
  unavailable : String → AuthorityError

pub record AuthorityRecord : Type 0 where
  pub kind : String
  pub fingerprint_hex : Option String
  pub consumed_at_unix : ℤ
  pub expires_at_unix : ℤ

-- The three directories under the root; `open` creates them.
pub record AuthorityStore : Type 0 where
  pub tokens : Dir
  pub approvals : Dir
  pub idempotency : Dir

pub data ClaimError : Type 0 where
  exists : AuthorityRecord → ClaimError
  store : AuthorityError → ClaimError

-- serde_json, hex, and the text of a `Uuid`, which holds hexadecimal digits and dashes alone.
pub record Formats : Type 0 where
  pub to_vec : AuthorityRecord → Result String Bytes
  pub from_slice : Bytes → Option AuthorityRecord
  pub hex_encode : Bytes → String
  pub uuid_text : Uuid → String
  pub from-to : (r : AuthorityRecord) (b : Bytes) → to_vec r ≡ ok b → from_slice b ≡ some r
  pub uuid_text_no_tmp : (u : Uuid) → starts_with (codes "tmp-") (codes (uuid_text u)) ≡ false

-- How far the exclusive temporary file got: it was not created, it was left with some bytes, or it
-- was written and flushed.
pub data WriteOutcome : Type 0 where
  not_created : String → WriteOutcome
  cut_short : Bytes → String → WriteOutcome
  written : WriteOutcome

-- The answers of the system in one claim: the random name, the write, an error of the link other than
-- an existing name, whether the temporary is removed, and whether an existing record can be read.
pub record ClaimIo : Type 0 where
  pub temp_id : Uuid
  pub write : WriteOutcome
  pub link : Option String
  pub cleaned : Bool
  pub readable : Bool

module _ (f : Formats) where
  abbrev pub temp_name : Uuid → String
  temp_name id = str_append "tmp-" (f.uuid_text id)

  pub read_record : Option Entry → Result AuthorityError AuthorityRecord
  read_record none = err (unavailable "not found")
  read_record (some special) = err corrupt_record
  read_record (some (file bytes)) =
      if ltb max_record_bytes (length bytes)
      then err corrupt_record
      else elim (f.from_slice bytes) [ none ↦ err corrupt_record | some r ↦ ok r ]

  abbrev cleanup : ClaimIo → Dir → Dir
  cleanup io dir = if io.cleaned then remove (temp_name io.temp_id) dir else dir

  -- the error of a claim whose name exists, by what is read under that name
  abbrev taken : Result AuthorityError AuthorityRecord → ClaimError
  taken (ok existing) = exists existing
  taken (err _) = store corrupt_record

  -- the link publishes the record, unless there is an entry of that name
  publish : ClaimIo → Dir → String → Bytes → Option Entry → Result ClaimError (Unit {0}) × Dir
  publish io dir name bytes none = (ok tt, cleanup io (insert name (file bytes) dir))
  publish io dir name bytes (some entry) = (
    err (taken (if io.readable then read_record (some entry) else err corrupt_record)),
    cleanup io dir,
  )

  link_claim : ClaimIo → Dir → String → Bytes → Option String → Result ClaimError (Unit {0}) × Dir
  link_claim io dir name bytes (some reason) = (err (store (unavailable reason)), cleanup io dir)
  link_claim io dir name bytes none = publish io dir name bytes (lookup name dir)

  write_claim : ClaimIo → Dir → String → Bytes → WriteOutcome → Result ClaimError (Unit {0}) × Dir
  write_claim io dir name bytes (not_created reason) =
      (err (store (unavailable reason)), cleanup io dir)
  write_claim io dir name bytes (cut_short part reason) =
      (err (store (unavailable reason)), cleanup io (insert (temp_name io.temp_id) (file part) dir))
  write_claim io dir name bytes written =
      link_claim io (insert (temp_name io.temp_id) (file bytes) dir) name bytes io.link

  -- `create_new` does not open an existing file, whatever else the system would have answered
  abbrev created : Option Entry → WriteOutcome → WriteOutcome
  created (some _) outcome = not_created "file exists"
  created none outcome = outcome

  -- the claim once the record is serialized, or is not
  claim_bytes : ClaimIo → Dir → Uuid → Result String Bytes → Result ClaimError (Unit {0}) × Dir
  claim_bytes io dir id (err reason) = (err (store (unavailable reason)), dir)
  claim_bytes io dir id (ok bytes) =
      write_claim io dir (f.uuid_text id) bytes
        (created (lookup (temp_name io.temp_id) dir) io.write)

  pub claim : ClaimIo → Dir → Uuid → AuthorityRecord → Result ClaimError (Unit {0}) × Dir
  unfolding claim_bytes write_claim link_claim publish read_record
  claim io dir id r = claim_bytes io dir id (f.to_vec r)

  abbrev consumed : Result ClaimError (Unit {0}) → Result AuthorityError (Unit {0})
  consumed (ok u) = ok u
  consumed (err (exists _)) = err already_consumed
  consumed (err (store e)) = err e

  pub consume_token :
      ClaimIo → Uuid → ℤ → ℤ → AuthorityStore → Result AuthorityError (Unit {0}) × AuthorityStore
  unfolding claim
  consume_token io token_id now_unix expires_at_unix s =
      let (r, dir) = claim io s.tokens token_id (record {
        kind = "token";
        fingerprint_hex = none;
        consumed_at_unix = now_unix;
        expires_at_unix = expires_at_unix;
      }) in
      (consumed r, record s { tokens = dir })

  pub consume_approval :
      ClaimIo → Uuid → ℤ → ℤ → AuthorityStore → Result AuthorityError (Unit {0}) × AuthorityStore
  unfolding claim
  consume_approval io approval_id now_unix expires_at_unix s =
      let (r, dir) = claim io s.approvals approval_id (record {
        kind = "approval";
        fingerprint_hex = none;
        consumed_at_unix = now_unix;
        expires_at_unix = expires_at_unix;
      }) in
      (consumed r, record s { approvals = dir })

  abbrev bound : String → Result ClaimError (Unit {0}) → Result AuthorityError (Unit {0})
  bound hex (ok u) = ok u
  bound hex (err (exists existing)) = elim existing.fingerprint_hex [
    | some existing_hex ↦
        if existing_hex == hex then err idempotency_replay else err idempotency_conflict
    | none ↦ err corrupt_record
  ]
  bound hex (err (store e)) = err e

  pub bind_idempotency :
      ClaimIo
      → Uuid
      → Bytes
      → ℤ
      → ℤ
      → AuthorityStore
      → Result AuthorityError (Unit {0}) × AuthorityStore
  unfolding claim
  bind_idempotency io key fingerprint now_unix expires_at_unix s =
      let fingerprint_hex = f.hex_encode fingerprint in
      let (r, dir) = claim io s.idempotency key (record {
        kind = "idempotency";
        fingerprint_hex = some fingerprint_hex;
        consumed_at_unix = now_unix;
        expires_at_unix = expires_at_unix;
      }) in
      (bound fingerprint_hex r, record s { idempotency = dir })

  -- One entry of the loop of `purge_expired`: whether it goes, and whether that is counted.
  -- `removable` tells whether the system removes the file of that name.
  abbrev purged : (String → Bool) → ℤ → String → Entry → Bool
  purged removable now_unix name entry =
      if starts_with (codes "tmp-") (codes name)
      then removable name
      else elim (read_record (some entry)) [
        | ok r ↦ leb_ℤ r.expires_at_unix now_unix && removable name
        | err _ ↦ false
      ]

  pub purge_dir : (String → Bool) → ℤ → Dir → Dir × ℕ
  unfolding read_record
  purge_dir removable now_unix [] = ([], 0)
  purge_dir removable now_unix ((name, entry) ∷ dir) =
      let (kept, removed) = purge_dir removable now_unix dir in
      if purged removable now_unix name entry
      then (kept, removed + (if starts_with (codes "tmp-") (codes name) then 0 else 1))
      else ((name, entry) ∷ kept, removed)

  -- A directory that cannot be read ends the call with an error; the directories before it stay
  -- purged.
  pub purge_expired :
      (String → Bool)
      → Bool × Bool × Bool
      → ℤ
      → AuthorityStore
      → Result AuthorityError ℕ × AuthorityStore
  unfolding purge_dir
  purge_expired removable (read_t, read_a, read_i) now_unix s =
      let (tokens, m) = purge_dir removable now_unix s.tokens in
      let (approvals, n) = purge_dir removable now_unix s.approvals in
      let (idempotency, k) = purge_dir removable now_unix s.idempotency in
      if read_t
      then if read_a
        then if read_i
          then (
            ok (m + n + k),
            record { tokens = tokens; approvals = approvals; idempotency = idempotency },
          )
          else (
            err (unavailable "read_dir"),
            record { tokens = tokens; approvals = approvals; idempotency = s.idempotency },
          )
        else (
          err (unavailable "read_dir"),
          record { tokens = tokens; approvals = s.approvals; idempotency = s.idempotency },
        )
      else (err (unavailable "read_dir"), s)
