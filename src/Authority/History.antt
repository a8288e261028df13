-- ===== src/Authority/History.antt =====
-- One use over any history: no second success before the recorded expiry, whatever else happens.
use soverign_founder_os.Base.{
  ◌⊎◌, inl, inr, ◌>>=◌, ◌≡◌, ◌≢◌, String, Bool, some, List, [], ◌∷◌, Result, ok, arith, All,
}
use soverign_founder_os.Base.Int.{ℤ, ◌<ℤ◌}
use soverign_founder_os.Base.Text.{Bytes}
use soverign_founder_os.Base.Files.{Entry, Dir, file, lookup}
use soverign_founder_os.Contracts.{Uuid}
use soverign_founder_os.Authority.{
  Formats, ClaimIo, AuthorityRecord, AuthorityStore, AuthorityError, read_record, consume_token,
  consume_approval, bind_idempotency, purge_expired, purge_dir,
}
use soverign_founder_os.Authority.Claims.{
  claim_frame, claim_publishes, claim_taken, consumed-ok, bound-ok,
}
use soverign_founder_os.Authority.Purge.{purge_dir_keeps, purge_expired_dirs}

-- What the processes that share the directory do to it, in the order of their links and removals.
pub data Op : Type 0 where
  token approval : ClaimIo → Uuid → ℤ → ℤ → Op
  idempotency : ClaimIo → Uuid → Bytes → ℤ → ℤ → Op
  purge : (String → Bool) → Bool × Bool × Bool → ℤ → Op

pub data Kind : Type 0 where
  tokens approvals keys : Kind

abbrev pub dir_of : Kind → AuthorityStore → Dir
dir_of tokens s = s.tokens
dir_of approvals s = s.approvals
dir_of keys s = s.idempotency

abbrev pub claim_op : Kind → ClaimIo → Uuid → Bytes → ℤ → ℤ → Op
claim_op tokens io id fp now exp = token io id now exp
claim_op approvals io id fp now exp = approval io id now exp
claim_op keys io id fp now exp = idempotency io id fp now exp

-- Purges run only while the clock is before `expiry`.
abbrev pub PurgesBefore : ℤ → Op → Type 0
PurgesBefore expiry (purge removable readable now) = now <ℤ expiry
PurgesBefore expiry _ = Unit

module _ (f : Formats) where
  abbrev pub run : Op → AuthorityStore → Result AuthorityError (Unit {0}) × AuthorityStore
  run (token io id now exp) s = consume_token f io id now exp s
  run (approval io id now exp) s = consume_approval f io id now exp s
  run (idempotency io key fp now exp) s = bind_idempotency f io key fp now exp s
  run (purge removable readable now) s =
      let (r, after) = purge_expired f removable readable now s in (r >>= λ _. ok tt, after)

  pub run_all : AuthorityStore → List Op → AuthorityStore
  run_all s [] = s
  run_all s (op ∷ ops) = run_all (run op s).1 ops

  -- The record of an authority is published and says that it expires then.
  record IsConsumed (kind : Kind) (id : Uuid) (expiry : ℤ) (s : AuthorityStore) : Type 0 where
    entry : Entry
    found : lookup (f.uuid_text id) (dir_of kind s) ≡ some entry
    expires : (r : AuthorityRecord) → read_record f (some entry) ≡ ok r → r.expires_at_unix ≡ expiry

  module _ (id : Uuid) (expiry : ℤ) where
    -- what is written is what is read back
    read_back :
        (r : AuthorityRecord) (bytes : Bytes)
        → f.to_vec r ≡ ok bytes
        → (r' : AuthorityRecord) → read_record f (some (file bytes)) ≡ ok r'
        → r'.expires_at_unix ≡ r.expires_at_unix
    unfolding read_record
    read_back r bytes e r' h = ground (arith, f.from-to r bytes e)

    claim_op-IsConsumed :
        (kind : Kind) (io : ClaimIo) (fp : Bytes) (now : ℤ) (s : AuthorityStore)
        → (run (claim_op kind io id fp now expiry) s).0 ≡ ok tt
        → IsConsumed kind id expiry (run (claim_op kind io id fp now expiry) s).1
    unfolding consume_token consume_approval bind_idempotency
    claim_op-IsConsumed tokens io fp now s h =
        let (_, (bytes, e, filled)) = claim_publishes f io id s.tokens _ (ground arith) in
        record { entry = file bytes; found = filled; expires = read_back _ bytes e }
    claim_op-IsConsumed approvals io fp now s h =
        let (_, (bytes, e, filled)) = claim_publishes f io id s.approvals _ (ground arith) in
        record { entry = file bytes; found = filled; expires = read_back _ bytes e }
    claim_op-IsConsumed keys io fp now s h =
        let (_, (bytes, e, filled)) = claim_publishes f io id s.idempotency _ (ground arith) in
        record { entry = file bytes; found = filled; expires = read_back _ bytes e }

    kept :
        {kind : Kind} {s s' : AuthorityStore} (c : IsConsumed kind id expiry s)
        → lookup (f.uuid_text id) (dir_of kind s') ≡ some c.entry
        → IsConsumed kind id expiry s'
    kept c found = record { entry = c.entry; found = found; expires = c.expires }

    -- one directory, purged or left as it was
    purged_or_same :
        (removable : String → Bool) (now : ℤ) (dir after : Dir) (e : Entry)
        → now <ℤ expiry
        → ((r : AuthorityRecord) → read_record f (some e) ≡ ok r → r.expires_at_unix ≡ expiry)
        → (after ≡ dir) ⊎ (after ≡ (purge_dir f removable now dir).0)
        → lookup (f.uuid_text id) dir ≡ some e
        → lookup (f.uuid_text id) after ≡ some e
    purged_or_same removable now dir after e before expires (inl same) found = rw same found
    purged_or_same removable now dir after e before expires (inr purged) found = rw purged (
        purge_dir_keeps f removable now dir _ e (f.uuid_text_no_tmp id)
          (λ r h. rw (expires r h) before) found)

    purge-IsConsumed :
        (kind : Kind) (removable : String → Bool) (readable : Bool × Bool × Bool) (now : ℤ)
        (s : AuthorityStore)
        → now <ℤ expiry
        → IsConsumed kind id expiry s
        → IsConsumed kind id expiry (purge_expired f removable readable now s).1
    purge-IsConsumed kind removable readable now s before c = kept c (
        purged_or_same removable now (dir_of kind s) _ c.entry before c.expires (dirs kind) c.found)
      where
        dirs :
            (k : Kind)
            → let after = dir_of k (purge_expired f removable readable now s).1 in
              (after ≡ dir_of k s) ⊎ (after ≡ (purge_dir f removable now (dir_of k s)).0)
        dirs tokens = (purge_expired_dirs f removable now readable s).0
        dirs approvals = (purge_expired_dirs f removable now readable s).1
        dirs keys = (purge_expired_dirs f removable now readable s).2

    run-IsConsumed :
        (kind : Kind) (op : Op) (s : AuthorityStore)
        → PurgesBefore expiry op
        → IsConsumed kind id expiry s
        → IsConsumed kind id expiry (run op s).1
    unfolding consume_token consume_approval bind_idempotency
    run-IsConsumed tokens (token io u now exp) s before c =
        kept c (claim_frame f io _ (f.uuid_text_no_tmp id) s.tokens u _ c.entry c.found)
    run-IsConsumed approvals (token io u now exp) s before c = kept c c.found
    run-IsConsumed keys (token io u now exp) s before c = kept c c.found
    run-IsConsumed tokens (approval io u now exp) s before c = kept c c.found
    run-IsConsumed approvals (approval io u now exp) s before c =
        kept c (claim_frame f io _ (f.uuid_text_no_tmp id) s.approvals u _ c.entry c.found)
    run-IsConsumed keys (approval io u now exp) s before c = kept c c.found
    run-IsConsumed tokens (idempotency io u fp now exp) s before c = kept c c.found
    run-IsConsumed approvals (idempotency io u fp now exp) s before c = kept c c.found
    run-IsConsumed keys (idempotency io u fp now exp) s before c =
        kept c (claim_frame f io _ (f.uuid_text_no_tmp id) s.idempotency u _ c.entry c.found)
    run-IsConsumed kind (purge removable readable now) s before c =
        purge-IsConsumed kind removable readable now s before c

    taken_fails :
        (kind : Kind) (io : ClaimIo) (fp : Bytes) (now exp : ℤ) (s : AuthorityStore)
        → IsConsumed kind id expiry s
        → (run (claim_op kind io id fp now exp) s).0 ≢ ok tt
    unfolding consume_token consume_approval bind_idempotency
    taken_fails tokens io fp now exp s c h =
        claim_taken f io id s.tokens _ c.entry c.found (consumed-ok f _ h)
    taken_fails approvals io fp now exp s c h =
        claim_taken f io id s.approvals _ c.entry c.found (consumed-ok f _ h)
    taken_fails keys io fp now exp s c h =
        claim_taken f io id s.idempotency _ c.entry c.found (bound-ok f _ _ h)

    run_all-IsConsumed :
        (kind : Kind) (s : AuthorityStore) (ops : List Op)
        → All (PurgesBefore expiry) ops
        → IsConsumed kind id expiry s
        → IsConsumed kind id expiry (run_all s ops)
    unfolding run_all
    run_all-IsConsumed kind s [] before c = c
    run_all-IsConsumed kind s (op ∷ ops) before c =
        run_all-IsConsumed kind (run op s).1 ops before.1 (run-IsConsumed kind op s before.0 c)

    -- Once a claim of a token, an approval or an idempotency key has succeeded, no claim of that id
    -- succeeds again, after any claims and purges by any processes, with any failures of the file
    -- system, as long as no purge runs with a clock at or past the recorded expiry.
    pub no_second_use :
        (kind : Kind) (io io' : ClaimIo) (fp fp' : Bytes) (now now' exp' : ℤ) (s : AuthorityStore)
        (ops : List Op)
        → (run (claim_op kind io id fp now expiry) s).0 ≡ ok tt
        → All (PurgesBefore expiry) ops
        → (run
            (claim_op kind io' id fp' now' exp')
            (run_all (run (claim_op kind io id fp now expiry) s).1 ops)).0
          ≢ ok tt
    no_second_use kind io io' fp fp' now now' exp' s ops first before =
        taken_fails kind io' fp' now' exp' _
          (run_all-IsConsumed kind _ ops before (claim_op-IsConsumed kind io fp now s first))
