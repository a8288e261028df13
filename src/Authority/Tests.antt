-- ===== src/Authority/Tests.antt =====
-- The theorems on crates/authority at concrete stores.
use soverign_founder_os.Base.{
  ◌≡◌, ◌≢◌, refl, true, some, none, List, [], ◌∷◌, ok, arith, nat_eq, string_eq,
}
use soverign_founder_os.Base.Int.{pos, ◌<ℤ◌}
use soverign_founder_os.Base.Text.{Bytes}
use soverign_founder_os.Base.Files.{Entry, file, Dir, lookup, insert}
use soverign_founder_os.Authority.{
  AuthorityRecord, AuthorityStore, claim, purge_dir, read_record, consume_token,
}
use soverign_founder_os.Authority.Toy.{toy_formats, io}
use soverign_founder_os.Authority.Claims.{claim_frame, claim_publishes}
use soverign_founder_os.Authority.Purge.{purge_dir_keeps}
use soverign_founder_os.Authority.History.{
  Op, token, purge, tokens, claim_op, run, run_all, no_second_use,
}

abbrev spent : AuthorityRecord
spent = record {
  kind = "token";
  fingerprint_hex = none;
  consumed_at_unix = pos 10;
  expires_at_unix = pos 100;
}

abbrev empty : AuthorityStore
empty = record { tokens = []; approvals = []; idempotency = [] }

abbrev entry : Entry
entry = file (10 ∷ 100 ∷ [])

-- One token consumed.
abbrev dir : Dir
dir = ("one", entry) ∷ []

found : lookup "one" dir ≡ some entry
unfolding lookup
found = refl

claim_frame_example : lookup "one" (claim toy_formats io dir 2 spent).1 ≡ some entry
claim_frame_example = claim_frame toy_formats io "one" refl dir 2 spent entry found

claimed : (claim toy_formats io [] 1 spent).0 ≡ ok tt
unfolding claim lookup insert
claimed = refl

claim_publishes_example :
    (lookup "one" [] ≡ none)
    × ((bytes : Bytes) × (toy_formats.to_vec spent ≡ ok bytes)
        × (lookup "one" (claim toy_formats io [] 1 spent).1 ≡ some (file bytes)))
claim_publishes_example = claim_publishes toy_formats io 1 [] spent claimed

valid :
    (r : AuthorityRecord)
    → read_record toy_formats (some entry) ≡ ok r
    → pos 50 <ℤ r.expires_at_unix
unfolding read_record
valid r h = ground arith

purge_dir_keeps_example :
    lookup "one" (purge_dir toy_formats (λ name. true) (pos 50) dir).0 ≡ some entry
purge_dir_keeps_example =
    purge_dir_keeps toy_formats (λ name. true) (pos 50) dir "one" entry refl valid found

first : (run toy_formats (claim_op tokens io 1 [] (pos 10) (pos 100)) empty).0 ≡ ok tt
unfolding consume_token lookup insert
first = refl

-- A claim of another token and a purge stand between the two claims.
abbrev between : List Op
between = token io 2 (pos 20) (pos 30) ∷ purge (λ name. true) (true, true, true) (pos 50) ∷ []

no_second_use_example :
    (run toy_formats (claim_op tokens io 1 [] (pos 60) (pos 200)) (
      run_all toy_formats
        (run toy_formats (claim_op tokens io 1 [] (pos 10) (pos 100)) empty).1
        between)).0
    ≢ ok tt
no_second_use_example =
    no_second_use toy_formats 1 (pos 100) tokens io io [] [] (pos 10) (pos 60) (pos 200) empty
      between first (tt, (ground arith, tt))
