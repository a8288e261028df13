-- ===== src/Authority/Claims.antt =====
-- One claim: what it publishes, and what it leaves alone.
use soverign_founder_os.Base.{
  sym, ne→==, false≢true, ◌∙◌, ◌≡◌, ◌≢◌, refl, String, true, false, Option, some, none, Result, ok,
  err, arith, ◌==◌, string_eq,
}
use text.Mathlib.TextEquality.{eq_iff}
use soverign_founder_os.Base.Text.{Bytes, codes, starts_with, codes-append, starts_with-append}
use soverign_founder_os.Base.Files.{Entry, file, Dir, lookup, insert, lookup-insert, lookup-remove}
use soverign_founder_os.Contracts.{Uuid}
use soverign_founder_os.Authority.{
  Formats, ClaimIo, WriteOutcome, ClaimError, AuthorityRecord, claim, temp_name, cleanup, written,
  cut_short, not_created, link_claim, publish, write_claim, claim_bytes, consumed, bound,
}

module _ (f : Formats) where
  temp_name-tmp : (t : Uuid) → starts_with (codes "tmp-") (codes (temp_name f t)) ≡ true
  temp_name-tmp t =
      rw (codes-append "tmp-" (f.uuid_text t))
        (starts_with-append (codes "tmp-") (codes (f.uuid_text t)))

  -- A name that is not temporary.
  abbrev pub IsFinal : String → Type 0
  IsFinal name = starts_with (codes "tmp-") (codes name) ≡ false

  IsFinal-ne : (t : Uuid) (name : String) → IsFinal name → (temp_name f t == name) ≡ false
  IsFinal-ne t name h = ne→== {A = String} λ e. false≢true (sym (rw (← e, temp_name-tmp t) at h))

  -- On a final name the temporary file and its removal do not show.
  module _ (io : ClaimIo) (name : String) (final : IsFinal name) where
    lookup-cleanup : (dir : Dir) → lookup name (cleanup f io dir) ≡ lookup name dir
    lookup-cleanup dir =
        ground
          (arith, lookup-remove name (temp_name f io.temp_id) dir, IsFinal-ne io.temp_id name final)

    lookup-temp :
        (e : Entry) (dir : Dir)
        → lookup name (insert (temp_name f io.temp_id) e dir) ≡ lookup name dir
    lookup-temp e dir =
        ground (
          arith,
          lookup-insert name (temp_name f io.temp_id) e dir,
          IsFinal-ne io.temp_id name final,
        )

    publish_frame :
        (dir : Dir) (target : String) (bytes : Bytes) (found : Option Entry) (e : Entry)
        → lookup target dir ≡ found
        → lookup name dir ≡ some e
        → lookup name (publish f io dir target bytes found).1 ≡ some e
    unfolding publish
    publish_frame dir target bytes none e free h =
        lookup-cleanup (insert target (file bytes) dir)
        ∙ ground (arith, lookup-insert name target (file bytes) dir, eq_iff target name)
    publish_frame dir target bytes (some other) e taken h = lookup-cleanup dir ∙ h

    link_claim_frame :
        (dir : Dir) (target : String) (bytes : Bytes) (refusal : Option String) (e : Entry)
        → lookup name dir ≡ some e
        → lookup name (link_claim f io dir target bytes refusal).1 ≡ some e
    unfolding link_claim
    link_claim_frame dir target bytes (some reason) e h = lookup-cleanup dir ∙ h
    link_claim_frame dir target bytes none e h = publish_frame dir target bytes _ e refl h

    write_claim_frame :
        (dir : Dir) (target : String) (bytes : Bytes) (outcome : WriteOutcome) (e : Entry)
        → lookup name dir ≡ some e
        → lookup name (write_claim f io dir target bytes outcome).1 ≡ some e
    unfolding write_claim
    write_claim_frame dir target bytes (not_created reason) e h = lookup-cleanup dir ∙ h
    write_claim_frame dir target bytes (cut_short part reason) e h =
        lookup-cleanup _ ∙ lookup-temp (file part) dir ∙ h
    write_claim_frame dir target bytes written e h =
        link_claim_frame _ target bytes io.link e (lookup-temp (file bytes) dir ∙ h)

    claim_bytes_frame :
        (dir : Dir) (id : Uuid) (v : Result String Bytes) (e : Entry)
        → lookup name dir ≡ some e
        → lookup name (claim_bytes f io dir id v).1 ≡ some e
    unfolding claim_bytes
    claim_bytes_frame dir id (err reason) e h = h
    claim_bytes_frame dir id (ok bytes) e h = write_claim_frame dir _ bytes _ e h

    -- A claim, whatever it claims and however it ends, keeps every entry with a final name.
    pub claim_frame :
        (dir : Dir) (id : Uuid) (r : AuthorityRecord) (e : Entry)
        → lookup name dir ≡ some e
        → lookup name (claim f io dir id r).1 ≡ some e
    unfolding claim
    claim_frame dir id r e h = claim_bytes_frame dir id (f.to_vec r) e h

  -- What a claim that succeeds found and left under its name, and that it fails on a taken name.
  module _ (io : ClaimIo) (id : Uuid) where
    abbrev name : String
    name = f.uuid_text id

    final : IsFinal name
    final = f.uuid_text_no_tmp id

    publish_lem :
        (dir : Dir) (bytes : Bytes) (found : Option Entry)
        → lookup name dir ≡ found
        → (publish f io dir name bytes found).0 ≡ ok tt
        → (lookup name dir ≡ none)
          × (lookup name (publish f io dir name bytes found).1 ≡ some (file bytes))
    unfolding publish
    publish_lem dir bytes none free h = (
      free,
      lookup-cleanup io name final (insert name (file bytes) dir)
          ∙ ground (arith, lookup-insert name name (file bytes) dir, eq_iff name name),
    )
    publish_lem dir bytes (some other) taken h = cc

    link_claim_lem :
        (dir : Dir) (bytes : Bytes) (refusal : Option String)
        → (link_claim f io dir name bytes refusal).0 ≡ ok tt
        → (lookup name dir ≡ none)
          × (lookup name (link_claim f io dir name bytes refusal).1 ≡ some (file bytes))
    unfolding link_claim
    link_claim_lem dir bytes (some reason) h = cc
    link_claim_lem dir bytes none h = publish_lem dir bytes _ refl h

    write_claim_lem :
        (dir : Dir) (bytes : Bytes) (outcome : WriteOutcome)
        → (write_claim f io dir name bytes outcome).0 ≡ ok tt
        → (lookup name dir ≡ none)
          × (lookup name (write_claim f io dir name bytes outcome).1 ≡ some (file bytes))
    unfolding write_claim
    write_claim_lem dir bytes (not_created reason) h = cc
    write_claim_lem dir bytes (cut_short part reason) h = cc
    write_claim_lem dir bytes written h =
        let (free, filled) = link_claim_lem _ bytes io.link h in
        (sym (lookup-temp io name final (file bytes) dir) ∙ free, filled)

    claim_bytes_lem :
        (dir : Dir) (v : Result String Bytes)
        → (claim_bytes f io dir id v).0 ≡ ok tt
        → (lookup name dir ≡ none)
          × ((bytes : Bytes) × (v ≡ ok bytes)
              × (lookup name (claim_bytes f io dir id v).1 ≡ some (file bytes)))
    unfolding claim_bytes
    claim_bytes_lem dir (err reason) h = cc
    claim_bytes_lem dir (ok bytes) h =
        let (free, filled) = write_claim_lem dir bytes _ h in (free, (bytes, refl, filled))

    -- A claim that succeeds found its name free and has left its whole record there.
    pub claim_publishes :
        (dir : Dir) (r : AuthorityRecord)
        → (claim f io dir id r).0 ≡ ok tt
        → (lookup name dir ≡ none)
          × ((bytes : Bytes) × (f.to_vec r ≡ ok bytes)
              × (lookup name (claim f io dir id r).1 ≡ some (file bytes)))
    unfolding claim
    claim_publishes dir r h = claim_bytes_lem dir (f.to_vec r) h

    -- A claim of a name that exists fails.
    pub claim_taken :
        (dir : Dir) (r : AuthorityRecord) (e : Entry)
        → lookup name dir ≡ some e
        → (claim f io dir id r).0 ≢ ok tt
    claim_taken dir r e h won = let (free, _) = claim_publishes dir r won in cc (free, h)

  pub consumed-ok : (r : Result ClaimError (Unit {0})) → consumed f r ≡ ok tt → r ≡ ok tt
  consumed-ok r h = ground arith

  pub bound-ok :
      (hex : String) (r : Result ClaimError (Unit {0})) → bound f hex r ≡ ok tt → r ≡ ok tt
  bound-ok hex r h = ground arith
