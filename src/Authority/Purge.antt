-- ===== src/Authority/Purge.antt =====
-- `purge_expired` removes temporaries and expired records, and nothing that is still valid.
use soverign_founder_os.Base.{
  ◌≡◌, refl, String, Bool, true, false, some, [], ◌∷◌, Result, ok, err, arith, ◌==◌, string_eq,
  ==-eq, Bool-cases, inl, inr, sym, subst, ◌⊎◌, ◌&&◌,
}
use soverign_founder_os.Base.Int.{ℤ, ◌<ℤ◌, leb_ℤ}
use soverign_founder_os.Base.Files.{Entry, Dir, lookup}
use soverign_founder_os.Authority.{
  Formats, AuthorityError, AuthorityRecord, read_record, purged, purge_dir, purge_expired,
  AuthorityStore,
}
use soverign_founder_os.Authority.Claims.{IsFinal}

module _ (f : Formats) (removable : String → Bool) (now_unix : ℤ) where
  not_purged :
      (name : String) (e : Entry)
      → IsFinal f name
      → ((r : AuthorityRecord) → read_record f (some e) ≡ ok r → now_unix <ℤ r.expires_at_unix)
      → purged f removable now_unix name e ≡ false
  not_purged name e final valid = rw final (by_record (read_record f (some e)) valid)
    where
      by_record :
          (v : Result AuthorityError AuthorityRecord)
          → ((r : AuthorityRecord) → v ≡ ok r → now_unix <ℤ r.expires_at_unix)
          → elim v [ ok r ↦ leb_ℤ r.expires_at_unix now_unix && removable name | err _ ↦ false ]
            ≡ false
      by_record (err reason) later = refl
      by_record (ok r) later = let late = later r refl in ground arith

  -- An entry under a final name that is not an expired record is kept, whatever else is in the
  -- directory and whichever files the system refuses to remove.
  pub purge_dir_keeps :
      (dir : Dir) (name : String) (e : Entry)
      → IsFinal f name
      → ((r : AuthorityRecord) → read_record f (some e) ≡ ok r → now_unix <ℤ r.expires_at_unix)
      → lookup name dir ≡ some e
      → lookup name (purge_dir f removable now_unix dir).0 ≡ some e
  unfolding lookup purge_dir
  purge_dir_keeps [] name e final valid h = cc
  purge_dir_keeps ((n, d) ∷ dir) name e final valid h = elim (Bool-cases (n == name)) [
    | inr differ ↦ ground (arith, purge_dir_keeps dir name e final valid)
    | inl same ↦
        let entry : e ≡ d = ground arith in
        let kept : purged f removable now_unix n d ≡ false =
          subst (λ (x : String). purged f removable now_unix x d ≡ false) (sym (==-eq same))
            (subst (λ (x : Entry). purged f removable now_unix name x ≡ false) entry
              (not_purged name e final valid)) in
        rw kept (ground arith)
  ]

  -- A purge leaves each directory as it was, or purges it.
  pub purge_expired_dirs :
      (readable : Bool × Bool × Bool) (s : AuthorityStore)
      → let after = (purge_expired f removable readable now_unix s).1 in
        let gone = λ (dir : Dir). (purge_dir f removable now_unix dir).0 in
        ((after.tokens ≡ s.tokens) ⊎ (after.tokens ≡ gone s.tokens))
        × ((after.approvals ≡ s.approvals) ⊎ (after.approvals ≡ gone s.approvals))
        × ((after.idempotency ≡ s.idempotency) ⊎ (after.idempotency ≡ gone s.idempotency))
  unfolding purge_expired
  purge_expired_dirs (true, true, true) s = (inr refl, inr refl, inr refl)
  purge_expired_dirs (true, true, false) s = (inr refl, inr refl, inl refl)
  purge_expired_dirs (true, false, r) s = (inr refl, inl refl, inl refl)
  purge_expired_dirs (false, q, r) s = (inl refl, inl refl, inl refl)
