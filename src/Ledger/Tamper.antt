-- ===== src/Ledger/Tamper.antt =====
-- Two histories that end in the same hash are the same history, unless the hash function is broken.
use mathlib.Core.Option.{some-injective}
use soverign_founder_os.Base.{
  ◌≡◌, ◌≢◌, refl, sym, ap, ◌∙◌, ◌⊎◌, inl, inr, String, List, [], ◌∷◌, ◌++◌, map, append-nil,
  ℕ_discrete, Elem, none,
}
use soverign_founder_os.Base.Text.{Bytes}
use soverign_founder_os.Contracts.{AuditEvent, AuditEventBody, event_body}
use soverign_founder_os.External.{Crypto}
use soverign_founder_os.Ledger.{Json, genesis_hash, last_hash_from}
use soverign_founder_os.Ledger.Chain.{IsLink, IsChain, start, link}

-- The reverse of the second list in front of the first.
rev_onto {ℓ} : {A : Type ℓ} → List A → List A → List A
rev_onto acc [] = acc
rev_onto acc (x ∷ xs) = rev_onto (x ∷ acc) xs

rev_onto-rev_onto {ℓ} :
    {A : Type ℓ} (b acc xs : List A) → rev_onto b (rev_onto acc xs) ≡ rev_onto (xs ++ b) acc
unfolding rev_onto
rev_onto-rev_onto b acc [] = refl
rev_onto-rev_onto b acc (x ∷ xs) = rev_onto-rev_onto b (x ∷ acc) xs

map-rev_onto {ℓ κ} :
    {A : Type ℓ} {B : Type κ} (f : A → B) (acc xs : List A)
    → map f (rev_onto acc xs) ≡ rev_onto (map f acc) (map f xs)
unfolding rev_onto
map-rev_onto f acc [] = refl
map-rev_onto f acc (x ∷ xs) = map-rev_onto f (x ∷ acc) xs

rev_onto-injective {ℓ} : {A : Type ℓ} (xs ys : List A) → rev_onto [] xs ≡ rev_onto [] ys → xs ≡ ys
unfolding rev_onto
rev_onto-injective xs ys h =
    sym (append-nil xs)
    ∙ sym (rev_onto-rev_onto [] [] xs)
    ∙ ap (rev_onto []) h
    ∙ rev_onto-rev_onto [] [] ys
    ∙ append-nil ys

Elem-rev_onto :
    {A : Type 0} (a : A) (acc xs : List A) → Elem a (rev_onto acc xs) → Elem a acc ⊎ Elem a xs
unfolding rev_onto
Elem-rev_onto a acc [] m = inl m
Elem-rev_onto a acc (x ∷ xs) m = elim (Elem-rev_onto a (x ∷ acc) xs m) [
  | inl (inl here) ↦ inr (inl here)
  | inl (inr before) ↦ inl before
  | inr after ↦ inr (inr after)
]

Elem-reverse : {A : Type 0} (a : A) (xs : List A) → Elem a (rev_onto [] xs) → Elem a xs
Elem-reverse a xs m = elim (Elem-rev_onto a [] xs m) [
  | inl none_left ↦ elim none_left [ ]
  | inr there ↦ there
]

Bytes-discrete : Discrete Bytes
Bytes-discrete = hlevel ℕ_discrete

-- An event without its signature.
abbrev pub unsigned_event : AuditEvent → AuditEvent
unsigned_event event = record event { device_signature = none }

abbrev event_of : AuditEventBody → String → AuditEvent
event_of body hash = record {
  event_id = body.event_id;
  venture_id = body.venture_id;
  actor_id = body.actor_id;
  action = body.action;
  resource = body.resource;
  capability_id = body.capability_id;
  timestamp = body.timestamp;
  payload_hash = body.payload_hash;
  previous_event_hash = body.previous_event_hash;
  policy_decision_hash = body.policy_decision_hash;
  device_public_key_b64 = body.device_public_key_b64;
  event_hash = hash;
  device_signature = none;
}

same_event :
    (a b : AuditEvent)
    → event_body a ≡ event_body b
    → a.event_hash ≡ b.event_hash
    → unsigned_event a ≡ unsigned_event b
same_event a b bodies hashes = λ i. event_of (bodies i) (hashes i)

module _ {Value : Type 0} (c : Crypto) (j : Json Value) where
  -- the bytes of an event that are hashed, and their hash
  abbrev pub body_bytes : AuditEvent → Bytes
  body_bytes event = j.body_to_vec (event_body event)

  abbrev pub hex_hash : Bytes → String
  hex_hash bytes = c.hex_encode (c.sha256 bytes)

  -- Two events, one of each history, have different bytes with one hash.
  pub record Collision (es fs : List AuditEvent) : Type 0 where
    pub left : AuditEvent
    pub right : AuditEvent
    pub in_left : Elem left es
    pub in_right : Elem right fs
    pub differ : body_bytes left ≢ body_bytes right
    pub collide : hex_hash (body_bytes left) ≡ hex_hash (body_bytes right)

  -- The bytes of an event of one of the histories hash to the genesis hash.
  pub record GenesisPreimage (es fs : List AuditEvent) : Type 0 where
    pub event : AuditEvent
    pub there : Elem event es ⊎ Elem event fs
    pub preimage : hex_hash (body_bytes event) ≡ genesis_hash

  body_to_vec-injective : (a b : AuditEventBody) → j.body_to_vec a ≡ j.body_to_vec b → a ≡ b
  body_to_vec-injective a b h =
      some-injective _ _ (sym (j.body_from-to a) ∙ ap j.body_from_slice h ∙ j.body_from-to b)

  abbrev head_hash : List AuditEvent → String
  head_hash [] = genesis_hash
  head_hash (e ∷ es) = e.event_hash

  -- A chain, the last event first.
  abbrev IsBackChain : String → List AuditEvent → Type 0
  IsBackChain key [] = Unit
  IsBackChain key (e ∷ es) = IsLink c j key (head_hash es) e × IsBackChain key es

  back_chain :
      (key : String) (acc es : List AuditEvent)
      → IsBackChain key acc
      → IsChain c j key (head_hash acc) es
      → IsBackChain key (rev_onto acc es)
  unfolding rev_onto
  back_chain key acc [] done start = done
  back_chain key acc (e ∷ es) done (link l rest) = back_chain key (e ∷ acc) es (l, done) rest

  last_hash-rev_onto :
      (acc es : List AuditEvent) → last_hash_from (head_hash acc) es ≡ head_hash (rev_onto acc es)
  unfolding rev_onto
  last_hash-rev_onto acc [] = refl
  last_hash-rev_onto acc (e ∷ es) = last_hash-rev_onto (e ∷ acc) es

  -- the events are the same, but for their signatures, or the hash is broken on them
  abbrev Outcome : List AuditEvent → List AuditEvent → Type 0
  Outcome es fs =
      (map unsigned_event es ≡ map unsigned_event fs) ⊎ Collision es fs ⊎ GenesisPreimage es fs

  extend :
      (e f : AuditEvent) (es fs : List AuditEvent)
      → unsigned_event e ≡ unsigned_event f
      → Outcome es fs
      → Outcome (e ∷ es) (f ∷ fs)
  extend e f es fs same (inl rest) = inl (λ i. same i ∷ rest i)
  extend e f es fs same (inr (inl x)) = inr (
      inl (record {
        left = x.left;
        right = x.right;
        in_left = inr x.in_left;
        in_right = inr x.in_right;
        differ = x.differ;
        collide = x.collide;
      }))
  extend e f es fs same (inr (inr x)) = inr (
      inr (record {
        event = x.event;
        there = elim x.there [ inl m ↦ inl (inr m) | inr m ↦ inr (inr m) ];
        preimage = x.preimage;
      }))

  same_back :
      (k l : String) (es fs : List AuditEvent)
      → IsBackChain k es
      → IsBackChain l fs
      → head_hash es ≡ head_hash fs
      → Outcome es fs
  same_back k l [] [] p q h = inl refl
  same_back k l [] (f ∷ fs) p q h =
      inr (inr (record { event = f; there = inr (inl refl); preimage = q.0.hashed ∙ sym h }))
  same_back k l (e ∷ es) [] p q h =
      inr (inr (record { event = e; there = inl (inl refl); preimage = p.0.hashed ∙ h }))
  same_back k l (e ∷ es) (f ∷ fs) p q h = elim (Bytes-discrete (body_bytes e) (body_bytes f)) [
    | no differ ↦ inr (
        inl (record {
          left = e;
          right = f;
          in_left = inl refl;
          in_right = inl refl;
          differ = differ;
          collide = p.0.hashed ∙ h ∙ sym q.0.hashed;
        }))
    | yes same ↦
        let bodies = body_to_vec-injective (event_body e) (event_body f) same in
        extend e f es fs (same_event e f bodies h) (
          same_back k l es fs p.1 q.1
            (sym p.0.follows ∙ ap (λ b. b.previous_event_hash) bodies ∙ q.0.follows))
  ]

  forwards : (es fs : List AuditEvent) → Outcome (rev_onto [] es) (rev_onto [] fs) → Outcome es fs
  forwards es fs (inl same) = inl (
      rev_onto-injective _ _
        (sym (map-rev_onto unsigned_event [] es) ∙ same ∙ map-rev_onto unsigned_event [] fs))
  forwards es fs (inr (inl x)) = inr (
      inl (record {
        left = x.left;
        right = x.right;
        in_left = Elem-reverse _ es x.in_left;
        in_right = Elem-reverse _ fs x.in_right;
        differ = x.differ;
        collide = x.collide;
      }))
  forwards es fs (inr (inr x)) = inr (
      inr (record {
        event = x.event;
        there = elim x.there [
          | inl m ↦ inl (Elem-reverse _ es m)
          | inr m ↦ inr (Elem-reverse _ fs m)
        ];
        preimage = x.preimage;
      }))

  -- Two verified histories, of any lengths and under any keys, that end in the same hash have the
  -- same events in the same order, all fields but the signatures; or else the hash is broken on them:
  -- an event of the one and an event of the other have different encoded bodies with one hexadecimal
  -- SHA-256, or the encoded body of an event of one of them hashes to the 64 zeros of the genesis.
  pub tamper_evident :
      (k l : String) (es fs : List AuditEvent)
      → IsChain c j k genesis_hash es
      → IsChain c j l genesis_hash fs
      → last_hash_from genesis_hash es ≡ last_hash_from genesis_hash fs
      → (map unsigned_event es ≡ map unsigned_event fs) ⊎ Collision es fs ⊎ GenesisPreimage es fs
  tamper_evident k l es fs p q h = forwards es fs (
      same_back k l (rev_onto [] es) (rev_onto [] fs) (back_chain k [] es tt p)
        (back_chain l [] fs tt q) (sym (last_hash-rev_onto [] es) ∙ h ∙ last_hash-rev_onto [] fs))
