-- ===== src/Ledger/Tests.antt =====
-- The theorems on crates/audit-ledger at concrete ledgers.
use soverign_founder_os.Base.{
  ℕ, ◌≡◌, refl, String, some, none, [], ◌∷◌, ◌↔◌, ◌⊎◌, inl, map, ok, err,
}
use soverign_founder_os.Base.Int.{pos}
use soverign_founder_os.Base.Text.{Bytes}
use soverign_founder_os.External.Toy.{toy_crypto}
use soverign_founder_os.Identity.Device.{DeviceIdentity, IsDevice}
use soverign_founder_os.Identity.Toy.{toy_device}
use soverign_founder_os.Ledger.{
  AuditLedger, AppendInput, new_ledger, genesis_hash, append, from_events, load, save,
  device_mismatch,
}
use soverign_founder_os.Ledger.Chain.{IsChain, from_events-IsChain}
use soverign_founder_os.Ledger.Append.{
  IsValid, append-IsValid, IsExtended, IsOther, append_only, Call, append_all, load-save,
}
use soverign_founder_os.Ledger.Tamper.{unsigned_event, Collision, GenesisPreimage, tamper_evident}
use soverign_founder_os.Ledger.Toy.{toy_json, written_bytes}

abbrev note : AppendInput ℕ
note = record {
  venture_id = "v";
  actor_id = "founder";
  action = "created";
  resource = "notes";
  capability_id = none;
  payload = 3;
  policy_decision_hash = none;
}

abbrev call : ℕ → Call {Value = ℕ} toy_crypto toy_json
call id = record { event_id = id; now = pos 10; input = note; device = toy_device }

abbrev two : AuditLedger
two = append_all toy_crypto toy_json new_ledger (call 1 ∷ call 2 ∷ [])

append-IsValid_example :
    IsValid toy_crypto toy_json (append toy_crypto toy_json 1 (pos 10) note toy_device new_ledger).1
append-IsValid_example =
    append-IsValid toy_crypto toy_json 1 (pos 10) note toy_device new_ledger refl (inl (refl, refl))

append_only_example :
    IsExtended toy_crypto toy_json 1
      (pos 10)
      note
      toy_device
      new_ledger
      (append toy_crypto toy_json 1 (pos 10) note toy_device new_ledger)
    × (((append toy_crypto toy_json 1 (pos 10) note toy_device new_ledger).0 ≡ err device_mismatch)
        ↔ IsOther toy_crypto toy_json 1 (pos 10) note toy_device none)
append_only_example = append_only toy_crypto toy_json 1 (pos 10) note toy_device new_ledger

from_events-IsChain_example :
    (from_events toy_crypto toy_json [] "key"
      ≡ ok (record { events = []; trusted_device_public_key_b64 = some "key" }))
    ↔ IsChain toy_crypto toy_json "key" genesis_hash []
from_events-IsChain_example = from_events-IsChain toy_crypto toy_json "key" []

abbrev key : String
key = toy_device.public_key_b64

abbrev one : AuditLedger
one = append_all toy_crypto toy_json new_ledger (call 1 ∷ [])

one_trusted : one.trusted_device_public_key_b64 ≡ some key
unfolding append_all append
one_trusted = refl

abbrev bytes : Bytes
bytes = written_bytes one.events

one_saved : save toy_crypto toy_json one ≡ ok bytes
unfolding save
one_saved = refl

load-save_example : load toy_crypto toy_json bytes key ≡ ok one
load-save_example =
    load-save toy_crypto toy_json (call 1 ∷ []) key bytes (refl, tt) one_trusted one_saved

one_loaded :
    from_events toy_crypto toy_json one.events key
    ≡ ok (record { events = one.events; trusted_device_public_key_b64 = some key })
unfolding append_all append load from_events soverign_founder_os.Identity.Device.sign_legacy_v1
one_loaded = load-save toy_crypto toy_json (call 1 ∷ []) key bytes (refl, tt) one_trusted one_saved

one-IsChain : IsChain toy_crypto toy_json key genesis_hash one.events
one-IsChain = (from_events-IsChain toy_crypto toy_json key one.events).0 one_loaded

tamper_evident_example :
    (map unsigned_event one.events ≡ map unsigned_event one.events)
    ⊎ Collision toy_crypto toy_json one.events one.events
    ⊎ GenesisPreimage toy_crypto toy_json one.events one.events
tamper_evident_example =
    tamper_evident toy_crypto toy_json key key one.events one.events one-IsChain one-IsChain refl
