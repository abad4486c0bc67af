-- ===== src/Channels/Artifacts/Receipts.antt =====
-- The receipts in the metadata of a message, as they are appended.
use imcodex.Prelude.{
  String, ◌≡◌, refl, sym, ap, Bool, true, false, Option, none, some, List, [], ◌∷◌, ◌++◌, arith,
  ◌==◌, string_eq, if◌then◌else◌, Bool-cases, inl, inr, beq_refl, subst,
}
use imcodex.Models.Json.{Json}
use imcodex.Models.{Fields, Items, end, field, nil, cons, null, bool, num, str, arr, obj, get_field}
use imcodex.Models.Messages.{OutboundArtifact, OutboundMessage}
use imcodex.Bridge.Delivery.Payload.{text_field}
use imcodex.Bridge.Delivery.Direct.{put_field}
use imcodex.Channels.Artifacts.{
  ArtifactDeliveryReceipt, append_found, note_found, append_item, append_to, note_failures,
  append_artifact_failures, record_artifact_delivery, record_artifact_failure, add_missing,
}

-- The receipts of a message: nothing is there, or a list
abbrev pub listed : Option Json → Bool
listed none = true
listed (some (arr _)) = true
listed _ = false

abbrev pub is_listed : OutboundMessage → Bool
is_listed message = listed (get_field message.metadata "artifact_receipts")

abbrev items_of : Option Json → Items
items_of (some (arr items)) = items
items_of _ = nil

-- The paths that the receipts name, each with its status
abbrev entries : Items → List (String × String)
entries nil = []
entries (cons (obj d) items) = (text_field "local_path" d, text_field "status" d) ∷ entries items
entries (cons _ items) = entries items

abbrev pub receipts : OutboundMessage → List (String × String)
receipts message = entries (items_of (get_field message.metadata "artifact_receipts"))

entries-append_item :
    (items : Items) (d : Fields)
    → entries (append_item items (obj d))
      ≡ entries items ++ (text_field "local_path" d, text_field "status" d) ∷ []
entries-append_item nil d = refl
entries-append_item (cons (obj e) items) d =
    ap (λ es. (text_field "local_path" e, text_field "status" e) ∷ es) (entries-append_item items d)
entries-append_item (cons null items) d = entries-append_item items d
entries-append_item (cons (bool b) items) d = entries-append_item items d
entries-append_item (cons (num n) items) d = entries-append_item items d
entries-append_item (cons (str s) items) d = entries-append_item items d
entries-append_item (cons (arr a) items) d = entries-append_item items d

get_field-put_field :
    (name : String) (value : Json) (d : Fields)
    → get_field (put_field name value d) name ≡ some value
unfolding get_field put_field
get_field-put_field name value end = rw (beq_refl name) refl
get_field-put_field name value (field k v d) = elim (Bool-cases (k == name)) [
  | inl h ↦ rw (h, get_field, h) refl
  | inr h ↦ rw (h, get_field, h) (get_field-put_field name value d)
]

get_field-put_field_other :
    (name other : String) (value : Json) (d : Fields)
    → (name == other) ≡ false
    → get_field (put_field name value d) other ≡ get_field d other
unfolding get_field put_field
get_field-put_field_other name other value end e = rw e refl
get_field-put_field_other name other value (field k v d) e = elim (Bool-cases (k == name)) [
  | inl h ↦
      let apart : (k == other) ≡ false =
        subst (λ (n : String). (n == other) ≡ false) (sym ((string_eq.beq_iff k name).0 h)) e in
      rw (h, get_field, apart) refl
  | inr h ↦
      rw (h, get_field)
        (ap (λ (o : Option Json). if k == other then some v else o)
          (get_field-put_field_other name other value d e))
]

-- Appending a receipt to a list, or to nothing
abbrev Appended : Fields → Option Json → Option Json → Type 0
Appended receipt before after =
    (listed after ≡ true)
    × (entries (items_of after)
        ≡ entries (items_of before)
          ++ (text_field "local_path" receipt, text_field "status" receipt) ∷ [])

append_to-Appended :
    (d receipt : Fields)
    → listed (get_field d "artifact_receipts") ≡ true
    → Appended receipt
        (get_field d "artifact_receipts")
        (get_field (append_to "artifact_receipts" (obj receipt) d) "artifact_receipts")
unfolding append_to
append_to-Appended d receipt = found (get_field d "artifact_receipts")
  where
    put_Appended :
        (before : Option Json) (items : Items)
        → Appended receipt before (some (arr items))
        → Appended receipt before
            (get_field (put_field "artifact_receipts" (arr items) d) "artifact_receipts")
    put_Appended before items =
        subst (Appended receipt before)
          (sym (get_field-put_field "artifact_receipts" (arr items) d))

    found :
        (o : Option Json)
        → listed o ≡ true
        → Appended receipt o
            (get_field (append_found "artifact_receipts" (obj receipt) d o) "artifact_receipts")
    found none l = put_Appended none (cons (obj receipt) nil) (refl, refl)
    found (some (arr items)) l =
        put_Appended (some (arr items)) (append_item items (obj receipt))
          (refl, entries-append_item items receipt)
    found (some null) l = absurd (ground (arith, l))
    found (some (bool b)) l = absurd (ground (arith, l))
    found (some (num n)) l = absurd (ground (arith, l))
    found (some (str s)) l = absurd (ground (arith, l))
    found (some (obj e)) l = absurd (ground (arith, l))

-- A list of receipts stays a list, and gains the receipt of the artifact.
abbrev pub Gains : OutboundArtifact → String → OutboundMessage → OutboundMessage → Type 0
Gains artifact status before after =
    (is_listed after ≡ true)
    × (receipts after ≡ receipts before ++ (artifact.local_path, status) ∷ [])

pub delivery-Gains :
    (artifact : OutboundArtifact) (receipt : ArtifactDeliveryReceipt) (message : OutboundMessage)
    → is_listed message ≡ true
    → Gains artifact "delivered" message (record_artifact_delivery artifact receipt message)
unfolding record_artifact_delivery text_field get_field
delivery-Gains artifact receipt message l = append_to-Appended message.metadata _ l

pub failure-Gains :
    (artifact : OutboundArtifact) (error : String) (message : OutboundMessage)
    → is_listed message ≡ true
    → Gains artifact "failed" message (record_artifact_failure artifact error message)
unfolding record_artifact_failure text_field get_field
failure-Gains artifact error message l = append_to-Appended message.metadata _ l

-- The notice of failures leaves the receipts alone.
note_failures-receipts :
    (failures : List String) (d : Fields)
    → get_field (note_failures failures d) "artifact_receipts" ≡ get_field d "artifact_receipts"
unfolding note_failures
note_failures-receipts failures d = found (get_field d "artifact_failures")
  where
    found :
        (o : Option Json)
        → get_field (note_found failures d o) "artifact_receipts" ≡ get_field d "artifact_receipts"
    found none =
        get_field-put_field_other "artifact_failures" "artifact_receipts"
          (arr (add_missing nil failures)) d refl
    found (some (arr items)) =
        get_field-put_field_other "artifact_failures" "artifact_receipts"
          (arr (add_missing items failures)) d refl
    found (some null) = refl
    found (some (bool b)) = refl
    found (some (num n)) = refl
    found (some (str s)) = refl
    found (some (obj e)) = refl

pub append_failures-receipts :
    (failures : List String) (message : OutboundMessage)
    → receipts (append_artifact_failures failures message) ≡ receipts message
unfolding append_artifact_failures
append_failures-receipts [] message = refl
append_failures-receipts (failure ∷ failures) message =
    ap (λ (o : Option Json). entries (items_of o))
      (note_failures-receipts (failure ∷ failures) message.metadata)
