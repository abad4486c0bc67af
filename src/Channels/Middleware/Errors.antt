-- ===== src/Channels/Middleware/Errors.antt =====
-- What a user is told when the service raises.
use imcodex.Prelude.{
  ℕ, String, ◌≡◌, refl, sym, ap, ◌∙◌, subst, Bool, true, false, Option, none, some, List, [], ◌∷◌,
  arith, string_eq, is_empty, Bool-cases, inl, inr, beq_refl, is_none,
}
use imcodex.Models.{Items, Fields, get_field}
use imcodex.Persistence.{Io, written, Outcome, returned, write_serialized_state}
use imcodex.Store.State.{Store}
use imcodex.Store.Inbound.{
  Inbound, should_drop_duplicate_inbound_message, note_inbound_message, write_now, settle,
  commit_inbound_message_processed,
}
use imcodex.Bridge.Delivery.Payload.{text_field}
use imcodex.Bridge.Delivery.Direct.{put_field}
use imcodex.Channels.Middleware.{
  Arrival, Answers, Handled, deliver_messages, deliver_with_service_ack, error_message,
  generic_user_error_text, payload_of, prepare_message, prepare, number_from, numbered, answer_of,
  prepared_for, asks, record_answer, answer, handle_serialized,
}
use imcodex.Channels.Middleware.Replay.{handle-new}

-- The error message, with some metadata
abbrev IsError : Arrival → List Fields → Type 0
IsError a messages =
    (metadata : Fields) × (messages
      ≡ error_message a.channel_id a.inbound generic_user_error_text metadata ∷ [])

module _ (utf8 : String → List ℕ) (digest : List ℕ → String) (a : Arrival) where
  answer_of-IsError : (s : Store) → IsError a (answer_of utf8 digest a none s).0
  unfolding answer_of
  answer_of-IsError s = (_, refl)

  prepare-IsError :
      (messages : List Fields) (s : Store)
      → IsError a messages
      → IsError a (prepare utf8 digest a messages s).0
  unfolding prepare prepare_message put_field text_field get_field
  prepare-IsError messages s (metadata, e) =
      subst (λ (ms : List Fields). IsError a (prepare utf8 digest a ms s).0) (sym e)
        (rw (beq_refl (a.channel_id)) (_, refl))

  numbered-IsError :
      (messages : List Fields)
      → IsError a messages
      → IsError a (numbered utf8 digest a.inbound messages)
  unfolding number_from put_field
  numbered-IsError messages (metadata, e) =
      subst (λ (ms : List Fields). IsError a (numbered utf8 digest a.inbound ms)) (sym e)
        (elim (Bool-cases (is_empty a.inbound.message_id)) [
          | inl h ↦ rw h (metadata, refl)
          | inr h ↦ rw h (_, refl)
        ])

  -- The store as the service sees it
  abbrev noted : Answers → Store → Store
  noted answers s =
      note_inbound_message a.inbound.conversation a.inbound.message_id (some a.inbound.user_id)
        answers.now s

  prepared-IsError :
      (answers : Answers) (s : Store)
      → a.outbound_override ≡ none
      → (answers.handle (noted answers s)).1 ≡ none
      → IsError a (prepared_for utf8 digest answers a s).0
  unfolding prepared_for
  prepared-IsError answers s asked fails =
      raised_reply (asks answers a.outbound_override (noted answers s)) (rw (asked, asks) fails)
    where
      raised_reply :
          (r : Store × Option (List Fields))
          → r.1 ≡ none
          → IsError a (
              numbered utf8 digest a.inbound
                (prepare utf8 digest a
                  (answer_of utf8 digest a r.1 r.0).0
                  (answer_of utf8 digest a r.1 r.0).1).0)
      raised_reply (t, some messages) e = absurd (ground (arith, e))
      raised_reply (t, none) e =
          numbered-IsError _
            (prepare-IsError _ (answer_of utf8 digest a none t).1 (answer_of-IsError t))

commit-written :
    (m : Inbound) (response : Option Items) (now : ℕ) (s : Store)
    → (commit_inbound_message_processed m response now written s).1 ≡ returned
unfolding commit_inbound_message_processed write_now settle write_serialized_state
commit-written m response now s = ground arith

deliver-one : (sends : Fields → Outcome) (m : Fields) → (deliver_messages sends (m ∷ [])).0 ≡ m ∷ []
unfolding deliver_messages
deliver-one sends m = ground arith

service_sent :
    (answers : Answers) (asked success : Bool) (messages : List Fields) (s : Store)
    → (deliver_with_service_ack answers asked messages success s).sent
      ≡ (deliver_messages answers.sends messages).0
unfolding deliver_with_service_ack
service_sent answers asked success messages s = ground arith

module _ (utf8 : String → List ℕ) (digest : List ℕ → String) (answers : Answers) (m : Inbound) where
  record-sent :
      (asked : Bool) (messages : List Fields) (t : Store)
      → answers.commit ≡ written
      → (record_answer utf8 digest returned answers m asked messages t).sent
        ≡ (deliver_messages answers.sends messages).0
  unfolding record_answer
  record-sent asked messages t works =
      rw (committed, record_answer) (service_sent answers asked true messages _)
    where
      committed :
          (commit_inbound_message_processed m
            (some (payload_of messages))
            answers.now
            answers.commit
            t).1
          ≡ returned
      committed =
          subst
            (λ (io : Io).
              (commit_inbound_message_processed m (some (payload_of messages)) answers.now io t).1
              ≡ returned)
            (sym works) (commit-written m (some (payload_of messages)) answers.now t)

  remembered-sent :
      (asked : Bool) (messages : List Fields) (t : Store)
      → answers.remembers ≡ returned
      → answers.commit ≡ written
      → (record_answer utf8 digest answers.remembers answers m asked messages t).sent
        ≡ (deliver_messages answers.sends messages).0
  remembered-sent asked messages t kept works =
      ap (λ (o : Outcome). (record_answer utf8 digest o answers m asked messages t).sent) kept
      ∙ record-sent asked messages t works

-- If the service raises on a new message with an id, and the answer can be recorded, the user is sent
-- the generic error message and nothing else.
pub error-told :
    (utf8 : String → List ℕ) (digest : List ℕ → String) (answers : Answers) (a : Arrival)
    (s : Store)
    → is_empty a.inbound.message_id ≡ false
    → a.outbound_override ≡ none
    → answers.remembers ≡ returned
    → answers.commit ≡ written
    → (should_drop_duplicate_inbound_message a.inbound answers.now s).0 ≡ false
    → (answers.handle (
        noted utf8 digest a answers
          (should_drop_duplicate_inbound_message a.inbound answers.now s).1)).1
      ≡ none
    → (metadata : Fields) × ((handle_serialized utf8 digest answers a s).sent
        ≡ error_message a.channel_id a.inbound generic_user_error_text metadata ∷ [])
unfolding answer
error-told utf8 digest answers a s there asked kept works new fails =
    let t = (should_drop_duplicate_inbound_message a.inbound answers.now s).1 in
    let (metadata, e) = prepared-IsError utf8 digest a answers t asked fails in
    (
      metadata,
      ap (λ (h : Handled). h.sent) (handle-new utf8 digest a s answers there new)
          ∙ remembered-sent utf8 digest answers a.inbound (is_none a.outbound_override)
              (prepared_for utf8 digest answers a t).0 (prepared_for utf8 digest answers a t).1 kept
              works
          ∙ ap (λ (ms : List Fields). (deliver_messages answers.sends ms).0) e
          ∙ deliver-one answers.sends _,
    )
