-- ===== src/Bridge/Pump/Calls/Kept.antt =====
-- What a buffer keeps while its turn goes on, whatever is recorded.
use imcodex.Prelude.{
  String, ◌≡◌, refl, sym, subst, Bool, true, false, not, Option, none, some, List, [], ◌∷◌, ◌++◌,
  ◌==◌, arith, string_eq, pair_eq, pair_beq_iff, is_empty, contains, Bool-cases, Option-cases, inl,
  inr, all,
}
use imcodex.Text.{strip}
use imcodex.Dict
use imcodex.Dict.{Dict}
use imcodex.Dict.Laws.{get-put, get-pop}
use imcodex.Models.{Pair, Fields}
use imcodex.Bridge.Pump
use imcodex.Bridge.Pump.{
  Pump, TurnBuffer, or_new, buffer_of, new_buffer, agent_message, native_item_metadata,
}
use imcodex.Bridge.Pump.Artifacts
use imcodex.Bridge.Pump.Endings
use imcodex.Bridge.Pump.Calls.{Call, step, run, ends, reopens}

-- What is visible or claimed in a buffer stays so in another one.
pub record Grows (b c : TurnBuffer) : Type 0 where
  pub visible : b.final_visible ≡ true → c.final_visible ≡ true
  pub claimed :
      (item : String)
      → contains b.completed_item_ids item ≡ true
      → contains c.completed_item_ids item ≡ true

Grows-refl : (b : TurnBuffer) → Grows b b
Grows-refl b = record { visible = λ h. h; claimed = λ i h. h }

put-Grows :
    (k : Pair) (b : TurnBuffer) (p : Pump) (key : Pair)
    → Grows (buffer_of k p) b
    → Grows (buffer_of key p) (buffer_of key (Dict.put p k b))
put-Grows k b p key g = elim (Bool-cases (k == key)) [
  | inl same ↦
      rw (get-put p k key b, same)
        (subst (λ (j : Pair). Grows (buffer_of j p) b) ((pair_beq_iff k key).0 same) g)
  | inr other ↦ rw (get-put p k key b, other) (Grows-refl (buffer_of key p))
]

pop-Grows :
    (k : Pair) (p : Pump) (key : Pair)
    → (k == key) ≡ false
    → Grows (buffer_of key p) (buffer_of key (Dict.pop p k))
pop-Grows k p key other = rw (get-pop p k key, other) (Grows-refl (buffer_of key p))

contains-append_left :
    (xs ys : List String) (a : String) → contains xs a ≡ true → contains (xs ++ ys) a ≡ true
contains-append_left [] ys a h = absurd (ground arith)
contains-append_left (x ∷ xs) ys a h = ground (arith, contains-append_left xs ys a)

agent_message-Grows :
    (phase : Option String) (text : String) (emit : Bool) (metadata : Fields) (b : TurnBuffer)
    → Grows b (agent_message phase text emit metadata b).1
unfolding agent_message
agent_message-Grows none text emit metadata b = elim (Bool-cases (is_empty text)) [
  | inl e ↦ rw e (Grows-refl b)
  | inr e ↦ rw e (record { visible = λ h. h; claimed = λ i h. h })
]
agent_message-Grows (some phase) text emit metadata b =
    elim (Bool-cases (phase == "final_answer")) [
      | inl f ↦ elim (Bool-cases (is_empty (strip text))) [
        | inl e ↦ rw (f, e) (Grows-refl b)
        | inr e ↦ rw (f, e) (record { visible = λ h. refl; claimed = λ i h. h })
      ]
      | inr f ↦ rw f (Grows-refl b)
    ]

claim-Grows :
    (k : Pair) (item : String) (p : Pump) (key : Pair)
    → Grows (buffer_of key p) (buffer_of key (Pump.claim_completed_item k item p).1)
unfolding Pump.claim_completed_item
claim-Grows k item p key = elim (Bool-cases (is_empty item)) [
  | inl e ↦ rw e (Grows-refl (buffer_of key p))
  | inr e ↦ elim (Bool-cases (contains (buffer_of k p).completed_item_ids item)) [
    | inl old ↦ rw (e, old) (put-Grows k (buffer_of k p) p key (Grows-refl (buffer_of k p)))
    | inr new ↦
        rw (e, new)
          (put-Grows k _ p key (record {
            visible = λ h. h;
            claimed =
                λ i h. contains-append_left (buffer_of k p).completed_item_ids (item ∷ []) i h;
          }))
  ]
]

delta-Grows :
    (k : Pair) (d : String) (emit : Bool) (p : Pump) (key : Pair)
    → Grows (buffer_of key p) (buffer_of key (Pump.record_delta k d emit p).1)
unfolding Pump.record_delta
delta-Grows k d emit p key = put-Grows k _ p key (elim (Bool-cases (is_empty d)) [
  | inl e ↦ rw e (Grows-refl (buffer_of k p))
  | inr e ↦ rw e (record { visible = λ h. h; claimed = λ i h. h })
])

put-claimed :
    (k : Pair) (b : TurnBuffer) (p : Pump) (key : Pair) (item : String)
    → (contains (buffer_of k p).completed_item_ids item ≡ true
        → contains b.completed_item_ids item ≡ true)
    → contains (buffer_of key p).completed_item_ids item ≡ true
    → contains (buffer_of key (Dict.put p k b)).completed_item_ids item ≡ true
put-claimed k b p key item f h = elim (Bool-cases (k == key)) [
  | inl same ↦
      rw (get-put p k key b, same)
        (f (
          subst (λ (j : Pair). contains (buffer_of j p).completed_item_ids item ≡ true)
            (sym ((pair_beq_iff k key).0 same)) h))
  | inr other ↦ rw (get-put p k key b, other) h
]

resume-claimed :
    (k : Pair) (p : Pump) (key : Pair) (item : String)
    → contains (buffer_of key p).completed_item_ids item ≡ true
    → contains (buffer_of key (Pump.resume_turn_output k p).1).completed_item_ids item ≡ true
unfolding Pump.resume_turn_output
resume-claimed k p key item h = elim (Option-cases (Dict.get p k)) [
  | inl absent ↦ rw (absent, Pump.resume_turn_output) h
  | inr (b, there) ↦ elim (Bool-cases b.final_visible) [
    | inl v ↦
        rw (there, Pump.resume_turn_output, v)
          (put-claimed k (Pump.reopened b) p key item
            (λ q.
              subst (λ (o : Option TurnBuffer). contains (or_new o).completed_item_ids item ≡ true)
                there q)
            h)
    | inr v ↦ rw (there, Pump.resume_turn_output, v) h
  ]
]

resume-elsewhere :
    (k : Pair) (p : Pump) (key : Pair)
    → (k == key) ≡ false
    → Grows (buffer_of key p) (buffer_of key (Pump.resume_turn_output k p).1)
unfolding Pump.resume_turn_output
resume-elsewhere k p key other = elim (Option-cases (Dict.get p k)) [
  | inl absent ↦ rw (absent, Pump.resume_turn_output) (Grows-refl (buffer_of key p))
  | inr (b, there) ↦ elim (Bool-cases b.final_visible) [
    | inl v ↦
        rw (there, Pump.resume_turn_output, v, get-put p k key (Pump.reopened b), other)
          (Grows-refl (buffer_of key p))
    | inr v ↦ rw (there, Pump.resume_turn_output, v) (Grows-refl (buffer_of key p))
  ]
]

-- While a turn is neither ended nor resumed, nothing in its buffer is taken back.
pub step-Grows :
    (key : Pair) (call : Call) (p : Pump)
    → reopens key call ≡ false
    → Grows (buffer_of key p) (buffer_of key (step call p))
unfolding step Pump.record_agent_message Pump.record_command Pump.record_file_change
    Artifacts.record_artifacts Artifacts.with_artifacts Endings.finalize_turn Artifacts.discard_turn
    Endings.recover_turn
step-Grows key (Call.resume k) p h = resume-elsewhere k p key h
step-Grows key (Call.delta k d e) p h = delta-Grows k d e p key
step-Grows key (Call.claim k i) p h = claim-Grows k i p key
step-Grows key (Call.agent k phase text e i) p h =
    put-Grows k _ p key
      (agent_message-Grows phase text e (native_item_metadata i phase) (buffer_of k p))
step-Grows key (Call.command k c e i) p h =
    put-Grows k _ p key (record { visible = λ h. h; claimed = λ i h. h })
step-Grows key (Call.file_change k fs e i) p h =
    put-Grows k _ p key (record { visible = λ h. h; claimed = λ i h. h })
step-Grows key (Call.artifacts k given e) p h =
    put-Grows k _ p key (record { visible = λ h. h; claimed = λ i h. h })
step-Grows key (Call.finalize k s) p h = pop-Grows k p key h
step-Grows key (Call.discard k) p h = pop-Grows k p key h
step-Grows key (Call.recover k s is given es) p h = pop-Grows k p key h

step-claimed :
    (key : Pair) (item : String) (call : Call) (p : Pump)
    → ends key call ≡ false
    → contains (buffer_of key p).completed_item_ids item ≡ true
    → contains (buffer_of key (step call p)).completed_item_ids item ≡ true
unfolding step
step-claimed key item (Call.resume k) p e h = resume-claimed k p key item h
step-claimed key item (Call.delta k d t) p e h =
    (step-Grows key (Call.delta k d t) p e).claimed item h
step-claimed key item (Call.claim k i) p e h = (step-Grows key (Call.claim k i) p e).claimed item h
step-claimed key item (Call.agent k f t m i) p e h =
    (step-Grows key (Call.agent k f t m i) p e).claimed item h
step-claimed key item (Call.command k c t i) p e h =
    (step-Grows key (Call.command k c t i) p e).claimed item h
step-claimed key item (Call.file_change k fs t i) p e h =
    (step-Grows key (Call.file_change k fs t i) p e).claimed item h
step-claimed key item (Call.artifacts k given r) p e h =
    (step-Grows key (Call.artifacts k given r) p e).claimed item h
step-claimed key item (Call.finalize k s) p e h =
    (step-Grows key (Call.finalize k s) p e).claimed item h
step-claimed key item (Call.discard k) p e h = (step-Grows key (Call.discard k) p e).claimed item h
step-claimed key item (Call.recover k s is given es) p e h =
    (step-Grows key (Call.recover k s is given es) p e).claimed item h

pub run-claimed :
    (key : Pair) (item : String) (calls : List Call) (p : Pump)
    → all (λ c. not (ends key c)) calls ≡ true
    → contains (buffer_of key p).completed_item_ids item ≡ true
    → contains (buffer_of key (run calls p)).completed_item_ids item ≡ true
unfolding run
run-claimed key item [] p a h = h
run-claimed key item (call ∷ calls) p a h = elim (Bool-cases (ends key call)) [
  | inl e ↦ absurd (ground arith)
  | inr e ↦
      run-claimed key item calls (step call p) (ground arith) (step-claimed key item call p e h)
]

pub run-visible :
    (key : Pair) (calls : List Call) (p : Pump)
    → all (λ c. not (reopens key c)) calls ≡ true
    → (buffer_of key p).final_visible ≡ true
    → (buffer_of key (run calls p)).final_visible ≡ true
unfolding run
run-visible key [] p a h = h
run-visible key (call ∷ calls) p a h = elim (Bool-cases (reopens key call)) [
  | inl e ↦ absurd (ground arith)
  | inr e ↦ run-visible key calls (step call p) (ground arith) ((step-Grows key call p e).visible h)
]
