-- ===== src/Journal.antt =====
-- src/llm_harness/journal.py: the interaction journal. The regular expressions are searched and
-- substituted by Python's `re`, so they are the parameters `Patterns` of what uses them.
pub mod Redaction
use ho_h.Prelude.{String, Bool, Option, List, [], ◌∷◌, if◌then◌else◌}
use ho_h.Json.{Json, null, flag, int, float, str, arr, obj, Items, nil, cons, Fields, end, field}

pub record Patterns : Type 0 where
  -- `SECRET_KEY_RE.search(key)`
  pub secret_key : String → Bool
  -- `BOT_TOKEN_RE.sub`, `BEARER_RE.sub` and `ENV_SECRET_RE.sub`, with their replacements
  pub bot_token : String → String
  pub bearer : String → String
  pub env_secret : String → String
  -- `pattern.sub(replacement, ...)` for the pairs of `CREDENTIAL_SHAPE_RES`, in their order
  pub credential_shapes : List (String → String)

-- the loop over `CREDENTIAL_SHAPE_RES`
unfoldable pub scrub_credentials : List (String → String) → String → String
scrub_credentials [] text = text
scrub_credentials (substitute ∷ rest) text = scrub_credentials rest (substitute text)

-- the substitutions in one text
unfoldable pub scrub_text : Patterns → String → String
unfolding scrub_credentials
scrub_text p value =
    let text = p.bot_token value in
    let text = p.bearer text in
    let text = p.env_secret text in scrub_credentials p.credential_shapes text

-- `redact`: the Python value is a JSON value here, so its last branch, `redact(str(value))`, is
-- not reached.
unfoldable mutual
  unfolding scrub_text

  pub redact : Json → Patterns → Json
  redact null p = null
  redact (flag b) p = flag b
  redact (int z) p = int z
  redact (float x) p = float x
  redact (str s) p = str (scrub_text p s)
  redact (arr xs) p = arr (redact_items xs p)
  redact (obj fs) p = obj (redact_fields fs p)

  pub redact_items : Items → Patterns → Items
  redact_items nil p = nil
  redact_items (cons x xs) p = cons (redact x p) (redact_items xs p)

  pub redact_fields : Fields → Patterns → Fields
  redact_fields end p = end
  redact_fields (field k v fs) p =
      field k (if p.secret_key k then str "<redacted>" else redact v p) (redact_fields fs p)

pub data EventType : Type 0 where
  interaction tool_call tool_result state_transition artifact decision : EventType

pub record JournalEvent : Type 0 where
  pub event_id : String
  pub created_at_utc : String
  pub event_type : EventType
  pub actor : String
  pub recipient : Option String
  pub action : String
  pub content : Json
  pub metadata : Json
  pub task_id : Option String
  pub run_id : Option String
  pub correlation_id : Option String
  pub journal_version : String

-- What a caller of `InteractionJournal.record` gives; no caller of the store gives metadata.
pub record Entry : Type 0 where
  pub event_type : EventType
  pub actor : String
  pub action : String
  pub recipient : Option String
  pub content : Json
  pub task_id : Option String
  pub run_id : Option String
  pub correlation_id : Option String

-- the event that `record` appends, from the id and the time that it draws
unfoldable pub event_of : Patterns → String → String → Entry → JournalEvent
unfolding redact
event_of p event_id created e = record {
  event_id = event_id;
  created_at_utc = created;
  event_type = e.event_type;
  actor = e.actor;
  recipient = e.recipient;
  action = e.action;
  content = redact e.content p;
  metadata = redact (obj end) p;
  task_id = e.task_id;
  run_id = e.run_id;
  correlation_id = e.correlation_id;
  journal_version = "1.0";
}
